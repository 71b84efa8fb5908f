-- ===== src/Endpoint/Lifetime.antt =====
-- What an endpoint does when a connection opens or closes (src/Endpoint.cpp).
use web_socket_sh.Prelude.{List, [], ◌∷◌, nat_eq}
use web_socket_sh.Text.{Text, text_eq}
use web_socket_sh.Dict.{erase, erase_all, map_values, keys_where}
use web_socket_sh.Dict.HashSet.{remove}
use web_socket_sh.External.{Externals}
use web_socket_sh.Endpoint.{Endpoint, Connection, TopicSubscribeInfo, TopicPublishInfo, send}
use web_socket_sh.Endpoint.Receive.{provided_by}

module _ ⦃x : Externals⦄ where
  -- `for (msg : _startup_messages) connection_handle->send(msg)`
  unfoldable pub send_all : List Text → Connection → Endpoint → Endpoint
  send_all [] connection e = e
  send_all (msg ∷ msgs) connection e = send_all msgs connection (send connection msg e)

  unfoldable pub notify_connection_opened : Connection → Endpoint → Endpoint
  notify_connection_opened connection e = send_all e.startup_messages connection e

  unfoldable pub forgive : Connection → TopicSubscribeInfo → TopicSubscribeInfo
  forgive connection info = record info { blacklist = remove connection info.blacklist }

  unfoldable pub stop_listening : Connection → TopicPublishInfo → TopicPublishInfo
  stop_listening connection info = record info { listeners = erase connection info.listeners }

  unfoldable pub notify_connection_closed : Connection → Endpoint → Endpoint
  unfolding forgive stop_listening provided_by
  notify_connection_closed connection e =
      let lost_services = keys_where (provided_by connection) e.service_provider_info in
      record e {
        topic_subscribe_info = map_values (forgive connection) e.topic_subscribe_info;
        topic_publish_info = map_values (stop_listening connection) e.topic_publish_info;
        service_provider_info = erase_all lost_services e.service_provider_info;
      }
