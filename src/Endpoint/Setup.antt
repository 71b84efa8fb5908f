-- ===== src/Endpoint/Setup.antt =====
-- The operations of src/Endpoint.cpp by which the core sets an endpoint up.
use web_socket_sh.Prelude.{ℕ, Bool, true, Option, none, some, [], ◌∷◌, ◌++◌}
use web_socket_sh.Text.{Text, text_eq}
use web_socket_sh.Dict.{find, assign}
use web_socket_sh.External.{Externals}
use web_socket_sh.Encoding.{
  add_type, encode_subscribe_msg, encode_advertise_msg, encode_advertise_service_msg,
}
use web_socket_sh.Endpoint.{
  Endpoint, TopicSubscribeInfo, TopicPublishInfo, ClientProxyInfo, ServiceProviderInfo,
}

module _ ⦃x : Externals⦄ where
  open x use {DynamicType, Node, type_name, empty_node}

  -- `_topic_subscribe_info[topic]` with the fields that `subscribe` assigns: the blacklist stays.
  unfoldable pub subscribe_info : Text → ℕ → Option TopicSubscribeInfo → TopicSubscribeInfo
  subscribe_info type callback none = record { type = type; callback = callback; blacklist = [] }
  subscribe_info type callback (some info) = record info { type = type; callback = callback }

  unfoldable pub subscribe : Text → DynamicType → ℕ → Node → Endpoint → Bool × Endpoint
  unfolding subscribe_info
  subscribe topic message_type callback configuration e =
      let (_, known) = add_type message_type (type_name message_type) e.encoding in
      let (msg, encoding) =
        encode_subscribe_msg topic (type_name message_type) [] configuration known in
      (
        true,
        record e {
          encoding = encoding;
          startup_messages = e.startup_messages ++ msg ∷ [];
          topic_subscribe_info =
              assign topic
                (subscribe_info (type_name message_type) callback
                  (find topic e.topic_subscribe_info))
                e.topic_subscribe_info;
        },
      )

  unfoldable pub client_proxy : Text → Text → ℕ → Node → ClientProxyInfo
  client_proxy req_type reply_type callback configuration = record {
    req_type = req_type;
    reply_type = reply_type;
    callback = callback;
    configuration = configuration;
  }

  -- The overload with a request type and a reply type.
  unfoldable pub create_client_proxy :
      Text → DynamicType → DynamicType → ℕ → Node → Endpoint → Bool × Endpoint
  unfolding client_proxy
  create_client_proxy service request_type reply_type callback configuration e =
      let (_, with_request) = add_type request_type (type_name request_type) e.encoding in
      let (_, known) = add_type reply_type (type_name reply_type) with_request in
      let (msg, encoding) =
        encode_advertise_service_msg service (type_name request_type) (type_name reply_type) []
          configuration known in
      (
        true,
        record e {
          encoding = encoding;
          startup_messages = e.startup_messages ++ msg ∷ [];
          client_proxy_info =
              assign service
                (client_proxy (type_name request_type) (type_name reply_type) callback
                  configuration)
                e.client_proxy_info;
        },
      )

  -- The overload with one service type assigns no reply type, and sends no advertisement.
  unfoldable pub kept_reply_type : Option ClientProxyInfo → Text
  kept_reply_type none = []
  kept_reply_type (some info) = info.reply_type

  unfoldable pub create_client_proxy_one_type :
      Text → DynamicType → ℕ → Node → Endpoint → Bool × Endpoint
  unfolding client_proxy kept_reply_type
  create_client_proxy_one_type service service_type callback configuration e =
      let (_, encoding) = add_type service_type (type_name service_type) e.encoding in
      (
        true,
        record e {
          encoding = encoding;
          client_proxy_info =
              assign service
                (client_proxy (type_name service_type)
                  (kept_reply_type (find service e.client_proxy_info)) callback configuration)
                e.client_proxy_info;
        },
      )

  -- `_service_provider_info[service]`: the handle stays, and is null in a new entry.
  unfoldable pub provider_entry : Option ServiceProviderInfo → ServiceProviderInfo
  provider_entry none = record {
    req_type = [];
    reply_type = [];
    connection_handle = none;
    configuration = empty_node;
  }
  provider_entry (some info) = info

  unfoldable pub create_service_proxy_one_type : Text → DynamicType → Node → Endpoint → Endpoint
  unfolding provider_entry
  create_service_proxy_one_type service service_type configuration e =
      let info = provider_entry (find service e.service_provider_info) in
      record e {
        service_provider_info =
            assign service
              (record info { req_type = type_name service_type; configuration = configuration })
              e.service_provider_info;
      }

  unfoldable pub create_service_proxy :
      Text → DynamicType → DynamicType → Node → Endpoint → Endpoint
  unfolding provider_entry
  create_service_proxy service request_type reply_type configuration e =
      let info = provider_entry (find service e.service_provider_info) in
      let (_, with_request) = add_type request_type (type_name request_type) e.encoding in
      let (_, encoding) = add_type reply_type (type_name reply_type) with_request in
      record e {
        encoding = encoding;
        service_provider_info =
            assign service
              (record info {
                req_type = type_name request_type;
                reply_type = type_name reply_type;
                configuration = configuration;
              })
              e.service_provider_info;
      }

  -- `_topic_publish_info[topic].type = type`: listeners that are there stay.
  unfoldable pub advertised_info : Text → Option TopicPublishInfo → TopicPublishInfo
  advertised_info type none = record { type = type; listeners = [] }
  advertised_info type (some info) = record info { type = type }

  unfoldable pub startup_advertisement : Text → DynamicType → Text → Node → Endpoint → Endpoint
  unfolding advertised_info
  startup_advertisement topic message_type id configuration e =
      let (msg, encoding) =
        encode_advertise_msg topic (type_name message_type) id configuration e.encoding in
      record e {
        encoding = encoding;
        startup_messages = e.startup_messages ++ msg ∷ [];
        topic_publish_info =
            assign topic
              (advertised_info (type_name message_type) (find topic e.topic_publish_info))
              e.topic_publish_info;
      }
