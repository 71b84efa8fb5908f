-- ===== src/Tests/Presence.antt =====
-- A server that a connection opens, subscribes at and closes.
use web_socket_sh.Prelude.{refl, false, none, arith, nat_eq, []}
use web_socket_sh.Text.{bytes, text_eq}
use web_socket_sh.Dict.{find}
use web_socket_sh.Dict.HashSet.{contains, insert}
use web_socket_sh.Json.{obj}
use web_socket_sh.Names.{transform_type}
use web_socket_sh.Encoding.Message.{subscribe_msg}
use web_socket_sh.External.{Externals}
use web_socket_sh.Endpoint.{make_endpoint}
use web_socket_sh.Endpoint.Setup.{subscribe}
use web_socket_sh.Interpret.Steps
use web_socket_sh.Server.{
  Server, make_server, open_connection, handle_opening, close_connection, handle_close,
  handle_tcp_message,
}
use web_socket_sh.Server.Steps.{opening, closing, message, core}
use web_socket_sh.Server.Presence.{here, next, HasOpenOnly, Reach-HasOpenOnly}
use web_socket_sh.Tests.Sample.{world_of, chatter, hello}

instance abbrev subscribers_world : Externals
subscribers_world = world_of (obj (subscribe_msg chatter (transform_type hello) []))

abbrev made : Server
made = make_server none (make_endpoint false)

abbrev subscribed : Server
subscribed = record made { endpoint = (subscribe chatter hello 5 tt made.endpoint).1 }

abbrev opened : Server
opened = open_connection 7 subscribed

abbrev heard : Server
heard = (handle_tcp_message 7 (bytes "{}") opened).1

abbrev closed : Server
closed = close_connection 7 heard

Reach-HasOpenOnly_example : HasOpenOnly closed.open_connections closed.endpoint
unfolding make_server open_connection handle_opening handle_close handle_tcp_message find contains
    insert
Reach-HasOpenOnly_example = Reach-HasOpenOnly none false closed (
    next
      (next
        (next (next here (core made _ (Steps.subscribing chatter hello 5 tt made.endpoint)) tt)
          (opening subscribed opened 7 refl (omega arith) refl) tt)
        (message opened 7 (bytes "{}")) refl)
      (closing heard closed 7 refl) tt)
