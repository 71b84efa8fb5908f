-- ===== src/Tests/Offered.antt =====
-- A service that one endpoint offers and another calls.
use web_socket_sh.Prelude.{◌≡◌, refl, false, true, none, some, [], ◌∷◌, ◌++◌, arith, if◌then◌else◌}
use web_socket_sh.Text.{Text, bytes, text_beq}
use web_socket_sh.Dict.{find}
use web_socket_sh.Decimal.{to_string}
use web_socket_sh.Names.{transform_type}
use web_socket_sh.Json.{Json, null, str, obj, put}
use web_socket_sh.External.{Externals, PrintsJson}
use web_socket_sh.Encoding.{get_type, make_json_encoding}
use web_socket_sh.Encoding.Message.{advertise_service_msg, call_service_msg, service_response_msg}
use web_socket_sh.Endpoint.{Endpoint, make_endpoint, sent, tcp, requested, responded, ok}
use web_socket_sh.Endpoint.Sending.{transport}
use web_socket_sh.Endpoint.Setup.{client_proxy, create_client_proxy}
use web_socket_sh.Endpoint.Traffic.{call_service, receive_response}
use web_socket_sh.Endpoint.Lifetime.{notify_connection_opened}
use web_socket_sh.Endpoint.Receive.{make_call_handle}
use web_socket_sh.Endpoint.Calls.{pending}
use web_socket_sh.Interpret.{interpret_websocket_msg}
use web_socket_sh.Interpret.Offered.{offered-answered}
use web_socket_sh.Tests.Sample.{world_of, hello, greeting}
use web_socket_sh.Tests.Answered.{print_op, print_op-is_empty, hello_name}

abbrev hi : Json
hi = str (bytes "hi")

abbrev offer : Json
offer = obj (advertise_service_msg (bytes "add") hello_name hello_name)

abbrev call : Json
call = obj (call_service_msg (bytes "add") (bytes "1") hi)

abbrev answer : Json
answer = obj (service_response_msg (bytes "add") (bytes "1") hi true)

-- The parser knows these three messages.
instance abbrev service_messages : Externals
service_messages = record (world_of null) {
  dump = print_op;
  parse = λ s. some (
      if text_beq s (print_op offer)
      then offer
      else if text_beq s (print_op call)
      then call
      else answer);
  idl_types = [];
}

service_messages-PrintsJson : PrintsJson service_messages
service_messages-PrintsJson = record { dump-str = λ s h. refl; dump-is_empty = print_op-is_empty }

abbrev knowing : Endpoint
knowing = record (make_endpoint false) {
  encoding = record {
    types = (hello_name, hello) ∷ [];
    types_by_topic = [];
    types_by_service = [];
  };
}

abbrev server : Endpoint
server =
    notify_connection_opened 9
      (create_client_proxy (bytes "add") hello hello 6 tt (make_endpoint false)).1

abbrev caller : Endpoint
caller = (interpret_websocket_msg (print_op offer) 7 knowing).1

offered-answered_example :
    let id = to_string 1 in
    let (outcome, called) = call_service (bytes "add") greeting 3 4 caller in
    let handle = make_call_handle (bytes "add") (client_proxy hello hello 6 tt) id 9 in
    (server.events ≡ sent tcp 9 (print_op offer) ∷ [])
    × ((call_text answer_text : Text) × (outcome ≡ ok tt)
        × (called.events ≡ caller.events ++ sent (transport caller) 7 call_text ∷ [])
        × ((interpret_websocket_msg call_text 9 server).1.events
            ≡ server.events ++ requested 6 greeting handle ∷ [])
        × ((receive_response handle greeting server).events
            ≡ server.events ++ sent (transport server) 9 answer_text ∷ [])
        × ((interpret_websocket_msg answer_text 7 called).1.events
            ≡ called.events ++ responded 3 4 greeting ∷ [])
        × (pending (interpret_websocket_msg answer_text 7 called).1 id ≡ none))
unfolding get_type find text_beq transform_type make_endpoint make_json_encoding put
    advertise_service_msg call_service_msg service_response_msg to_string client_proxy
offered-answered_example =
    offered-answered service_messages-PrintsJson (bytes "add") hello hello hello hello 6 tt greeting
      greeting greeting greeting hi hi hi hi 3 4 7 9 knowing (make_endpoint false) server
      (omega arith) (omega arith) (omega arith) refl refl refl refl refl refl refl refl refl refl
      refl refl refl refl
