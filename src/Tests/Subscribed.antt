-- ===== src/Tests/Subscribed.antt =====
-- A subscription and the publication that it brings, between two endpoints.
use web_socket_sh.Prelude.{◌≡◌, refl, false, some, List, [], ◌∷◌, ◌++◌, arith, if◌then◌else◌}
use web_socket_sh.Text.{Text, bytes, text_beq}
use web_socket_sh.Dict.{find}
use web_socket_sh.Names.{transform_type}
use web_socket_sh.Json.{Json, null, str, obj, put}
use web_socket_sh.External.{Externals, PrintsJson}
use web_socket_sh.Encoding.{get_type, make_json_encoding}
use web_socket_sh.Encoding.Message.{subscribe_msg, publication_msg}
use web_socket_sh.Endpoint.{Endpoint, Event, make_endpoint, sent, tcp, delivered}
use web_socket_sh.Endpoint.Sending.{transport}
use web_socket_sh.Endpoint.Setup.{subscribe}
use web_socket_sh.Endpoint.Traffic.{publish}
use web_socket_sh.Endpoint.Lifetime.{notify_connection_opened}
use web_socket_sh.Endpoint.Delivery.{ignores}
use web_socket_sh.Interpret.{interpret_websocket_msg}
use web_socket_sh.Interpret.Subscribed.{subscribed-delivered}
use web_socket_sh.Tests.Sample.{world_of, chatter, hello, greeting}
use web_socket_sh.Tests.Answered.{print_op, print_op-is_empty, hello_name}

abbrev news : Json
news = obj (publication_msg chatter [] (str (bytes "hi")))

abbrev request : Json
request = obj (subscribe_msg chatter hello_name [])

-- The parser knows these two messages.
instance abbrev topic_messages : Externals
topic_messages = record (world_of null) {
  dump = print_op;
  parse = λ s. some (if text_beq s (print_op request) then request else news);
  idl_types = [];
}

topic_messages-PrintsJson : PrintsJson topic_messages
topic_messages-PrintsJson = record { dump-str = λ s h. refl; dump-is_empty = print_op-is_empty }

abbrev talking : Endpoint
talking = record (make_endpoint false) {
  encoding = record {
    types = (hello_name, hello) ∷ [];
    types_by_topic = [];
    types_by_service = [];
  };
}

abbrev subscriber : Endpoint
subscriber = notify_connection_opened 9 (subscribe chatter hello 5 tt (make_endpoint false)).1

abbrev publisher : Endpoint
publisher = (interpret_websocket_msg (print_op request) 7 talking).1

subscribed-delivered_example :
    (subscriber.events ≡ sent tcp 9 (print_op request) ∷ [])
    × ((publication : Text) × (before : List Event) × (after : List Event) × ((publish chatter
            greeting publisher).1.events
          ≡ publisher.events ++ (before ++ sent (transport publisher) 7 publication ∷ after))
        × ((interpret_websocket_msg publication 9 subscriber).1.events
            ≡ subscriber.events ++ delivered 5 greeting ∷ []))
unfolding get_type find text_beq transform_type make_endpoint make_json_encoding put subscribe_msg
    publication_msg ignores
subscribed-delivered_example =
    subscribed-delivered topic_messages-PrintsJson chatter hello hello 5 tt greeting greeting
      (str (bytes "hi")) 7 9 talking (make_endpoint false) (omega arith) (omega arith) refl refl
      refl refl refl refl refl refl
