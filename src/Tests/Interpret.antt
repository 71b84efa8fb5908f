-- ===== src/Tests/Interpret.antt =====
-- Runs and instances for the messages on the wire.
use web_socket_sh.Prelude.{List, ◌++◌, ◌≡◌, refl, true, false, [], ◌∷◌, arith}
use web_socket_sh.Text.{Text, bytes, text_beq, text_eq}
use web_socket_sh.Dict.{find}
use web_socket_sh.Dict.HashSet.{contains}
use web_socket_sh.Endpoint.Traffic.{publish}
use web_socket_sh.Endpoint.Listeners.{listens}
use web_socket_sh.Endpoint.Delivery.{ignores}
use web_socket_sh.Interpret.Delivered.{publish-delivered}
use web_socket_sh.Json.{Json, str, obj, field, end}
use web_socket_sh.Names.{transform_type}
use web_socket_sh.Encoding.{get_type, encode_advertise_msg, make_json_encoding}
use web_socket_sh.Encoding.Message.{publication_msg, advertise_msg}
use web_socket_sh.Endpoint.{Endpoint, make_endpoint, Event, sent, tcp, delivered, ok}
use web_socket_sh.Endpoint.Receive.{receive_topic_advertisement_ws}
use web_socket_sh.Interpret.{interpret_websocket_msg}
use web_socket_sh.Interpret.Topics.{interpret-advertise}
use web_socket_sh.Interpret.Isolation.{interpret_websocket_msg-isolates}
use web_socket_sh.Tests.Sample.{world_of, world_of-PrintsJson, chatter, hello, greeting}

abbrev hello_name : Text
hello_name = bytes "std__Hello"

-- A peer that knows the type, the topic and a service.
abbrev peer : (msg : Json) → Endpoint ⦃x = world_of msg⦄
peer msg = record (make_endpoint ⦃x = world_of msg⦄ false) {
  encoding = record {
    types = (hello_name, hello) ∷ [];
    types_by_topic = (chatter, hello_name) ∷ [];
    types_by_service = (bytes "add", (hello_name, hello_name)) ∷ [];
  };
}

abbrev adv : Json
adv = obj (advertise_msg chatter hello_name [])

interpret-advertise_example :
    let instance x = world_of adv in
    interpret_websocket_msg
      (encode_advertise_msg chatter hello [] tt make_json_encoding).0
      7
      (peer adv)
    ≡ (ok tt, receive_topic_advertisement_ws chatter hello [] 7 (peer adv))
unfolding get_type find text_beq transform_type
interpret-advertise_example =
    interpret-advertise ⦃x = world_of adv⦄ (world_of-PrintsJson adv) chatter hello [] tt
      (make_json_encoding ⦃x = world_of adv⦄) 7 (peer adv) (omega arith) (omega arith) tt refl

abbrev leave : Json
leave =
    obj (field (bytes "op") (str (bytes "unsubscribe")) (field (bytes "topic") (str chatter) end))

-- Connections 7 and 9 listen to the topic, and 7 leaves it.
abbrev crowd : Endpoint ⦃x = world_of leave⦄
crowd = record (make_endpoint ⦃x = world_of leave⦄ false) {
  topic_publish_info =
      (chatter, record { type = hello; listeners = (7, [] ∷ []) ∷ (9, [] ∷ []) ∷ [] }) ∷ [];
}

interpret_websocket_msg-isolates_example :
    let instance x = world_of leave in
    let after = (interpret_websocket_msg ((world_of leave).dump leave) 7 crowd).1 in
    (listens after chatter 9 [] ≡ true) × (ignores after chatter 9 ≡ false)
unfolding listens ignores find contains text_beq make_endpoint
interpret_websocket_msg-isolates_example =
    interpret_websocket_msg-isolates ⦃x = world_of leave⦄ ((world_of leave).dump leave) 9 7 crowd
      chatter [] refl

abbrev publication : Json
publication = obj (publication_msg chatter [] (str (bytes "hi")))

-- An endpoint that advertises the topic, on which connection 9 listens, and one that subscribes.
abbrev publisher : Endpoint ⦃x = world_of publication⦄
publisher = record (make_endpoint ⦃x = world_of publication⦄ false) {
  topic_publish_info = (chatter, record { type = hello; listeners = (9, [] ∷ []) ∷ [] }) ∷ [];
}

abbrev subscriber : Endpoint ⦃x = world_of publication⦄
subscriber = record (peer publication) {
  topic_subscribe_info = (chatter, record { type = hello; callback = 5; blacklist = [] }) ∷ [];
}

publish-delivered_example :
    let instance x = world_of publication in
    (text : Text) × (before : List Event) × (after : List Event) × ((publish chatter greeting
        publisher).1.events
      ≡ before ++ sent tcp 9 text ∷ after)
    × ((interpret_websocket_msg text 7 subscriber).1.events ≡ delivered 5 greeting ∷ [])
unfolding get_type find text_beq transform_type listens ignores contains make_endpoint
publish-delivered_example =
    publish-delivered ⦃x = world_of publication⦄ (world_of-PrintsJson publication) chatter []
      hello_name greeting greeting (str (bytes "hi")) hello
      (record { type = hello; callback = 5; blacklist = [] }) 9 7 publisher subscriber (omega arith)
      refl refl refl refl refl refl refl refl
