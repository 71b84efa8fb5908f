-- ===== src/Tests/Endpoint.antt =====
-- Runs and instances for topics and connections.
use web_socket_sh.Prelude.{◌≡◌, refl, true, false, some, [], ◌∷◌}
use web_socket_sh.Text.{bytes, text_beq}
use web_socket_sh.Dict.{find}
use web_socket_sh.Json.{str}
use web_socket_sh.Endpoint.{make_endpoint, TopicSubscribeInfo, TopicPublishInfo, ok, sent, tcp}
use web_socket_sh.Endpoint.Traffic.{publish}
use web_socket_sh.Endpoint.Receive.{
  receive_topic_advertisement_ws, receive_publication_ws, receive_subscribe_request_ws,
  receive_unsubscribe_request_ws,
}
use web_socket_sh.Endpoint.Listeners.{
  listens, listens-subscribe_request, listens-unsubscribe_request,
}
use web_socket_sh.Endpoint.Delivery.{events-publish, publication-topic_advertisement}
use web_socket_sh.Endpoint.Unadvertised.{second_subscriber_refused}
use web_socket_sh.Tests.Sample.{world, prints, chatter, hello, greeting, busy}

abbrev shown : TopicPublishInfo
shown = record { type = hello; listeners = (7, bytes "1" ∷ []) ∷ [] }

abbrev wanted : TopicSubscribeInfo
wanted = record { type = hello; callback = 5; blacklist = [] }

listens-subscribe_request_example :
    listens
      (receive_subscribe_request_ws chatter (some hello) (bytes "2") 8 busy).1
      chatter
      8
      (bytes "2")
    ≡ true
unfolding find text_beq
listens-subscribe_request_example =
    listens-subscribe_request busy chatter chatter hello (bytes "2") (bytes "2") 8 8

listens-unsubscribe_request_example :
    listens (receive_unsubscribe_request_ws chatter [] 7 busy) chatter 7 (bytes "1") ≡ false
unfolding text_beq
listens-unsubscribe_request_example =
    listens-unsubscribe_request busy chatter chatter [] (bytes "1") 7 7

events-publish_example :
    ((publish chatter greeting busy).0 ≡ ok true)
    × ((publish chatter greeting busy).1.events ≡ sent tcp 7 (bytes "{}") ∷ [])
unfolding make_endpoint find text_beq
events-publish_example =
    events-publish prints chatter greeting (str (bytes "hi")) shown busy refl refl

publication-topic_advertisement_example :
    receive_publication_ws chatter greeting 8
      (receive_topic_advertisement_ws chatter (bytes "Other") [] 8 busy)
    ≡ receive_topic_advertisement_ws chatter (bytes "Other") [] 8 busy
unfolding find text_beq
publication-topic_advertisement_example =
    publication-topic_advertisement busy chatter [] (bytes "Other") 8 8 wanted greeting refl

second_subscriber_refused_example :
    let first = (receive_subscribe_request_ws (bytes "new") (some hello) [] 7 busy).1 in
    (listens first (bytes "new") 7 [] ≡ true)
    × (receive_subscribe_request_ws (bytes "new") (some hello) [] 8 first ≡ (ok tt, first))
unfolding find text_beq
second_subscriber_refused_example =
    second_subscriber_refused busy (bytes "new") [] [] hello hello 7 8 refl refl
