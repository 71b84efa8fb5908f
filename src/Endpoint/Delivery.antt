-- ===== src/Endpoint/Delivery.antt =====
-- From a publication to the callbacks: who is sent a message that is published, and which incoming
-- publications reach a subscriber.
use web_socket_sh.Prelude.{
  ◌≡◌, refl, ◌∙◌, Bool, true, false, not, ◌&&◌, Option, none, some, inl, inr, ◌⊎◌, [], ◌∷◌, ◌++◌,
  map, arith, ◌==◌, ==-refl, nat_eq, if◌then◌else◌, Option-cases, Bool-cases,
}
use mathlib.Core.List.{append_assoc, append-nil}
use web_socket_sh.Text.{Text, text_beq_iff, text_eq}
use web_socket_sh.Dict.{Dict, find, find-assign, keys}
use web_socket_sh.Dict.HashSet.{HashSet, contains, contains-insert, contains-remove}
use web_socket_sh.Json.{Json, obj}
use web_socket_sh.External.{Externals, converted, unsupported_type, json_exception, PrintsJson}
use web_socket_sh.Encoding.Message.{publication_msg}
use web_socket_sh.Encoding.{encode_publication_msg}
use web_socket_sh.Endpoint.{
  Endpoint, Connection, TopicSubscribeInfo, TopicPublishInfo, sent, delivered, emit, Outcome, ok,
  throws, out_of_range,
}
use web_socket_sh.Endpoint.Sending.{transport, send_lem}
use web_socket_sh.Endpoint.Traffic.{send_payload, publish_to, publish_loop, publish}
use web_socket_sh.Endpoint.Receive.{
  judge_advertiser, receive_topic_advertisement_ws, receive_publication_ws,
}

-- Whether the publications of a connection on a topic are ignored.
abbrev pub distrusts : Option TopicSubscribeInfo → Connection → Bool
distrusts none c = false
distrusts (some info) c = contains c info.blacklist

pub distrusts-judge_advertiser :
    (type : Text) (c d : Connection) (info : TopicSubscribeInfo)
    → distrusts (some (judge_advertiser type c info)) d
      ≡ (if c == d then not (type == info.type) else distrusts (some info) d)
unfolding judge_advertiser
distrusts-judge_advertiser type c d info = elim (Bool-cases (type == info.type)) [
  | inl p ↦ rw p (contains-remove c d info.blacklist)
  | inr p ↦ rw p (contains-insert c d info.blacklist)
]

callback-judge_advertiser :
    (type : Text) (c : Connection) (info : TopicSubscribeInfo)
    → (judge_advertiser type c info).callback ≡ info.callback
unfolding judge_advertiser
callback-judge_advertiser type c info = ground arith

module _ ⦃x : Externals⦄ where
  open x use {DynamicType, DynamicData, type_name, to_json, dump}

  unfoldable pub ignores : Endpoint → Text → Connection → Bool
  ignores e topic c = distrusts (find topic e.topic_subscribe_info) c

  pub ignores-topic_advertisement :
      (e : Endpoint) (topic t id : Text) (type : DynamicType) (c d : Connection)
      (info : TopicSubscribeInfo)
      → find topic e.topic_subscribe_info ≡ some info
      → ignores (receive_topic_advertisement_ws topic type id c e) t d
        ≡ (if topic == t && c == d then not (type_name type == info.type) else ignores e t d)
  unfolding ignores receive_topic_advertisement_ws
  ignores-topic_advertisement e topic t id type c d info p =
      rw (p, receive_topic_advertisement_ws)
        (ground (
          arith,
          p,
          text_beq_iff topic t,
          find-assign topic t (judge_advertiser (type_name type) c info) e.topic_subscribe_info,
          distrusts-judge_advertiser (type_name type) c d info,
        ))

  -- What is sent when a message is published to one listener.
  publish_to_lem :
      (json : PrintsJson x) (topic type : Text) (message : DynamicData) (v : Json) (c : Connection)
      (e : Endpoint)
      → to_json message ≡ converted v
      → publish_to topic type message c e
        ≡ emit
            (sent (transport e) c (dump (obj (publication_msg topic [] v))))
            (record e { encoding = (encode_publication_msg topic type [] message e.encoding).1 })
  unfolding publish_to send_payload encode_publication_msg
  publish_to_lem json topic type message v c e p =
      rw (p, json.dump-is_empty (obj (publication_msg topic [] v)), encode_publication_msg)
        (send_lem c (dump (obj (publication_msg topic [] v))) _)

  events-publish_loop :
      (json : PrintsJson x) (topic type : Text) (message : DynamicData) (v : Json)
      (listeners : Dict Connection (HashSet Text)) (e : Endpoint)
      → to_json message ≡ converted v
      → (publish_loop topic type message listeners e).events
        ≡ e.events
          ++ map
              (λ c. sent (transport e) c (dump (obj (publication_msg topic [] v))))
              (keys listeners)
  unfolding publish_loop
  events-publish_loop json topic type message v [] e p = simp append-nil
  events-publish_loop json topic type message v ((c, ids) ∷ listeners) e p =
      rw (publish_to_lem json topic type message v c e p, publish_loop)
        (events-publish_loop json topic type message v listeners _ p
          ∙ append_assoc e.events (_ ∷ []) _)

  -- Publishing on an advertised topic a message that converts to JSON succeeds, and sends the
  -- message once to each connection that listens, in the order of the listeners, and to nobody
  -- else.
  pub events-publish :
      (json : PrintsJson x) (topic : Text) (message : DynamicData) (v : Json)
      (info : TopicPublishInfo) (e : Endpoint)
      → find topic e.topic_publish_info ≡ some info
      → to_json message ≡ converted v
      → ((publish topic message e).0 ≡ ok true)
        × ((publish topic message e).1.events
            ≡ e.events
              ++ map
                  (λ c. sent (transport e) c (dump (obj (publication_msg topic [] v))))
                  (keys info.listeners))
  unfolding publish
  events-publish json topic message v info e p q =
      rw (p, publish) (refl, events-publish_loop json topic info.type message v info.listeners e q)

  abbrev pub Unconvertible : DynamicData → Type 0
  Unconvertible message = (to_json message ≡ unsupported_type) ⊎ (to_json message ≡ json_exception)

  publish_to-Unconvertible :
      (topic type : Text) (message : DynamicData) (c : Connection) (e : Endpoint)
      → Unconvertible message
      → publish_to topic type message c e ≡ e
  unfolding publish_to send_payload encode_publication_msg
  publish_to-Unconvertible topic type message c e (inl p) = rw (p, encode_publication_msg)
  publish_to-Unconvertible topic type message c e (inr p) = rw (p, encode_publication_msg)

  publish_loop-Unconvertible :
      (topic type : Text) (message : DynamicData) (listeners : Dict Connection (HashSet Text))
      (e : Endpoint)
      → Unconvertible message
      → publish_loop topic type message listeners e ≡ e
  unfolding publish_loop
  publish_loop-Unconvertible topic type message [] e h = refl
  publish_loop-Unconvertible topic type message ((c, ids) ∷ listeners) e h =
      rw (publish_to-Unconvertible topic type message c e h, publish_loop)
        (publish_loop-Unconvertible topic type message listeners e h)

  -- The result of `publish` by the topic alone.
  abbrev pub published : Option TopicPublishInfo → Outcome Bool
  published none = throws out_of_range
  published (some info) = ok true

  -- Publishing on a topic without an entry throws, and a message that does not convert to JSON is
  -- reported as published; in both cases nothing is sent and the endpoint stays as it was.
  pub publish_nothing :
      (topic : Text) (message : DynamicData) (e : Endpoint)
      → (find topic e.topic_publish_info ≡ none) ⊎ Unconvertible message
      → publish topic message e ≡ (published (find topic e.topic_publish_info), e)
  unfolding publish
  publish_nothing topic message e h = elim (Option-cases (find topic e.topic_publish_info)) [
    | inl p ↦ rw (p, publish)
    | inr (info, p) ↦ elim h [
      | inl q ↦ cc
      | inr q ↦
          rw (p, publish, publish_loop-Unconvertible topic info.type message info.listeners e q)
    ]
  ]

  pub receive_publication_lem :
      (f : Endpoint) (topic : Text) (d : Connection) (info : TopicSubscribeInfo)
      (message : DynamicData)
      → find topic f.topic_subscribe_info ≡ some info
      → receive_publication_ws topic message d f
        ≡ (if ignores f topic d then f else emit (delivered info.callback message) f)
  unfolding receive_publication_ws ignores
  receive_publication_lem f topic d info message p = rw (p, receive_publication_ws)

  find-advertised :
      (e : Endpoint) (topic id : Text) (type : DynamicType) (c : Connection)
      (info : TopicSubscribeInfo)
      → find topic e.topic_subscribe_info ≡ some info
      → find topic (receive_topic_advertisement_ws topic type id c e).topic_subscribe_info
        ≡ some (judge_advertiser (type_name type) c info)
  unfolding receive_topic_advertisement_ws
  find-advertised e topic id type c info p =
      rw (p, receive_topic_advertisement_ws)
        (find-assign topic topic (judge_advertiser (type_name type) c info) e.topic_subscribe_info
          ∙ rw (==-refl topic))

  -- After a connection has advertised a topic to which there is a subscriber, its publications are
  -- delivered if the advertised type is that of the subscriber, and change nothing otherwise;
  -- those of another connection are delivered exactly if they were before.
  pub publication-topic_advertisement :
      (e : Endpoint) (topic id : Text) (type : DynamicType) (c d : Connection)
      (info : TopicSubscribeInfo) (message : DynamicData)
      → find topic e.topic_subscribe_info ≡ some info
      → let after = receive_topic_advertisement_ws topic type id c e in
        receive_publication_ws topic message d after ≡ (
          if (if c == d then not (type_name type == info.type) else ignores e topic d)
          then after
          else emit (delivered info.callback message) after)
  publication-topic_advertisement e topic id type c d info message p = rw (
    receive_publication_lem (receive_topic_advertisement_ws topic type id c e) topic d
        (judge_advertiser (type_name type) c info) message
        (find-advertised e topic id type c info p),
    ignores-topic_advertisement e topic topic id type c d info p,
    callback-judge_advertiser (type_name type) c info,
    ==-refl topic,
  )
