-- ===== src/Interpret/Subscribed.antt =====
-- A topic from the subscription of one endpoint to the publication of another: the core subscribes,
-- the connection opens, the subscription arrives, the other core publishes, and the callback is called.
use web_socket_sh.Prelude.{
  ℕ, ◌≡◌, refl, ap, sym, ◌∙◌, true, false, Option, none, some, List, [], ◌∷◌, ◌++◌, map, ==-refl,
  nat_eq,
}
use mathlib.Core.List.{append-nil, append_assoc}
use web_socket_sh.Text.{Text, is_empty, text_beq, text_eq}
use web_socket_sh.Dict.{Dict, find, assign, find-assign}
use web_socket_sh.Dict.HashSet.{contains}
use web_socket_sh.Names.{transform_type}
use web_socket_sh.Json.{Json, obj}
use web_socket_sh.External.{Externals, converted, PrintsJson, IsPlain}
use web_socket_sh.Encoding.{JsonEncoding, get_type, add_type, encode_subscribe_msg}
use web_socket_sh.Encoding.Message.{publication_msg, subscribe_msg}
use web_socket_sh.Encoding.Registry.{first_of_name, get_type-transform_type, get_type-add_type}
use web_socket_sh.Endpoint.{Endpoint, Connection, TopicSubscribeInfo, Event, sent, delivered, emit}
use web_socket_sh.Endpoint.Sending.{transport, send_lem}
use web_socket_sh.Endpoint.Setup.{subscribe_info, subscribe}
use web_socket_sh.Endpoint.Traffic.{publish}
use web_socket_sh.Endpoint.Lifetime.{send_all, notify_connection_opened}
use web_socket_sh.Endpoint.Listeners.{listens, accepts, listens-subscribe_request}
use web_socket_sh.Endpoint.Delivery.{distrusts, ignores}
use web_socket_sh.Interpret.{interpret_websocket_msg}
use web_socket_sh.Interpret.Dispatching.{ParsesBack}
use web_socket_sh.Interpret.Topics.{subscribed, interpret-subscribe}
use web_socket_sh.Interpret.Delivered.{publish-delivered}

pub find-assign_self {ℓ} :
    {V : Type ℓ} (k : Text) (v : V) (m : Dict Text V) → find k (assign k v m) ≡ some v
find-assign_self k v m = find-assign k k v m ∙ rw (==-refl k) refl

module _ ⦃x : Externals⦄ where
  open x use {DynamicType, DynamicData, Node, to_json, to_data, dump, type_name}

  -- An opened connection is sent messages, and nothing else changes.
  send_all_lem :
      (msgs : List Text) (c : Connection) (e : Endpoint)
      → send_all msgs c e ≡ record e { events = e.events ++ map (sent (transport e) c) msgs }
  unfolding send_all
  send_all_lem [] c e =
      ap (λ l. let f : Endpoint = record e { events = l } in f) (sym (append-nil e.events))
  send_all_lem (msg ∷ msgs) c e =
      ap (send_all msgs c) (send_lem c msg e)
      ∙ send_all_lem msgs c (emit (sent (transport e) c msg) e)
      ∙ ap (λ l. let f : Endpoint = record e { events = l } in f)
          (append_assoc e.events (sent (transport e) c msg ∷ []) (map (sent (transport e) c) msgs))

  pub notify_connection_opened_lem :
      (c : Connection) (e : Endpoint)
      → notify_connection_opened c e
        ≡ record e { events = e.events ++ map (sent (transport e) c) e.startup_messages }
  unfolding notify_connection_opened
  notify_connection_opened_lem c e = send_all_lem e.startup_messages c e

  get_type-with_topics :
      (name : Text) (topics : Dict Text Text) (e : JsonEncoding)
      → get_type name (record e { types_by_topic = topics }) ≡ get_type name e
  unfolding get_type
  get_type-with_topics name topics e = refl

  -- The type that a name finds after a type was added under it.
  pub get_type-add_type_self :
      (type : DynamicType) (name : Text) (e : JsonEncoding)
      → is_empty name ≡ false
      → get_type name (add_type type name e).1 ≡ some (first_of_name (get_type name e) type)
  get_type-add_type_self type name e named =
      get_type-add_type type name name e named ∙ rw (named, ==-refl (transform_type name)) refl

  callback-subscribe_info :
      (name : Text) (callback : ℕ) (o : Option TopicSubscribeInfo)
      → (subscribe_info name callback o).callback ≡ callback
  unfolding subscribe_info
  callback-subscribe_info name callback none = refl
  callback-subscribe_info name callback (some info) = refl

  -- A subscription forgives and accuses nobody.
  distrusts-subscribe_info :
      (name : Text) (callback : ℕ) (o : Option TopicSubscribeInfo) (d : Connection)
      → distrusts (some (subscribe_info name callback o)) d ≡ distrusts o d
  unfolding subscribe_info contains
  distrusts-subscribe_info name callback none d = refl
  distrusts-subscribe_info name callback (some info) d = refl

  -- The text of a subscription.
  abbrev pub subscription : Text → DynamicType → Json
  subscription topic type = obj (subscribe_msg topic (transform_type (type_name type)) [])

  -- What a subscription leaves.
  subscribe_lem :
      (topic : Text) (type : DynamicType) (callback : ℕ) (node : Node) (f : Endpoint)
      → is_empty (type_name type) ≡ false
      → let after = (subscribe topic type callback node f).1 in
        (after.startup_messages ≡ f.startup_messages ++ dump (subscription topic type) ∷ [])
        × (find topic after.encoding.types_by_topic ≡ some (transform_type (type_name type)))
        × (get_type (transform_type (type_name type)) after.encoding
            ≡ some (first_of_name (get_type (type_name type) f.encoding) type))
        × (find topic after.topic_subscribe_info
            ≡ some (subscribe_info (type_name type) callback (find topic f.topic_subscribe_info)))
  unfolding subscribe encode_subscribe_msg
  subscribe_lem topic type callback node f named =
      let name = type_name type in
      let known = (add_type type name f.encoding).1 in
      let topics = assign topic (transform_type name) known.types_by_topic in
      (
        refl,
        find-assign_self topic (transform_type name) known.types_by_topic,
        get_type-transform_type name (record known { types_by_topic = topics })
            ∙ get_type-with_topics name topics known
            ∙ get_type-add_type_self type name f.encoding named,
        find-assign_self topic (subscribe_info name callback (find topic f.topic_subscribe_info))
            f.topic_subscribe_info,
      )

  -- The text of a subscription, at an endpoint that knows the type and accepts it for the topic.
  subscription_understood :
      (json : PrintsJson x) (topic : Text) (type known : DynamicType) (node : Node) (c : Connection)
      (e : Endpoint)
      → IsPlain topic
      → IsPlain (transform_type (type_name type))
      → ParsesBack (subscription topic type)
      → get_type (type_name type) e.encoding ≡ some known
      → accepts (find topic e.topic_publish_info) known ≡ true
      → listens (interpret_websocket_msg (dump (subscription topic type)) c e).1 topic c [] ≡ true
  unfolding encode_subscribe_msg text_beq
  subscription_understood json topic type known node c e plain plain_type back typed accepted =
      let understood =
        interpret-subscribe json topic (type_name type) [] node e.encoding c e plain plain_type tt
          back in
      ap (λ r. listens r.1 topic c []) (understood ∙ ap (subscribed topic [] c e) typed)
      ∙ listens-subscribe_request e topic topic known [] [] c c
      ∙ rw (accepted, ==-refl topic, ==-refl c) refl

  -- When the core of an endpoint subscribes to a topic and a connection opens then, the
  -- subscription is the last of the messages that the connection is sent; at the other end, which
  -- knows the type and has no other one for the topic, it makes the connection a listener, so that
  -- a message that is published there is sent to it; and that text calls the callback back at the
  -- subscriber, with the value that it makes of the JSON by the type that it knows by that name.
  -- The topic and the name of the type have nothing to escape, the parser reads back the two
  -- printed messages, the conversions succeed and the connection was not ignored on the topic.
  pub subscribed-delivered :
      (json : PrintsJson x) (topic : Text) (type known : DynamicType) (callback : ℕ) (node : Node)
      (message received : DynamicData) (v : Json) (c d : Connection) (e f : Endpoint)
      → IsPlain topic
      → IsPlain (transform_type (type_name type))
      → is_empty (type_name type) ≡ false
      → ParsesBack (subscription topic type)
      → get_type (type_name type) e.encoding ≡ some known
      → accepts (find topic e.topic_publish_info) known ≡ true
      → to_json message ≡ converted v
      → ParsesBack (obj (publication_msg topic [] v))
      → to_data (first_of_name (get_type (type_name type) f.encoding) type) v ≡ converted received
      → ignores f topic d ≡ false
      → let subscriber = notify_connection_opened d (subscribe topic type callback node f).1 in
        let text = dump (subscription topic type) in
        let publisher = (interpret_websocket_msg text c e).1 in
        (subscriber.events
          ≡ f.events ++ map (sent (transport f) d) (f.startup_messages ++ text ∷ []))
        × ((publication : Text) × (before : List Event) × (after : List Event) × ((publish topic
                message publisher).1.events
              ≡ publisher.events ++ (before ++ sent (transport publisher) c publication ∷ after))
            × ((interpret_websocket_msg publication d subscriber).1.events
                ≡ subscriber.events ++ delivered callback received ∷ []))
  unfolding ignores subscribe
  subscribed-delivered json topic type known callback node message received v c d e f plain
        plain_type named back typed accepted encoded back' decoded trusted =
      let name = type_name type in
      let before = find topic f.topic_subscribe_info in
      let g = (subscribe topic type callback node f).1 in
      let opened = notify_connection_opened_lem d g in
      let (started, topic_known, name_known, entry) =
        subscribe_lem topic type callback node f named in
      let info = subscribe_info name callback before in
      let found = ap (λ h. find topic h.topic_subscribe_info) opened ∙ entry in
      let listening =
        subscription_understood json topic type known node c e plain plain_type back typed
          accepted in
      let (publication, earlier, later, sent_there, called) =
        publish-delivered json topic [] (transform_type name) message received v
          (first_of_name (get_type name f.encoding) type) info c d
          (interpret_websocket_msg (dump (subscription topic type)) c e).1
          (notify_connection_opened d g) plain listening encoded back'
          (ap (λ h. find topic h.encoding.types_by_topic) opened ∙ topic_known)
          (ap (λ h. get_type (transform_type name) h.encoding) opened ∙ name_known) decoded found
          (ap (λ o. distrusts o d) found
            ∙ distrusts-subscribe_info name callback before d
            ∙ trusted) in
      (
        ap (λ h. h.events) opened ∙ ap (λ l. f.events ++ map (sent (transport f) d) l) started,
        (
          publication,
          earlier,
          later,
          sent_there,
          called
              ∙ ap (λ k. (notify_connection_opened d g).events ++ delivered k received ∷ [])
                  (callback-subscribe_info name callback before),
        ),
      )
