-- ===== src/Interpret/Delivered.antt =====
-- A topic from end to end: what one endpoint publishes, the callback of a subscriber at the other end
-- of a connection gets.
use web_socket_sh.Prelude.{
  ◌≡◌, refl, ap, sym, ◌∙◌, true, false, some, inl, inr, List, [], ◌∷◌, ◌++◌, map, arith, Eq, ◌==◌,
  Option-cases, Bool-cases, nat_eq,
}
use web_socket_sh.Text.{Text, text_eq}
use web_socket_sh.Dict.{Dict, find, keys}
use web_socket_sh.Dict.HashSet.{HashSet}
use web_socket_sh.Json.{Json, obj}
use web_socket_sh.External.{Externals, converted, PrintsJson, IsPlain}
use web_socket_sh.Encoding.{get_type, encode_publication_msg}
use web_socket_sh.Encoding.Message.{publication_msg}
use web_socket_sh.Endpoint.{
  Endpoint, Connection, TopicSubscribeInfo, TopicPublishInfo, Event, ok, sent, delivered,
}
use web_socket_sh.Endpoint.Sending.{transport}
use web_socket_sh.Endpoint.Traffic.{publish}
use web_socket_sh.Endpoint.Receive.{receive_publication_ws}
use web_socket_sh.Endpoint.Listeners.{listens}
use web_socket_sh.Endpoint.Delivery.{ignores, events-publish, receive_publication_lem}
use web_socket_sh.Interpret.{interpret_websocket_msg}
use web_socket_sh.Interpret.Dispatching.{ParsesBack}
use web_socket_sh.Interpret.Topics.{interpret-publication}

-- A key that is found stands among the keys.
split_keys {ℓ κ} :
    {K : Type ℓ} {V : Type κ} ⦃e : Eq K⦄ (k : K) (v : V) (m : Dict K V)
    → find k m ≡ some v
    → (before : List K) × ((after : List K) × (keys m ≡ before ++ k ∷ after))
unfolding find
split_keys k v [] p = absurd (ground (arith, p))
split_keys ⦃e⦄ k v ((j, w) ∷ m) p = elim (Bool-cases (j == k)) [
  | inl q ↦ ([], (keys m, ap (λ i. i ∷ keys m) ((e.beq_iff j k).0 q)))
  | inr q ↦
      let (before, (after, r)) = split_keys k v m (ground (arith, p, q)) in
      (j ∷ before, (after, ap (λ l. j ∷ l) r))
]

map_split {ℓ κ} :
    {A : Type ℓ} {B : Type κ} (f : A → B) (before : List A) (a : A) (after : List A)
    → map f (before ++ a ∷ after) ≡ map f before ++ f a ∷ map f after
map_split f [] a after = refl
map_split f (b ∷ before) a after = ap (λ l. f b ∷ l) (map_split f before a after)

module _ ⦃x : Externals⦄ where
  open x use {DynamicType, DynamicData, to_json, to_data, dump}

  -- A connection that listens stands among the listeners of the topic.
  listener_entry :
      (e : Endpoint) (topic : Text) (c : Connection) (id : Text)
      → listens e topic c id ≡ true
      → (info : TopicPublishInfo) × ((find topic e.topic_publish_info ≡ some info)
          × ((ids : HashSet Text) × (find c info.listeners ≡ some ids)))
  unfolding listens
  listener_entry e topic c id h = elim (Option-cases (find topic e.topic_publish_info)) [
    | inl p ↦ absurd (ground (arith, p, h))
    | inr (info, p) ↦ elim (Option-cases (find c info.listeners)) [
      | inl q ↦ absurd (ground (arith, p, q, h))
      | inr (ids, q) ↦ (info, (p, (ids, q)))
    ]
  ]

  -- The message that a listener is sent.
  publication_sent :
      (json : PrintsJson x) (topic id : Text) (message : DynamicData) (v : Json) (c : Connection)
      (e : Endpoint)
      → listens e topic c id ≡ true
      → to_json message ≡ converted v
      → (before : List Event) × ((after : List Event) × ((publish topic message e).1.events
            ≡ e.events
              ++ (before
                  ++ sent (transport e) c (dump (obj (publication_msg topic [] v))) ∷ after)))
  publication_sent json topic id message v c e h p =
      let (info, (found, (ids, listener))) = listener_entry e topic c id h in
      let (before, (after, split)) = split_keys c ids info.listeners listener in
      let to = λ (k : Connection). sent (transport e) k (dump (obj (publication_msg topic [] v))) in
      (
        map to before,
        (
          map to after,
          (events-publish json topic message v info e found p).1
              ∙ ap (λ l. e.events ++ map to l) split
              ∙ ap (λ l. e.events ++ l) (map_split to before c after),
        ),
      )

  -- The callback of a subscriber that does not ignore the connection.
  publication_delivered :
      (f : Endpoint) (topic : Text) (d : Connection) (sub : TopicSubscribeInfo)
      (message : DynamicData)
      → find topic f.topic_subscribe_info ≡ some sub
      → ignores f topic d ≡ false
      → (receive_publication_ws topic message d f).events
        ≡ f.events ++ delivered sub.callback message ∷ []
  publication_delivered f topic d sub message p q =
      ap (λ g. g.events) (receive_publication_lem f topic d sub message p) ∙ rw q

  -- When an endpoint publishes a message, a connection that listens to the topic is sent a text
  -- among the messages of that publication, and at the other end that text calls the callback of
  -- the subscriber with the value that it makes of the JSON by its own type for the topic; the
  -- topic has nothing to escape, the parser reads back the printed message, the conversions
  -- succeed, the subscriber knows the type and does not ignore the connection.
  pub publish-delivered :
      (json : PrintsJson x) (topic id name : Text) (message received : DynamicData) (v : Json)
      (type : DynamicType) (sub : TopicSubscribeInfo) (c d : Connection) (e f : Endpoint)
      → IsPlain topic
      → listens e topic c id ≡ true
      → to_json message ≡ converted v
      → ParsesBack (obj (publication_msg topic [] v))
      → find topic f.encoding.types_by_topic ≡ some name
      → get_type name f.encoding ≡ some type
      → to_data type v ≡ converted received
      → find topic f.topic_subscribe_info ≡ some sub
      → ignores f topic d ≡ false
      → (text : Text) × (before : List Event) × (after : List Event) × ((publish topic message
            e).1.events
          ≡ e.events ++ (before ++ sent (transport e) c text ∷ after))
        × ((interpret_websocket_msg text d f).1.events
            ≡ f.events ++ delivered sub.callback received ∷ [])
  unfolding encode_publication_msg
  publish-delivered json topic id name message received v type sub c d e f plain listening encoded
        back known typed decoded found trusted =
      let (before, (after, p)) = publication_sent json topic id message v c e listening encoded in
      let text = dump (obj (publication_msg topic [] v)) in
      let written : (encode_publication_msg topic [] [] message f.encoding).0 ≡ text =
        rw (encoded, encode_publication_msg) in
      let understood : interpret_websocket_msg text d f
          ≡ (ok tt, receive_publication_ws topic received d f) =
        ap (λ t. interpret_websocket_msg t d f) (sym written)
        ∙ interpret-publication json topic [] [] name message received v type f.encoding d f plain
            encoded back known typed decoded in
      (
        text,
        before,
        after,
        p,
        ap (λ r. r.1.events) understood
            ∙ publication_delivered f topic d sub received found trusted,
      )
