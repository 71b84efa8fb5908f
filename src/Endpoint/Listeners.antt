-- ===== src/Endpoint/Listeners.antt =====
-- Who listens to which topic, as an abstract set of (topic, connection, id), and what the requests
-- do to that set.
use web_socket_sh.Prelude.{
  ◌≡◌, refl, Bool, true, false, ◌&&◌, ◌||◌, Option, none, some, inl, inr, [], ◌∷◌, arith, ◌==◌,
  nat_eq, nat_beq_iff, if◌then◌else◌, Option-cases, Bool-cases,
}
use web_socket_sh.Text.{Text, is_empty, text_beq_iff, text_eq}
use web_socket_sh.Dict.{find, find-assign, find-erase, erase}
use web_socket_sh.Dict.HashSet.{HashSet, contains, insert, remove, contains-insert, contains-remove}
use web_socket_sh.External.{Externals}
use web_socket_sh.Endpoint.{Endpoint, Connection, TopicPublishInfo}
use web_socket_sh.Endpoint.Receive.{
  listener_ids, add_listener, keep_ids, drop_listener, receive_subscribe_request_ws,
  receive_unsubscribe_request_ws,
}

-- `TopicPublishInfo{}`
abbrev pub unadvertised : TopicPublishInfo
unadvertised = record { type = []; listeners = [] }

abbrev pub holds_id : Text → Option (HashSet Text) → Bool
holds_id id none = false
holds_id id (some ids) = contains id ids

abbrev pub holds_listener : Connection → Text → Option TopicPublishInfo → Bool
holds_listener connection id none = false
holds_listener connection id (some info) = holds_id id (find connection info.listeners)

holds-listener_ids :
    (i : Text) (o : Option (HashSet Text)) → contains i (listener_ids o) ≡ holds_id i o
unfolding listener_ids contains
holds-listener_ids i none = refl
holds-listener_ids i (some ids) = refl

holds-unadvertised : (d : Connection) (i : Text) → holds_listener d i (some unadvertised) ≡ false
unfolding find
holds-unadvertised d i = refl

holds-add_listener :
    (c d : Connection) (id i : Text) (info : TopicPublishInfo)
    → holds_listener d i (some (add_listener c id info))
      ≡ (if c == d && id == i then true else holds_listener d i (some info))
unfolding add_listener
holds-add_listener c d id i info =
    let ids = listener_ids (find c info.listeners) in
    ground (
      arith,
      find-assign c d (insert id ids) info.listeners,
      contains-insert id i ids,
      holds-listener_ids i (find c info.listeners),
      nat_beq_iff c d,
    )

holds-erase :
    (c d : Connection) (i : Text) (info : TopicPublishInfo)
    → holds_id i (find d (erase c info.listeners))
      ≡ (if c == d then false else holds_listener d i (some info))
holds-erase c d i info = ground (arith, find-erase c d info.listeners)

holds-keep_ids :
    (c d : Connection) (i : Text) (ids : HashSet Text) (info : TopicPublishInfo)
    → holds_listener d i (some (keep_ids c ids info))
      ≡ (if c == d then contains i ids else holds_listener d i (some info))
unfolding keep_ids contains
holds-keep_ids c d i [] info = holds-erase c d i info
holds-keep_ids c d i (id ∷ ids) info = ground (arith, find-assign c d (id ∷ ids) info.listeners)

holds-drop_listener :
    (c d : Connection) (id i : Text) (info : TopicPublishInfo)
    → holds_listener d i (some (drop_listener c id info))
      ≡ (if c == d && (is_empty id || id == i) then false else holds_listener d i (some info))
unfolding drop_listener
holds-drop_listener c d id i info = elim (Option-cases (find c info.listeners)) [
  | inl p ↦ rw (p, drop_listener) (ground (arith, p, nat_beq_iff c d))
  | inr (ids, p) ↦
      rw (p, drop_listener)
        (elim (Bool-cases (is_empty id)) [
          | inl q ↦ rw q (ground (arith, holds-erase c d i info))
          | inr q ↦ rw q (
              ground (
                arith,
                p,
                holds-keep_ids c d i (remove id ids) info,
                contains-remove id i ids,
                nat_beq_iff c d,
              ))
        ])
]

module _ ⦃x : Externals⦄ where
  open x use {DynamicType, type_name}

  -- The abstract view.
  unfoldable pub listens : Endpoint → Text → Connection → Text → Bool
  listens e topic connection id = holds_listener connection id (find topic e.topic_publish_info)

  -- A request for a topic that is advertised with another type is refused.
  abbrev pub accepts : Option TopicPublishInfo → DynamicType → Bool
  accepts none type = true
  accepts (some info) type = type_name type == info.type

  -- After a typed subscription request the connection listens to the topic under its id if the
  -- topic had no entry or one of the same type; nobody else is affected.
  pub listens-subscribe_request :
      (e : Endpoint) (topic t : Text) (type : DynamicType) (id i : Text) (c d : Connection)
      → listens (receive_subscribe_request_ws topic (some type) id c e).1 t d i ≡ (
          if accepts (find topic e.topic_publish_info) type && (topic == t && (c == d && id == i))
          then true
          else listens e t d i)
  unfolding listens receive_subscribe_request_ws
  listens-subscribe_request e topic t type id i c d =
      elim (Option-cases (find topic e.topic_publish_info)) [
        | inl p ↦
            rw (p, receive_subscribe_request_ws)
              (ground (
                arith,
                p,
                text_beq_iff topic t,
                find-assign topic t (add_listener c id unadvertised) e.topic_publish_info,
                holds-add_listener c d id i unadvertised,
                holds-unadvertised d i,
              ))
        | inr (info, p) ↦
            rw (p, receive_subscribe_request_ws)
              (ground (
                arith,
                p,
                text_beq_iff topic t,
                find-assign topic t (add_listener c id info) e.topic_publish_info,
                holds-add_listener c d id i info,
              ))
      ]

  -- After an unsubscription the connection listens no more under that id, or under no id at all if
  -- the given id is empty; nobody else is affected.
  pub listens-unsubscribe_request :
      (e : Endpoint) (topic t id i : Text) (c d : Connection)
      → listens (receive_unsubscribe_request_ws topic id c e) t d i
        ≡ (if topic == t && (c == d && (is_empty id || id == i)) then false else listens e t d i)
  unfolding listens receive_unsubscribe_request_ws
  listens-unsubscribe_request e topic t id i c d =
      elim (Option-cases (find topic e.topic_publish_info)) [
        | inl p ↦ rw (p, receive_unsubscribe_request_ws) (ground (arith, p, text_beq_iff topic t))
        | inr (info, p) ↦
            rw (p, receive_unsubscribe_request_ws)
              (ground (
                arith,
                p,
                text_beq_iff topic t,
                find-assign topic t (drop_listener c id info) e.topic_publish_info,
                holds-drop_listener c d id i info,
              ))
      ]
