-- ===== src/Publisher/Advertising.antt =====
-- What a publisher has advertised before it publishes.
use web_socket_sh.Prelude.{
  ◌≡◌, refl, ap, ◌∙◌, true, some, inl, inr, arith, ◌==◌, ==-refl, Bool-cases, if◌then◌else◌,
}
use web_socket_sh.Text.{Text, text_eq}
use web_socket_sh.Dict.{find, find-assign}
use web_socket_sh.Dict.HashSet.{contains, insert, contains-insert}
use web_socket_sh.External.{Externals}
use web_socket_sh.Endpoint.{Endpoint, TopicPublishInfo, ok}
use web_socket_sh.Endpoint.Setup.{startup_advertisement, advertised_info}
use web_socket_sh.Endpoint.Tables.{tables, tables-publish}
use web_socket_sh.Endpoint.Traffic.{publish}
use web_socket_sh.Publisher.{Advertisement, MetaTopicPublisher, advertise_new, publish_meta}

module _ ⦃x : Externals⦄ where
  open x use {DynamicType, DynamicData, Node, type_name, compute_string}

  -- Every topic that the publisher took for advertised can be published on.
  pub record IsAdvertised (p : MetaTopicPublisher) (e : Endpoint) : Type 0 where
    pub entry :
        (topic : Text)
        → contains topic p.advertised_topics ≡ true
        → (info : TopicPublishInfo) × (find topic e.topic_publish_info ≡ some info)

  -- A runtime advertisement sends messages, and leaves the tables alone.
  abbrev pub OnlySends : Advertisement → Type 0
  OnlySends advertisement =
      (topic : Text) (type : DynamicType) (id : Text) (node : Node) (e : Endpoint)
      → tables (advertisement topic type id node e) ≡ tables e

  find-advertise_new :
      (advertisement : Advertisement) (topic t : Text) (p : MetaTopicPublisher) (e : Endpoint)
      → OnlySends advertisement
      → find t (advertise_new advertisement topic p e).topic_publish_info ≡ (
          if topic == t
          then some (advertised_info (type_name p.message_type) (find topic e.topic_publish_info))
          else find t e.topic_publish_info)
  unfolding advertise_new startup_advertisement
  find-advertise_new advertisement topic t p e only =
      ap (λ k. find t k.published) (only topic p.message_type p.id p.config _)
      ∙ find-assign topic t _ e.topic_publish_info

  -- A new advertisement adds its topic to those that can be published on.
  entry-advertise_new :
      (advertisement : Advertisement) (topic t : Text) (p : MetaTopicPublisher) (e : Endpoint)
      → OnlySends advertisement
      → IsAdvertised p e
      → contains t (insert topic p.advertised_topics) ≡ true
      → (info : TopicPublishInfo) × (find t
            (advertise_new advertisement topic p e).topic_publish_info
          ≡ some info)
  entry-advertise_new advertisement topic t p e only h k = elim (Bool-cases (topic == t)) [
    | inl same ↦ (
      advertised_info (type_name p.message_type) (find topic e.topic_publish_info),
      find-advertise_new advertisement topic t p e only ∙ rw same,
    )
    | inr other ↦
        let old : contains t p.advertised_topics ≡ true =
          ground (arith, contains-insert topic t p.advertised_topics, other, k) in
        let (info, q) = h.entry t old in
        (info, find-advertise_new advertisement topic t p e only ∙ rw other q)
  ]

  publish-ok :
      (topic : Text) (message : DynamicData) (info : TopicPublishInfo) (e : Endpoint)
      → find topic e.topic_publish_info ≡ some info
      → (publish topic message e).0 ≡ ok true
  unfolding publish
  publish-ok topic message info e p = rw (p, publish) refl

  find-publish :
      (topic t : Text) (message : DynamicData) (e : Endpoint)
      → find t (publish topic message e).1.topic_publish_info ≡ find t e.topic_publish_info
  find-publish topic t message e = ap (λ k. find t k.published) (tables-publish topic message e)

  advertised_before :
      (advertisement : Advertisement) (topic : Text) (message : DynamicData)
      (p : MetaTopicPublisher) (e : Endpoint)
      → compute_string p.string_template message ≡ topic
      → contains topic p.advertised_topics ≡ true
      → publish_meta advertisement message p e
        ≡ ((publish topic message e).0, (p, (publish topic message e).1))
  unfolding publish_meta
  advertised_before advertisement topic message p e same known = rw (same, known, publish_meta)

  -- A publisher of a topic template whose advertised topics all have an entry publishes without an
  -- exception, and its advertised topics have an entry afterwards; the advertisement at run time
  -- leaves the tables of the endpoint alone.
  pub publish_meta-IsAdvertised :
      (advertisement : Advertisement) (message : DynamicData) (p : MetaTopicPublisher)
      (e : Endpoint)
      → OnlySends advertisement
      → IsAdvertised p e
      → let (result, (q, after)) = publish_meta advertisement message p e in
        (result ≡ ok true) × IsAdvertised q after
  unfolding publish_meta
  publish_meta-IsAdvertised advertisement message p e only h =
      let topic = compute_string p.string_template message in
      elim (Bool-cases (contains topic p.advertised_topics)) [
        | inl known ↦
            let (info, q) = h.entry topic known in
            rw (known, publish_meta)
              (
                publish-ok topic message info e q,
                record { entry = λ t k. rw (find-publish topic t message e) (h.entry t k) },
              )
        | inr new ↦
            let f = advertise_new advertisement topic p e in
            let (info, found) =
              entry-advertise_new advertisement topic topic p e only h
                (contains-insert topic topic p.advertised_topics ∙ rw (==-refl topic)) in
            rw (new, publish_meta)
              (
                publish-ok topic message info f found,
                record {
                  entry = λ t k.
                      rw (find-publish topic t message f)
                        (entry-advertise_new advertisement topic t p e only h k);
                },
              )
      ]

  remembers :
      (advertisement : Advertisement) (message : DynamicData) (p : MetaTopicPublisher)
      (e : Endpoint)
      → let q = (publish_meta advertisement message p e).1.0 in
        (q.string_template ≡ p.string_template)
        × (contains (compute_string p.string_template message) q.advertised_topics ≡ true)
  unfolding publish_meta
  remembers advertisement message p e =
      let topic = compute_string p.string_template message in
      elim (Bool-cases (contains topic p.advertised_topics)) [
        | inl known ↦ rw (known, publish_meta) (refl, known)
        | inr new ↦
            rw (new, publish_meta)
              (refl, contains-insert topic topic p.advertised_topics ∙ rw (==-refl topic))
      ]

  -- A publisher of a topic template that gives the same topic for a second message does not
  -- advertise it again: it only publishes.
  pub publish_meta_again :
      (advertisement : Advertisement) (message next : DynamicData) (p : MetaTopicPublisher)
      (e : Endpoint)
      → compute_string p.string_template next ≡ compute_string p.string_template message
      → let (result, (q, after)) = publish_meta advertisement message p e in
        let topic = compute_string p.string_template message in
        publish_meta advertisement next q after
        ≡ ((publish topic next after).0, (q, (publish topic next after).1))
  publish_meta_again advertisement message next p e same =
      let (result, (q, after)) = publish_meta advertisement message p e in
      let (template, known) = remembers advertisement message p e in
      advertised_before advertisement (compute_string p.string_template message) next q after
        (ap (λ t. compute_string t next) template ∙ same) known
