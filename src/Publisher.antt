-- ===== src/Publisher.antt =====
-- The publishers of src/TopicPublisher.cpp, `Endpoint::advertise` of src/Endpoint.cpp, which makes
-- them, and the service provider of src/ServiceProvider.cpp, which only passes calls on.
pub mod Advertising
use web_socket_sh.Prelude.{ℕ, Bool, true, ◌==◌, nat_eq, [], if◌then◌else◌}
use web_socket_sh.Text.{Text, text_eq}
use web_socket_sh.Dict.HashSet.{HashSet, contains, insert}
use web_socket_sh.External.{Externals}
use web_socket_sh.Encoding.{add_type}
use web_socket_sh.Endpoint.{Endpoint, Outcome, Run}
use web_socket_sh.Endpoint.Setup.{startup_advertisement}
use web_socket_sh.Endpoint.Traffic.{publish, call_service}

module _ ⦃x : Externals⦄ where
  open x use {DynamicType, DynamicData, Node, type_name, compute_string}

  -- `runtime_advertisement`, which a client and a server implement each in its own way.
  abbrev pub Advertisement : Type 0
  Advertisement = Text → DynamicType → Text → Node → Endpoint → Endpoint

  pub record MetaTopicPublisher : Type 0 where
    pub string_template : Text
    pub message_type : DynamicType
    pub id : Text
    pub config : Node
    pub advertised_topics : HashSet Text

  -- The publisher of one topic, or of the topics that a template gives.
  pub data TopicPublisher : Type 0 where
    plain : Text → TopicPublisher
    meta : MetaTopicPublisher → TopicPublisher

  -- The part under `if (inserted)`.
  unfoldable pub advertise_new : Advertisement → Text → MetaTopicPublisher → Endpoint → Endpoint
  advertise_new runtime_advertisement topic p e =
      runtime_advertisement topic p.message_type p.id p.config
        (startup_advertisement topic p.message_type p.id p.config e)

  unfoldable pub publish_meta :
      Advertisement
      → DynamicData
      → MetaTopicPublisher
      → Endpoint
      → Outcome Bool × (MetaTopicPublisher × Endpoint)
  publish_meta runtime_advertisement message p e =
      let topic = compute_string p.string_template message in
      if contains topic p.advertised_topics
      then (let (result, after) = publish topic message e in (result, (p, after)))
      else (let (result, after) =
            publish topic message (advertise_new runtime_advertisement topic p e) in
          (result, (record p { advertised_topics = insert topic p.advertised_topics }, after)))

  -- `topic.find('{') != std::string::npos` decides between the two kinds.
  unfoldable pub make_topic_publisher :
      Text → DynamicType → Text → Node → Endpoint → TopicPublisher × Endpoint
  make_topic_publisher topic message_type id configuration e =
      if contains b'{' topic
      then (
        meta (record {
          string_template = topic;
          message_type = message_type;
          id = id;
          config = configuration;
          advertised_topics = [];
        }),
        e,
      )
      else (plain topic, startup_advertisement topic message_type id configuration e)

  unfoldable pub advertise : Text → DynamicType → Node → Endpoint → TopicPublisher × Endpoint
  advertise topic message_type configuration e =
      let (_, encoding) = add_type message_type (type_name message_type) e.encoding in
      make_topic_publisher topic message_type [] configuration (record e { encoding = encoding })

  -- The two overrides of `publish`.
  unfoldable pub publish_by :
      Advertisement
      → DynamicData
      → TopicPublisher
      → Endpoint
      → Outcome Bool × (TopicPublisher × Endpoint)
  publish_by runtime_advertisement message (plain topic) e =
      let (result, after) = publish topic message e in (result, (plain topic, after))
  publish_by runtime_advertisement message (meta p) e =
      let (result, (q, after)) = publish_meta runtime_advertisement message p e in
      (result, (meta q, after))

  pub record ServiceProvider : Type 0 where
    pub service : Text

  unfoldable pub make_service_provider : Text → ServiceProvider
  make_service_provider service = record { service = service }

  -- `ServiceProvider::call_service`
  unfoldable pub call_by : DynamicData → ℕ → ℕ → ServiceProvider → Endpoint → Run (Unit {0})
  call_by request client call_handle p e = call_service p.service request client call_handle e
