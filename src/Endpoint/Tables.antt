-- ===== src/Endpoint/Tables.antt =====
-- The tables of an endpoint, which publishing and answering leave as they are.
use web_socket_sh.Prelude.{ℕ, ◌≡◌, refl, ◌∙◌, ap, inl, inr, List, [], ◌∷◌, Option-cases, Bool-cases}
use web_socket_sh.Text.{Text, is_empty, text_eq}
use web_socket_sh.Dict.{Dict, find}
use web_socket_sh.Dict.HashSet.{HashSet}
use web_socket_sh.External.{Externals}
use web_socket_sh.Encoding.{encode_publication_msg}
use web_socket_sh.Endpoint.{
  Endpoint, Connection, TopicSubscribeInfo, TopicPublishInfo, ClientProxyInfo, ServiceProviderInfo,
  ServiceRequestInfo,
}
use web_socket_sh.Endpoint.Sending.{send_lem}
use web_socket_sh.Endpoint.Traffic.{send_payload, publish_to, publish_loop, publish}

module _ ⦃x : Externals⦄ where
  open x use {DynamicData}

  pub record Tables : Type 0 where
    pub subscribed : Dict Text TopicSubscribeInfo
    pub published : Dict Text TopicPublishInfo
    pub proxies : Dict Text ClientProxyInfo
    pub providers : Dict Text ServiceProviderInfo
    pub requests : Dict Text ServiceRequestInfo
    pub next_id : ℕ
    pub startup : List Text

  abbrev pub tables : Endpoint → Tables
  tables e = record {
    subscribed = e.topic_subscribe_info;
    published = e.topic_publish_info;
    proxies = e.client_proxy_info;
    providers = e.service_provider_info;
    requests = e.service_request_info;
    next_id = e.next_service_call_id;
    startup = e.startup_messages;
  }

  pub tables-send_payload :
      (c : Connection) (payload : Text) (e : Endpoint)
      → tables (send_payload c payload e) ≡ tables e
  unfolding send_payload
  tables-send_payload c payload e = elim (Bool-cases (is_empty payload)) [
    | inl p ↦ rw (p, send_payload)
    | inr p ↦ rw (p, send_payload) (ap tables (send_lem c payload e))
  ]

  tables-publish_loop :
      (topic type : Text) (message : DynamicData) (listeners : Dict Connection (HashSet Text))
      (e : Endpoint)
      → tables (publish_loop topic type message listeners e) ≡ tables e
  unfolding publish_loop publish_to
  tables-publish_loop topic type message [] e = refl
  tables-publish_loop topic type message ((c, ids) ∷ listeners) e =
      let (payload, encoding) = encode_publication_msg topic type [] message e.encoding in
      tables-publish_loop topic type message listeners (publish_to topic type message c e)
      ∙ tables-send_payload c payload (record e { encoding = encoding })

  pub tables-publish :
      (topic : Text) (message : DynamicData) (e : Endpoint)
      → tables (publish topic message e).1 ≡ tables e
  unfolding publish
  tables-publish topic message e = elim (Option-cases (find topic e.topic_publish_info)) [
    | inl p ↦ rw (p, publish)
    | inr (info, p) ↦ rw (p, publish) (tables-publish_loop topic info.type message info.listeners e)
  ]
