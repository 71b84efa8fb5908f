-- ===== src/Endpoint/Absent/Handlers.antt =====
-- The messages of one connection (src/Endpoint.cpp) bring no other one into the tables.
use web_socket_sh.Prelude.{
  ◌≡◌, refl, ◌∙◌, Bool, true, false, Option, some, [], ◌∷◌, inl, inr, ◌==◌, nat_eq, if◌then◌else◌,
  arith, Option-cases, Bool-cases,
}
use web_socket_sh.Text.{Text, is_empty, text_eq}
use web_socket_sh.Dict.{find, find-assign, erase, find-erase}
use web_socket_sh.Dict.HashSet.{HashSet, contains, insert, remove}
use web_socket_sh.External.{Externals, Conversion-cases}
use web_socket_sh.Endpoint.{
  Endpoint, Connection, TopicSubscribeInfo, TopicPublishInfo, ServiceRequestInfo,
}
use web_socket_sh.Endpoint.Tables.{tables}
use web_socket_sh.Endpoint.Receive.{
  judge_advertiser, listener_ids, add_listener, keep_ids, drop_listener,
  receive_topic_advertisement_ws, receive_publication_ws, receive_subscribe_request_ws,
  receive_unsubscribe_request_ws, receive_service_request_ws, receive_service_advertisement_ws,
  receive_service_unadvertisement_ws, respond, receive_service_response_ws, provided_by,
}
use web_socket_sh.Endpoint.Delivery.{distrusts, distrusts-judge_advertiser}
use web_socket_sh.Endpoint.Listeners.{unadvertised}
use web_socket_sh.Endpoint.Absent.{
  is_listed, published-IsAbsent, subscribed-IsAbsent, providers-IsAbsent, erase_provider-IsAbsent,
  same-IsAbsent,
}
use web_socket_sh.Endpoint.Absent.Operations.{IsAbsentFrom}
use web_socket_sh.Interpret.Keeping.{HandlersKeep}

module _ ⦃x : Externals⦄ (c d : Connection) (other : (d == c) ≡ false) where
  open x use {DynamicType, DynamicData, to_json, on_response, type_name}

  judge-distrusts :
      (type : Text) (info : TopicSubscribeInfo)
      → distrusts (some info) c ≡ false
      → distrusts (some (judge_advertiser type d info)) c ≡ false
  judge-distrusts type info h = distrusts-judge_advertiser type d c info ∙ rw other h

  add-listed :
      (id : Text) (info : TopicPublishInfo)
      → is_listed c (some info) ≡ false
      → is_listed c (some (add_listener d id info)) ≡ false
  unfolding add_listener
  add-listed id info h =
      let ids = insert id (listener_ids (find d info.listeners)) in
      ground (arith, find-assign d c ids info.listeners, other, h)

  erase-listed :
      (info : TopicPublishInfo)
      → is_listed c (some info) ≡ false
      → is_listed c (some (record info { listeners = erase d info.listeners })) ≡ false
  erase-listed info h = ground (arith, find-erase d c info.listeners, other, h)

  keep-listed :
      (ids : HashSet Text) (info : TopicPublishInfo)
      → is_listed c (some info) ≡ false
      → is_listed c (some (keep_ids d ids info)) ≡ false
  unfolding keep_ids
  keep-listed [] info h = erase-listed info h
  keep-listed (id ∷ ids) info h =
      ground (arith, find-assign d c (id ∷ ids) info.listeners, other, h)

  drop-listed :
      (id : Text) (info : TopicPublishInfo)
      → is_listed c (some info) ≡ false
      → is_listed c (some (drop_listener d id info)) ≡ false
  unfolding drop_listener
  drop-listed id info h = elim (Option-cases (find d info.listeners)) [
    | inl p ↦ rw (p, drop_listener) h
    | inr (ids, p) ↦ elim (Bool-cases (is_empty id)) [
      | inl q ↦ rw (p, drop_listener) (rw q (erase-listed info h))
      | inr q ↦ rw (p, drop_listener) (rw q (keep-listed (remove id ids) info h))
    ]
  ]

  if-IsAbsent :
      (b : Bool) (e f : Endpoint)
      → IsAbsentFrom c e
      → IsAbsentFrom c f
      → IsAbsentFrom c (if b then e else f)
  if-IsAbsent true e f h k = h
  if-IsAbsent false e f h k = k

  topic_advertisement-IsAbsent :
      (topic : Text) (type : DynamicType) (id : Text) (e : Endpoint)
      → IsAbsentFrom c e
      → IsAbsentFrom c (receive_topic_advertisement_ws topic type id d e)
  unfolding receive_topic_advertisement_ws
  topic_advertisement-IsAbsent topic type id e h =
      elim (Option-cases (find topic e.topic_subscribe_info)) [
        | inl p ↦ rw (p, receive_topic_advertisement_ws) h
        | inr (info, p) ↦
            rw (p, receive_topic_advertisement_ws)
              (subscribed-IsAbsent c (tables e) topic _
                (judge-distrusts _ info (rw p at (h.trusted topic))) h)
      ]

  publication-IsAbsent :
      (topic : Text) (message : DynamicData) (e : Endpoint)
      → IsAbsentFrom c e
      → IsAbsentFrom c (receive_publication_ws topic message d e)
  unfolding receive_publication_ws
  publication-IsAbsent topic message e h = elim (Option-cases (find topic e.topic_subscribe_info)) [
    | inl p ↦ rw (p, receive_publication_ws) h
    | inr (info, p) ↦
        rw (p, receive_publication_ws) (if-IsAbsent (contains d info.blacklist) e _ h h)
  ]

  subscribe_request-IsAbsent :
      (topic : Text) (type : DynamicType) (id : Text) (e : Endpoint)
      → IsAbsentFrom c e
      → IsAbsentFrom c (receive_subscribe_request_ws topic (some type) id d e).1
  unfolding receive_subscribe_request_ws
  subscribe_request-IsAbsent topic type id e h =
      elim (Option-cases (find topic e.topic_publish_info)) [
        | inl p ↦
            rw (p, receive_subscribe_request_ws)
              (published-IsAbsent c (tables e) topic _
                (add-listed id unadvertised (unfold find in refl)) h)
        | inr (info, p) ↦ elim (Bool-cases (type_name type == info.type)) [
          | inl q ↦
              rw (p, receive_subscribe_request_ws)
                (rw q (
                  published-IsAbsent c (tables e) topic _
                    (add-listed id info (rw p at (h.unheard topic))) h))
          | inr q ↦ rw (p, receive_subscribe_request_ws) (rw q h)
        ]
      ]

  unsubscribe-IsAbsent :
      (topic id : Text) (e : Endpoint)
      → IsAbsentFrom c e
      → IsAbsentFrom c (receive_unsubscribe_request_ws topic id d e)
  unfolding receive_unsubscribe_request_ws
  unsubscribe-IsAbsent topic id e h = elim (Option-cases (find topic e.topic_publish_info)) [
    | inl p ↦ rw (p, receive_unsubscribe_request_ws) h
    | inr (info, p) ↦
        rw (p, receive_unsubscribe_request_ws)
          (published-IsAbsent c (tables e) topic _ (drop-listed id info (rw p at (h.unheard topic)))
            h)
  ]

  service_request-IsAbsent :
      (service : Text) (request : DynamicData) (id : Text) (e : Endpoint)
      → IsAbsentFrom c e
      → IsAbsentFrom c (receive_service_request_ws service request id d e)
  unfolding receive_service_request_ws
  service_request-IsAbsent service request id e h =
      elim (Option-cases (find service e.client_proxy_info)) [
        | inl p ↦ rw (p, receive_service_request_ws) h
        | inr (info, p) ↦ elim (Conversion-cases (to_json request)) [
          | inl (v, q) ↦ rw (p, receive_service_request_ws) (rw q h)
          | inr (inl q) ↦ rw (p, receive_service_request_ws) (rw q h)
          | inr (inr q) ↦ rw (p, receive_service_request_ws) (rw q h)
        ]
      ]

  service_advertisement-IsAbsent :
      (service : Text) (req reply : DynamicType) (e : Endpoint)
      → IsAbsentFrom c e
      → IsAbsentFrom c (receive_service_advertisement_ws service req reply d e)
  unfolding receive_service_advertisement_ws provided_by
  service_advertisement-IsAbsent service req reply e h =
      providers-IsAbsent c (tables e) service _ other h

  service_unadvertisement-IsAbsent :
      (service : Text) (type : Option DynamicType) (e : Endpoint)
      → IsAbsentFrom c e
      → IsAbsentFrom c (receive_service_unadvertisement_ws service type d e)
  unfolding receive_service_unadvertisement_ws
  service_unadvertisement-IsAbsent service type e h =
      elim (Option-cases (find service e.service_provider_info)) [
        | inl p ↦ rw (p, receive_service_unadvertisement_ws) h
        | inr (info, p) ↦
            rw (p, receive_service_unadvertisement_ws)
              (if-IsAbsent (provided_by d info) _ e (erase_provider-IsAbsent c (tables e) service h)
                h)
      ]

  respond-IsAbsent :
      (id : Text) (info : ServiceRequestInfo) (response : DynamicData) (e : Endpoint)
      → IsAbsentFrom c e
      → IsAbsentFrom c (respond id info response e)
  unfolding respond
  respond-IsAbsent id info response e h =
      elim (Conversion-cases (on_response info.client info.call_handle response)) [
        | inl (a, p) ↦ rw (p, respond) (same-IsAbsent c (tables e) _ refl refl refl h)
        | inr (inl p) ↦ rw (p, respond) h
        | inr (inr p) ↦ rw (p, respond) h
      ]

  service_response-IsAbsent :
      (service : Text) (response : DynamicData) (id : Text) (e : Endpoint)
      → IsAbsentFrom c e
      → IsAbsentFrom c (receive_service_response_ws service response id d e)
  unfolding receive_service_response_ws
  service_response-IsAbsent service response id e h =
      elim (Option-cases (find id e.service_request_info)) [
        | inl p ↦ rw (p, receive_service_response_ws) h
        | inr (info, p) ↦ elim (Conversion-cases (to_json response)) [
          | inl (v, q) ↦
              rw (p, receive_service_response_ws) (rw q (respond-IsAbsent id info response e h))
          | inr (inl q) ↦ rw (p, receive_service_response_ws) (rw q h)
          | inr (inr q) ↦ rw (p, receive_service_response_ws) (rw q h)
        ]
      ]

  pub handlers-IsAbsentFrom : HandlersKeep (IsAbsentFrom c) d
  handlers-IsAbsentFrom = record {
    encoding = λ encoding e h. h;
    topic_advertisement = topic_advertisement-IsAbsent;
    publication = publication-IsAbsent;
    subscribe_request = subscribe_request-IsAbsent;
    unsubscribe = unsubscribe-IsAbsent;
    service_request = service_request-IsAbsent;
    service_advertisement = service_advertisement-IsAbsent;
    service_unadvertisement = service_unadvertisement-IsAbsent;
    service_response = service_response-IsAbsent;
  }
