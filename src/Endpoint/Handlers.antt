-- ===== src/Endpoint/Handlers.antt =====
-- The handlers of messages and connections (src/Endpoint.cpp) keep the tables well-formed.
use web_socket_sh.Prelude.{
  ◌≡◌, refl, ap, sym, ◌∙◌, subst, Option, some, inl, inr, Option-cases, Bool-cases, List, [], ◌∷◌,
  ◌==◌, if◌then◌else◌, nat_eq, Bool, true, false,
}
use web_socket_sh.Text.{Text, text_eq}
use web_socket_sh.Dict.{find, keys_where}
use web_socket_sh.Dict.HashSet.{contains}
use web_socket_sh.Dict.Unique.{
  assign-IsUnique, erase-IsUnique, erase_all-IsUnique, map_values-IsUnique,
}
use web_socket_sh.External.{Externals, Conversion-cases}
use web_socket_sh.Endpoint.{Endpoint, Connection, ServiceRequestInfo}
use web_socket_sh.Endpoint.Sending.{send_lem}
use web_socket_sh.Endpoint.Tables.{tables}
use web_socket_sh.Endpoint.Receive.{
  receive_topic_advertisement_ws, receive_publication_ws, receive_subscribe_request_ws,
  receive_unsubscribe_request_ws, receive_service_request_ws, receive_service_advertisement_ws,
  receive_service_unadvertisement_ws, respond, receive_service_response_ws, provided_by,
}
use web_socket_sh.Endpoint.Lifetime.{
  send_all, notify_connection_opened, forgive, stop_listening, notify_connection_closed,
}
use web_socket_sh.Endpoint.WellFormed.{
  IsWellFormed, with_subscribed, with_published, with_providers, without_request,
}
use web_socket_sh.Endpoint.Operations.{IsConsistent}

module _ ⦃x : Externals⦄ where
  open x use {DynamicType, DynamicData, to_json, on_response, type_name}

  -- Both branches of a test.
  pub if-IsConsistent :
      (b : Bool) (e f : Endpoint)
      → IsConsistent e
      → IsConsistent f
      → IsConsistent (if b then e else f)
  if-IsConsistent true e f h k = h
  if-IsConsistent false e f h k = k

  pub topic_advertisement-IsConsistent :
      (topic : Text) (type : DynamicType) (id : Text) (c : Connection) (e : Endpoint)
      → IsConsistent e
      → IsConsistent (receive_topic_advertisement_ws topic type id c e)
  unfolding receive_topic_advertisement_ws
  topic_advertisement-IsConsistent topic type id c e h =
      elim (Option-cases (find topic e.topic_subscribe_info)) [
        | inl p ↦ rw (p, receive_topic_advertisement_ws) h
        | inr (info, p) ↦
            rw (p, receive_topic_advertisement_ws)
              (with_subscribed (tables e) _
                (assign-IsUnique topic _ e.topic_subscribe_info h.subscribed) h)
      ]

  pub publication-IsConsistent :
      (topic : Text) (message : DynamicData) (c : Connection) (e : Endpoint)
      → IsConsistent e
      → IsConsistent (receive_publication_ws topic message c e)
  unfolding receive_publication_ws
  publication-IsConsistent topic message c e h =
      elim (Option-cases (find topic e.topic_subscribe_info)) [
        | inl p ↦ rw (p, receive_publication_ws) h
        | inr (info, p) ↦
            rw (p, receive_publication_ws) (if-IsConsistent (contains c info.blacklist) e _ h h)
      ]

  pub unsubscribe-IsConsistent :
      (topic id : Text) (c : Connection) (e : Endpoint)
      → IsConsistent e
      → IsConsistent (receive_unsubscribe_request_ws topic id c e)
  unfolding receive_unsubscribe_request_ws
  unsubscribe-IsConsistent topic id c e h = elim (Option-cases (find topic e.topic_publish_info)) [
    | inl p ↦ rw (p, receive_unsubscribe_request_ws) h
    | inr (info, p) ↦
        rw (p, receive_unsubscribe_request_ws)
          (with_published (tables e) _ (assign-IsUnique topic _ e.topic_publish_info h.published) h)
  ]

  pub subscribe_request-IsConsistent :
      (topic : Text) (type : DynamicType) (id : Text) (c : Connection) (e : Endpoint)
      → IsConsistent e
      → IsConsistent (receive_subscribe_request_ws topic (some type) id c e).1
  unfolding receive_subscribe_request_ws
  subscribe_request-IsConsistent topic type id c e h =
      elim (Option-cases (find topic e.topic_publish_info)) [
        | inl p ↦
            rw (p, receive_subscribe_request_ws)
              (with_published (tables e) _
                (assign-IsUnique topic _ e.topic_publish_info h.published) h)
        | inr (info, p) ↦ elim (Bool-cases (type_name type == info.type)) [
          | inl q ↦
              rw (p, receive_subscribe_request_ws)
                (rw q (
                  with_published (tables e) _
                    (assign-IsUnique topic _ e.topic_publish_info h.published) h))
          | inr q ↦ rw (p, receive_subscribe_request_ws) (rw q h)
        ]
      ]

  pub service_request-IsConsistent :
      (service : Text) (request : DynamicData) (id : Text) (c : Connection) (e : Endpoint)
      → IsConsistent e
      → IsConsistent (receive_service_request_ws service request id c e)
  unfolding receive_service_request_ws
  service_request-IsConsistent service request id c e h =
      elim (Option-cases (find service e.client_proxy_info)) [
        | inl p ↦ rw (p, receive_service_request_ws) h
        | inr (info, p) ↦ elim (Conversion-cases (to_json request)) [
          | inl (v, q) ↦ rw (p, receive_service_request_ws) (rw q h)
          | inr (inl q) ↦ rw (p, receive_service_request_ws) (rw q h)
          | inr (inr q) ↦ rw (p, receive_service_request_ws) (rw q h)
        ]
      ]

  pub service_advertisement-IsConsistent :
      (service : Text) (req reply : DynamicType) (c : Connection) (e : Endpoint)
      → IsConsistent e
      → IsConsistent (receive_service_advertisement_ws service req reply c e)
  unfolding receive_service_advertisement_ws
  service_advertisement-IsConsistent service req reply c e h =
      with_providers (tables e) _ (assign-IsUnique service _ e.service_provider_info h.providers) h

  pub service_unadvertisement-IsConsistent :
      (service : Text) (type : Option DynamicType) (c : Connection) (e : Endpoint)
      → IsConsistent e
      → IsConsistent (receive_service_unadvertisement_ws service type c e)
  unfolding receive_service_unadvertisement_ws
  service_unadvertisement-IsConsistent service type c e h =
      elim (Option-cases (find service e.service_provider_info)) [
        | inl p ↦ rw (p, receive_service_unadvertisement_ws) h
        | inr (info, p) ↦
            rw (p, receive_service_unadvertisement_ws)
              (if-IsConsistent (provided_by c info) _ e
                (with_providers (tables e) _
                  (erase-IsUnique service e.service_provider_info h.providers) h)
                h)
      ]

  respond-IsConsistent :
      (id : Text) (info : ServiceRequestInfo) (response : DynamicData) (e : Endpoint)
      → IsConsistent e
      → IsConsistent (respond id info response e)
  unfolding respond
  respond-IsConsistent id info response e h =
      elim (Conversion-cases (on_response info.client info.call_handle response)) [
        | inl (a, p) ↦ rw (p, respond) (without_request (tables e) id h)
        | inr (inl p) ↦ rw (p, respond) h
        | inr (inr p) ↦ rw (p, respond) h
      ]

  pub service_response-IsConsistent :
      (service : Text) (response : DynamicData) (id : Text) (c : Connection) (e : Endpoint)
      → IsConsistent e
      → IsConsistent (receive_service_response_ws service response id c e)
  unfolding receive_service_response_ws
  service_response-IsConsistent service response id c e h =
      elim (Option-cases (find id e.service_request_info)) [
        | inl p ↦ rw (p, receive_service_response_ws) h
        | inr (info, p) ↦ elim (Conversion-cases (to_json response)) [
          | inl (v, q) ↦
              rw (p, receive_service_response_ws) (rw q (respond-IsConsistent id info response e h))
          | inr (inl q) ↦ rw (p, receive_service_response_ws) (rw q h)
          | inr (inr q) ↦ rw (p, receive_service_response_ws) (rw q h)
        ]
      ]

  pub tables-send_all :
      (msgs : List Text) (c : Connection) (e : Endpoint) → tables (send_all msgs c e) ≡ tables e
  unfolding send_all
  tables-send_all [] c e = refl
  tables-send_all (msg ∷ msgs) c e = tables-send_all msgs c _ ∙ ap tables (send_lem c msg e)

  pub connection_opened-IsConsistent :
      (c : Connection) (e : Endpoint) → IsConsistent e → IsConsistent (notify_connection_opened c e)
  unfolding notify_connection_opened
  connection_opened-IsConsistent c e h =
      subst IsWellFormed (sym (tables-send_all e.startup_messages c e)) h

  pub connection_closed-IsConsistent :
      (c : Connection) (e : Endpoint) → IsConsistent e → IsConsistent (notify_connection_closed c e)
  unfolding notify_connection_closed
  connection_closed-IsConsistent c e h =
      with_providers _ _
        (erase_all-IsUnique (keys_where (provided_by c) e.service_provider_info)
          e.service_provider_info h.providers)
        (with_published _ _
          (map_values-IsUnique (stop_listening c) e.topic_publish_info h.published)
          (with_subscribed (tables e) _
            (map_values-IsUnique (forgive c) e.topic_subscribe_info h.subscribed) h))
