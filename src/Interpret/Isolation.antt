-- ===== src/Interpret/Isolation.antt =====
-- What the messages of one connection (src/json_encoding.cpp, src/Endpoint.cpp) cannot do to another.
use web_socket_sh.Prelude.{
  ◌≡◌, refl, Bool, true, false, Option, some, inl, inr, arith, ◌==◌, nat_eq, if◌then◌else◌,
  Option-cases, Bool-cases,
}
use web_socket_sh.Text.{Text, text_eq}
use web_socket_sh.Dict.{find}
use web_socket_sh.Dict.HashSet.{contains}
use web_socket_sh.External.{Externals, Conversion-cases}
use web_socket_sh.Endpoint.{Endpoint, Connection, ServiceRequestInfo}
use web_socket_sh.Endpoint.Receive.{
  receive_topic_advertisement_ws, receive_publication_ws, receive_subscribe_request_ws,
  receive_unsubscribe_request_ws, receive_service_request_ws, receive_service_advertisement_ws,
  receive_service_unadvertisement_ws, respond, receive_service_response_ws, provided_by,
}
use web_socket_sh.Endpoint.Listeners.{
  listens, listens-subscribe_request, listens-unsubscribe_request,
}
use web_socket_sh.Endpoint.Delivery.{ignores, ignores-topic_advertisement}
use web_socket_sh.Interpret.{interpret_websocket_msg}
use web_socket_sh.Interpret.Keeping.{HandlersKeep, interpret_websocket_msg-keeps}

module _ ⦃x : Externals⦄ (c d : Connection) (other : (d == c) ≡ false) (before : Endpoint) where
  open x use {DynamicType, DynamicData, to_json, on_response, type_name}

  -- The topics that a connection listens to, and those on which it is ignored, are as before.
  record IsUntouched (e : Endpoint) : Type 0 where
    listening : (topic id : Text) → listens e topic c id ≡ listens before topic c id
    ignoring : (topic : Text) → ignores e topic c ≡ ignores before topic c

  same-IsUntouched :
      (e f : Endpoint)
      → f.topic_publish_info ≡ e.topic_publish_info
      → f.topic_subscribe_info ≡ e.topic_subscribe_info
      → IsUntouched e
      → IsUntouched f
  unfolding listens ignores
  same-IsUntouched e f p q h = record {
    listening = λ topic id. rw p (h.listening topic id);
    ignoring = λ topic. rw q (h.ignoring topic);
  }

  if-IsUntouched :
      (b : Bool) (e f : Endpoint) → IsUntouched e → IsUntouched f → IsUntouched (if b then e else f)
  if-IsUntouched true e f h k = h
  if-IsUntouched false e f h k = k

  topic_advertisement-IsUntouched :
      (topic : Text) (type : DynamicType) (id : Text) (e : Endpoint)
      → IsUntouched e
      → IsUntouched (receive_topic_advertisement_ws topic type id d e)
  unfolding receive_topic_advertisement_ws
  topic_advertisement-IsUntouched topic type id e h =
      elim (Option-cases (find topic e.topic_subscribe_info)) [
        | inl p ↦ rw (p, receive_topic_advertisement_ws) h
        | inr (info, p) ↦ record {
          listening =
              λ t i. rw (p, receive_topic_advertisement_ws) (unfold listens in h.listening t i);
          ignoring = λ t. ground (
            arith,
            ignores-topic_advertisement e topic t id type d c info p,
            other,
            h.ignoring t,
          );
        }
      ]

  subscribe_info-subscribe_request :
      (topic : Text) (type : DynamicType) (id : Text) (e : Endpoint)
      → (receive_subscribe_request_ws topic (some type) id d e).1.topic_subscribe_info
        ≡ e.topic_subscribe_info
  unfolding receive_subscribe_request_ws
  subscribe_info-subscribe_request topic type id e =
      elim (Option-cases (find topic e.topic_publish_info)) [
        | inl p ↦ rw (p, receive_subscribe_request_ws) refl
        | inr (info, p) ↦ elim (Bool-cases (type_name type == info.type)) [
          | inl q ↦ rw (p, receive_subscribe_request_ws) (rw q refl)
          | inr q ↦ rw (p, receive_subscribe_request_ws) (rw q refl)
        ]
      ]

  subscribe_request-IsUntouched :
      (topic : Text) (type : DynamicType) (id : Text) (e : Endpoint)
      → IsUntouched e
      → IsUntouched (receive_subscribe_request_ws topic (some type) id d e).1
  subscribe_request-IsUntouched topic type id e h = record {
    listening = λ t i.
        ground (arith, listens-subscribe_request e topic t type id i d c, other, h.listening t i);
    ignoring =
        λ t. unfold ignores in rw (subscribe_info-subscribe_request topic type id e) (h.ignoring t);
  }

  subscribe_info-unsubscribe_request :
      (topic id : Text) (e : Endpoint)
      → (receive_unsubscribe_request_ws topic id d e).topic_subscribe_info ≡ e.topic_subscribe_info
  unfolding receive_unsubscribe_request_ws
  subscribe_info-unsubscribe_request topic id e =
      elim (Option-cases (find topic e.topic_publish_info)) [
        | inl p ↦ rw (p, receive_unsubscribe_request_ws) refl
        | inr (info, p) ↦ rw (p, receive_unsubscribe_request_ws) refl
      ]

  unsubscribe-IsUntouched :
      (topic id : Text) (e : Endpoint)
      → IsUntouched e
      → IsUntouched (receive_unsubscribe_request_ws topic id d e)
  unsubscribe-IsUntouched topic id e h = record {
    listening = λ t i.
        ground (arith, listens-unsubscribe_request e topic t id i d c, other, h.listening t i);
    ignoring =
        λ t. unfold ignores in rw (subscribe_info-unsubscribe_request topic id e) (h.ignoring t);
  }

  publication-IsUntouched :
      (topic : Text) (message : DynamicData) (e : Endpoint)
      → IsUntouched e
      → IsUntouched (receive_publication_ws topic message d e)
  unfolding receive_publication_ws
  publication-IsUntouched topic message e h =
      elim (Option-cases (find topic e.topic_subscribe_info)) [
        | inl p ↦ rw (p, receive_publication_ws) h
        | inr (info, p) ↦
            rw (p, receive_publication_ws)
              (if-IsUntouched (contains d info.blacklist) e _ h (same-IsUntouched e _ refl refl h))
      ]

  service_request-IsUntouched :
      (service : Text) (request : DynamicData) (id : Text) (e : Endpoint)
      → IsUntouched e
      → IsUntouched (receive_service_request_ws service request id d e)
  unfolding receive_service_request_ws
  service_request-IsUntouched service request id e h =
      elim (Option-cases (find service e.client_proxy_info)) [
        | inl p ↦ rw (p, receive_service_request_ws) h
        | inr (info, p) ↦ elim (Conversion-cases (to_json request)) [
          | inl (v, q) ↦
              rw (p, receive_service_request_ws) (rw q (same-IsUntouched e _ refl refl h))
          | inr (inl q) ↦ rw (p, receive_service_request_ws) (rw q h)
          | inr (inr q) ↦ rw (p, receive_service_request_ws) (rw q h)
        ]
      ]

  service_unadvertisement-IsUntouched :
      (service : Text) (type : Option DynamicType) (e : Endpoint)
      → IsUntouched e
      → IsUntouched (receive_service_unadvertisement_ws service type d e)
  unfolding receive_service_unadvertisement_ws
  service_unadvertisement-IsUntouched service type e h =
      elim (Option-cases (find service e.service_provider_info)) [
        | inl p ↦ rw (p, receive_service_unadvertisement_ws) h
        | inr (info, p) ↦
            rw (p, receive_service_unadvertisement_ws)
              (if-IsUntouched (provided_by d info) _ e (same-IsUntouched e _ refl refl h) h)
      ]

  respond-IsUntouched :
      (id : Text) (info : ServiceRequestInfo) (response : DynamicData) (e : Endpoint)
      → IsUntouched e
      → IsUntouched (respond id info response e)
  unfolding respond
  respond-IsUntouched id info response e h =
      elim (Conversion-cases (on_response info.client info.call_handle response)) [
        | inl (a, p) ↦ rw (p, respond) (same-IsUntouched e _ refl refl h)
        | inr (inl p) ↦ rw (p, respond) (same-IsUntouched e _ refl refl h)
        | inr (inr p) ↦ rw (p, respond) (same-IsUntouched e _ refl refl h)
      ]

  service_response-IsUntouched :
      (service : Text) (response : DynamicData) (id : Text) (e : Endpoint)
      → IsUntouched e
      → IsUntouched (receive_service_response_ws service response id d e)
  unfolding receive_service_response_ws
  service_response-IsUntouched service response id e h =
      elim (Option-cases (find id e.service_request_info)) [
        | inl p ↦ rw (p, receive_service_response_ws) h
        | inr (info, p) ↦ elim (Conversion-cases (to_json response)) [
          | inl (v, q) ↦
              rw (p, receive_service_response_ws) (rw q (respond-IsUntouched id info response e h))
          | inr (inl q) ↦ rw (p, receive_service_response_ws) (rw q h)
          | inr (inr q) ↦ rw (p, receive_service_response_ws) (rw q h)
        ]
      ]

  handlers-IsUntouched : HandlersKeep IsUntouched d
  unfolding receive_service_advertisement_ws
  handlers-IsUntouched = record {
    encoding = λ encoding e h. same-IsUntouched e _ refl refl h;
    topic_advertisement = topic_advertisement-IsUntouched;
    publication = publication-IsUntouched;
    subscribe_request = subscribe_request-IsUntouched;
    unsubscribe = unsubscribe-IsUntouched;
    service_request = service_request-IsUntouched;
    service_advertisement = λ service req reply e h. same-IsUntouched e _ refl refl h;
    service_unadvertisement = service_unadvertisement-IsUntouched;
    service_response = service_response-IsUntouched;
  }

module _ ⦃x : Externals⦄ where
  -- No text that a connection sends, be it a message or not, changes to what another connection
  -- listens, or on which topics it is ignored.
  pub interpret_websocket_msg-isolates :
      (text : Text) (c d : Connection) (e : Endpoint) (topic id : Text)
      → (d == c) ≡ false
      → let after = (interpret_websocket_msg text d e).1 in
        (listens after topic c id ≡ listens e topic c id)
        × (ignores after topic c ≡ ignores e topic c)
  interpret_websocket_msg-isolates text c d e topic id other =
      let start : IsUntouched c d other e e = record {
        listening = λ t i. refl;
        ignoring = λ t. refl;
      } in
      let after =
        interpret_websocket_msg-keeps (IsUntouched c d other e) d (handlers-IsUntouched c d other e)
          text e start in
      (after.listening topic id, after.ignoring topic)
