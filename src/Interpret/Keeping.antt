-- ===== src/Interpret/Keeping.antt =====
-- What the interpreter of messages keeps (src/json_encoding.cpp): whatever each handler of the
-- endpoint keeps, whether or not the text is a message.
use web_socket_sh.Prelude.{
  Option, none, some, inl, inr, Option-cases, Bool, true, false, ◌==◌, if◌then◌else◌,
}
use web_socket_sh.Text.{Text, text_eq}
use web_socket_sh.Json.{Json, find}
use web_socket_sh.External.{Externals}
use web_socket_sh.Encoding.{
  JsonEncoding, get_type, get_type_by_topic, get_req_type_from_service, get_rep_type_from_service,
}
use web_socket_sh.Encoding.Message.{
  op_key, id_key, topic_name_key, type_name_key, request_type_name_key, reply_type_name_key,
  service_key, msg_key, args_key, values_key, op_publish, op_service_request, op_service_response,
  op_advertise_topic, op_unadvertise_topic, op_subscribe, op_unsubscribe, op_advertise_service,
  op_unadvertise_service,
}
use web_socket_sh.Encoding.Reader.{
  Required, read, refused, missing, get_required_string, get_optional_string, get_required_msg,
  as_string,
}
use web_socket_sh.Endpoint.{Endpoint, Connection, Run}
use web_socket_sh.Endpoint.Receive.{
  receive_topic_advertisement_ws, receive_topic_unadvertisement_ws, receive_publication_ws,
  receive_subscribe_request_ws, receive_unsubscribe_request_ws, receive_service_request_ws,
  receive_service_advertisement_ws, receive_service_unadvertisement_ws, receive_service_response_ws,
}
use web_socket_sh.Interpret.{
  with_data, with_type, interpret_publish, interpret_call_service, interpret_service_response,
  interpret_advertise, interpret_unadvertise, interpret_subscribe, interpret_unsubscribe,
  learn_service, interpret_advertise_service, interpret_unadvertise_service, dispatch, with_op,
  interpret_websocket_msg,
}

module _ ⦃x : Externals⦄ where
  open x use {DynamicType, DynamicData, parse}

  -- The handlers of the messages of one connection keep a property of the endpoint, and it does not
  -- depend on the encoding.
  pub record HandlersKeep (P : Endpoint → Type 0) (c : Connection) : Type 0 where
    pub encoding :
        (encoding : JsonEncoding) (e : Endpoint) → P e → P (record e { encoding = encoding })
    pub topic_advertisement :
        (topic : Text) (type : DynamicType) (id : Text) (e : Endpoint)
        → P e
        → P (receive_topic_advertisement_ws topic type id c e)
    pub publication :
        (topic : Text) (message : DynamicData) (e : Endpoint)
        → P e
        → P (receive_publication_ws topic message c e)
    pub subscribe_request :
        (topic : Text) (type : DynamicType) (id : Text) (e : Endpoint)
        → P e
        → P (receive_subscribe_request_ws topic (some type) id c e).1
    pub unsubscribe :
        (topic id : Text) (e : Endpoint) → P e → P (receive_unsubscribe_request_ws topic id c e)
    pub service_request :
        (service : Text) (request : DynamicData) (id : Text) (e : Endpoint)
        → P e
        → P (receive_service_request_ws service request id c e)
    pub service_advertisement :
        (service : Text) (req reply : DynamicType) (e : Endpoint)
        → P e
        → P (receive_service_advertisement_ws service req reply c e)
    pub service_unadvertisement :
        (service : Text) (type : Option DynamicType) (e : Endpoint)
        → P e
        → P (receive_service_unadvertisement_ws service type c e)
    pub service_response :
        (service : Text) (response : DynamicData) (id : Text) (e : Endpoint)
        → P e
        → P (receive_service_response_ws service response id c e)

  module _ (P : Endpoint → Type 0) (c : Connection) (keep : HandlersKeep P c) where
    with_data-keeps :
        (r : Required DynamicData) (handle : DynamicData → Endpoint → Endpoint) (e : Endpoint)
        → ((m : DynamicData) → P (handle m e))
        → P e
        → P (with_data r handle e).1
    unfolding with_data
    with_data-keeps (read m) handle e each h = each m
    with_data-keeps refused handle e each h = h
    with_data-keeps missing handle e each h = h

    with_type-keeps :
        (msg : Json) (key : Text) (type : Option DynamicType)
        (handle : DynamicData → Endpoint → Endpoint) (e : Endpoint)
        → ((m : DynamicData) → P (handle m e))
        → P e
        → P (with_type msg key type handle e).1
    unfolding with_type
    with_type-keeps msg key none handle e each h = h
    with_type-keeps msg key (some type) handle e each h =
        with_data-keeps (get_required_msg msg type key) handle e each h

    publish-keeps : (msg : Json) (e : Endpoint) → P e → P (interpret_publish msg c e).1
    unfolding interpret_publish
    publish-keeps msg e h =
        let topic = get_required_string msg topic_name_key in
        let (type, encoding) = get_type_by_topic topic e.encoding in
        with_type-keeps msg msg_key type _ (record e { encoding = encoding })
          (λ m. keep.publication topic m _ (keep.encoding encoding e h))
          (keep.encoding encoding e h)

    call_service-keeps : (msg : Json) (e : Endpoint) → P e → P (interpret_call_service msg c e).1
    unfolding interpret_call_service
    call_service-keeps msg e h =
        let service = get_required_string msg service_key in
        let (type, encoding) = get_req_type_from_service service e.encoding in
        with_type-keeps msg args_key type _ (record e { encoding = encoding })
          (λ m.
            keep.service_request service m (get_optional_string msg id_key) _
              (keep.encoding encoding e h))
          (keep.encoding encoding e h)

    response-keeps : (msg : Json) (e : Endpoint) → P e → P (interpret_service_response msg c e).1
    unfolding interpret_service_response
    response-keeps msg e h =
        let service = get_required_string msg service_key in
        let (type, encoding) = get_rep_type_from_service service e.encoding in
        with_type-keeps msg values_key type _ (record e { encoding = encoding })
          (λ m.
            keep.service_response service m (get_optional_string msg id_key) _
              (keep.encoding encoding e h))
          (keep.encoding encoding e h)

    advertise-keeps : (msg : Json) (e : Endpoint) → P e → P (interpret_advertise msg c e).1
    unfolding interpret_advertise
    advertise-keeps msg e h =
        elim (Option-cases (get_type (get_required_string msg type_name_key) e.encoding)) [
          | inl p ↦ rw (p, interpret_advertise) h
          | inr (type, p) ↦ rw (p, interpret_advertise) (keep.topic_advertisement _ type _ e h)
        ]

    subscribe-keeps : (msg : Json) (e : Endpoint) → P e → P (interpret_subscribe msg c e).1
    unfolding interpret_subscribe
    subscribe-keeps msg e h =
        elim (Option-cases (get_type (get_optional_string msg type_name_key) e.encoding)) [
          | inl p ↦ rw (p, interpret_subscribe) h
          | inr (type, p) ↦ rw (p, interpret_subscribe) (keep.subscribe_request _ type _ e h)
        ]

    advertise_service-keeps :
        (msg : Json) (e : Endpoint) → P e → P (interpret_advertise_service msg c e).1
    unfolding interpret_advertise_service learn_service
    advertise_service-keeps msg e h =
        elim (Option-cases (get_type (get_required_string msg request_type_name_key) e.encoding)) [
          | inl p ↦ rw (p, interpret_advertise_service) h
          | inr (req, p) ↦
              elim (Option-cases
                (get_type (get_required_string msg reply_type_name_key) e.encoding)) [
                  | inl q ↦ rw (p, interpret_advertise_service) (rw q h)
                  | inr (rep, q) ↦
                      rw (p, interpret_advertise_service)
                        (rw q (keep.encoding _ _ (keep.service_advertisement _ req rep e h)))
                ]
        ]

    unadvertise_service-keeps :
        (msg : Json) (e : Endpoint) → P e → P (interpret_unadvertise_service msg c e).1
    unfolding interpret_unadvertise_service
    unadvertise_service-keeps msg e h =
        elim (Option-cases (get_type (get_optional_string msg type_name_key) e.encoding)) [
          | inl p ↦ rw (p, interpret_unadvertise_service) h
          | inr (type, p) ↦
              rw (p, interpret_unadvertise_service) (keep.service_unadvertisement _ (some type) e h)
        ]

    record Keeps (r : Run (Unit {0})) : Type 0 where
      kept : P r.1

    -- Both branches of a test on the operation code.
    branch : (b : Bool) (r s : Run (Unit {0})) → Keeps r → Keeps s → Keeps (if b then r else s)
    branch true r s h k = h
    branch false r s h k = k

    dispatch-Keeps : (op : Text) (msg : Json) (e : Endpoint) → P e → Keeps (dispatch op msg c e)
    unfolding dispatch interpret_unadvertise interpret_unsubscribe receive_topic_unadvertisement_ws
    dispatch-Keeps op msg e h =
        branch (op == op_publish) _ _ (record { kept = publish-keeps msg e h })
          (branch (op == op_service_request) _ _ (record { kept = call_service-keeps msg e h })
            (branch (op == op_service_response) _ _ (record { kept = response-keeps msg e h })
              (branch (op == op_advertise_topic) _ _ (record { kept = advertise-keeps msg e h })
                (branch (op == op_unadvertise_topic) _ _ (record { kept = h })
                  (branch (op == op_subscribe) _ _ (record { kept = subscribe-keeps msg e h })
                    (branch (op == op_unsubscribe) _ _ (record { kept = keep.unsubscribe _ _ e h })
                      (branch (op == op_advertise_service) _ _
                        (record { kept = advertise_service-keeps msg e h })
                        (branch (op == op_unadvertise_service) _ _
                          (record { kept = unadvertise_service-keeps msg e h })
                          (record { kept = h })))))))))

    with_op-keeps : (msg : Json) (op : Option Text) (e : Endpoint) → P e → P (with_op msg op c e).1
    unfolding with_op
    with_op-keeps msg none e h = h
    with_op-keeps msg (some op) e h = (dispatch-Keeps op msg e h).kept

    -- No text that the connection sends, be it a message or not, breaks the property.
    pub interpret_websocket_msg-keeps :
        (text : Text) (e : Endpoint) → P e → P (interpret_websocket_msg text c e).1
    unfolding interpret_websocket_msg
    interpret_websocket_msg-keeps text e h = elim (Option-cases (parse text)) [
      | inl p ↦ rw (p, interpret_websocket_msg) h
      | inr (msg, p) ↦ elim (Option-cases (find msg op_key)) [
        | inl q ↦ rw (p, interpret_websocket_msg) (rw q h)
        | inr (op, q) ↦
            rw (p, interpret_websocket_msg) (rw q (with_op-keeps msg (as_string op) e h))
      ]
    ]
