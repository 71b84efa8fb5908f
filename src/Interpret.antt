-- ===== src/Interpret.antt =====
-- `JsonEncoding::interpret_websocket_msg` of src/json_encoding.cpp: one incoming text, and the call
-- of the endpoint that it stands for.
pub mod Reading
pub mod Dispatching
pub mod Topics
pub mod Services
pub mod ServiceAdvertisement
pub mod Faults
pub mod Keeping
pub mod Isolation
pub mod Safety
pub mod Delivered
pub mod Answered
pub mod Subscribed
pub mod Offered
pub mod Steps
pub mod History
use web_socket_sh.Prelude.{Option, none, some, ◌==◌, if◌then◌else◌}
use web_socket_sh.Text.{Text, text_eq}
use web_socket_sh.Dict.{assign}
use web_socket_sh.Json.{Json, find}
use web_socket_sh.Names.{transform_type}
use web_socket_sh.External.{Externals}
use web_socket_sh.Encoding.{
  get_type, get_type_by_topic, get_req_type_from_service, get_rep_type_from_service,
}
use web_socket_sh.Encoding.Message.{
  op_key, id_key, topic_name_key, type_name_key, request_type_name_key, reply_type_name_key,
  msg_key, service_key, args_key, values_key, op_advertise_topic, op_unadvertise_topic, op_publish,
  op_subscribe, op_unsubscribe, op_service_request, op_advertise_service, op_unadvertise_service,
  op_service_response,
}
use web_socket_sh.Encoding.Reader.{
  Required, read, refused, missing, as_string, get_optional_string, get_required_string,
  get_required_msg,
}
use web_socket_sh.Endpoint.{
  Endpoint, Connection, Run, ok, throws, json_type_error, undefined_behaviour,
}
use web_socket_sh.Endpoint.Receive.{
  receive_topic_advertisement_ws, receive_topic_unadvertisement_ws, receive_publication_ws,
  receive_subscribe_request_ws, receive_unsubscribe_request_ws, receive_service_request_ws,
  receive_service_advertisement_ws, receive_service_unadvertisement_ws, receive_service_response_ws,
}

module _ ⦃x : Externals⦄ where
  open x use {DynamicType, DynamicData, parse}

  -- `if (get_required_msg(msg, dest_data, key)) handle(dest_data)`
  unfoldable pub with_data :
      Required DynamicData → (DynamicData → Endpoint → Endpoint) → Endpoint → Run (Unit {0})
  with_data (read message) handle e = (ok tt, handle message e)
  with_data refused handle e = (ok tt, e)
  with_data missing handle e = (throws undefined_behaviour, e)

  -- `if (nullptr == dest_type) return;`, then the message as a value of that type.
  unfoldable pub with_type :
      Json
      → Text
      → Option DynamicType
      → (DynamicData → Endpoint → Endpoint)
      → Endpoint
      → Run (Unit {0})
  unfolding with_data
  with_type msg key none handle e = (ok tt, e)
  with_type msg key (some type) handle e = with_data (get_required_msg msg type key) handle e

  unfoldable pub interpret_publish : Json → Connection → Endpoint → Run (Unit {0})
  unfolding with_type
  interpret_publish msg connection e =
      let topic = get_required_string msg topic_name_key in
      let (dest_type, encoding) = get_type_by_topic topic e.encoding in
      with_type msg msg_key dest_type (λ message. receive_publication_ws topic message connection)
        (record e { encoding = encoding })

  unfoldable pub interpret_call_service : Json → Connection → Endpoint → Run (Unit {0})
  unfolding with_type
  interpret_call_service msg connection e =
      let service = get_required_string msg service_key in
      let (dest_type, encoding) = get_req_type_from_service service e.encoding in
      with_type msg args_key dest_type
        (λ request.
          receive_service_request_ws service request (get_optional_string msg id_key) connection)
        (record e { encoding = encoding })

  unfoldable pub interpret_service_response : Json → Connection → Endpoint → Run (Unit {0})
  unfolding with_type
  interpret_service_response msg connection e =
      let service = get_required_string msg service_key in
      let (dest_type, encoding) = get_rep_type_from_service service e.encoding in
      with_type msg values_key dest_type
        (λ response.
          receive_service_response_ws service response (get_optional_string msg id_key) connection)
        (record e { encoding = encoding })

  unfoldable pub interpret_advertise : Json → Connection → Endpoint → Run (Unit {0})
  interpret_advertise msg connection e =
      elim (get_type (get_required_string msg type_name_key) e.encoding) [
        | none ↦ (ok tt, e)
        | some topic_type ↦ (
          ok tt,
          receive_topic_advertisement_ws (get_required_string msg topic_name_key) topic_type
              (get_optional_string msg id_key) connection e,
        )
      ]

  unfoldable pub interpret_unadvertise : Json → Connection → Endpoint → Run (Unit {0})
  interpret_unadvertise msg connection e = (
    ok tt,
    receive_topic_unadvertisement_ws (get_required_string msg topic_name_key)
        (get_optional_string msg id_key) connection e,
  )

  unfoldable pub interpret_subscribe : Json → Connection → Endpoint → Run (Unit {0})
  interpret_subscribe msg connection e =
      elim (get_type (get_optional_string msg type_name_key) e.encoding) [
        | none ↦ (ok tt, e)
        | some topic_type ↦
            receive_subscribe_request_ws (get_required_string msg topic_name_key) (some topic_type)
              (get_optional_string msg id_key) connection e
      ]

  unfoldable pub interpret_unsubscribe : Json → Connection → Endpoint → Run (Unit {0})
  interpret_unsubscribe msg connection e = (
    ok tt,
    receive_unsubscribe_request_ws (get_required_string msg topic_name_key)
        (get_optional_string msg id_key) connection e,
  )

  -- `types_by_service_[service] = {transform_type(request_type), transform_type(reply_type)}`
  unfoldable pub learn_service : Json → Endpoint → Endpoint
  learn_service msg e = record e {
    encoding = record (e.encoding) {
      types_by_service =
          assign (get_required_string msg service_key)
            (
              transform_type (get_required_string msg request_type_name_key),
              transform_type (get_required_string msg reply_type_name_key),
            )
            e.encoding.types_by_service;
    };
  }

  unfoldable pub interpret_advertise_service : Json → Connection → Endpoint → Run (Unit {0})
  interpret_advertise_service msg connection e =
      elim (get_type (get_required_string msg request_type_name_key) e.encoding) [
        | none ↦ (ok tt, e)
        | some req_type ↦ elim (get_type (get_required_string msg reply_type_name_key) e.encoding) [
          | none ↦ (ok tt, e)
          | some reply_type ↦ (
            ok tt,
            learn_service msg (
                receive_service_advertisement_ws (get_required_string msg service_key) req_type
                  reply_type connection e),
          )
        ]
      ]

  unfoldable pub interpret_unadvertise_service : Json → Connection → Endpoint → Run (Unit {0})
  interpret_unadvertise_service msg connection e =
      elim (get_type (get_optional_string msg type_name_key) e.encoding) [
        | none ↦ (ok tt, e)
        | some service_type ↦ (
          ok tt,
          receive_service_unadvertisement_ws (get_required_string msg service_key)
              (some service_type) connection e,
        )
      ]

  unfoldable pub dispatch : Text → Json → Connection → Endpoint → Run (Unit {0})
  dispatch op msg connection e =
      if op == op_publish
      then interpret_publish msg connection e
      else if op == op_service_request
      then interpret_call_service msg connection e
      else if op == op_service_response
      then interpret_service_response msg connection e
      else if op == op_advertise_topic
      then interpret_advertise msg connection e
      else if op == op_unadvertise_topic
      then interpret_unadvertise msg connection e
      else if op == op_subscribe
      then interpret_subscribe msg connection e
      else if op == op_unsubscribe
      then interpret_unsubscribe msg connection e
      else if op == op_advertise_service
      then interpret_advertise_service msg connection e
      else if op == op_unadvertise_service
      then interpret_unadvertise_service msg connection e
      else (ok tt, e)

  unfoldable pub with_op : Json → Option Text → Connection → Endpoint → Run (Unit {0})
  unfolding dispatch
  with_op msg none connection e = (throws json_type_error, e)
  with_op msg (some op) connection e = dispatch op msg connection e

  unfoldable pub interpret_websocket_msg : Text → Connection → Endpoint → Run (Unit {0})
  unfolding with_op
  interpret_websocket_msg msg_str connection e = elim (parse msg_str) [
    | none ↦ (ok tt, e)
    | some msg ↦ elim (find msg op_key) [
      | none ↦ (ok tt, e)
      | some op ↦ with_op msg (as_string op) connection e
    ]
  ]
