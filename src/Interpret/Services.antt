-- ===== src/Interpret/Services.antt =====
-- Services: a message that an encoder writes is read by the peer as the call that it stands for. -- The text is
-- assumed to parse back to the object that was printed, and names and ids to need no escapes.
use web_socket_sh.Prelude.{◌≡◌, ◌∙◌, Bool, some}
use web_socket_sh.Text.{Text, text_eq}
use web_socket_sh.Dict.{find}
use web_socket_sh.Json.{Json, obj}
use web_socket_sh.External.{Externals, PrintsJson, IsPlain, converted}
use web_socket_sh.Encoding.{
  JsonEncoding, get_type, encode_call_service_msg, encode_service_response_msg,
}
use web_socket_sh.Encoding.Registry.{get_req_type_from_service_lem, get_rep_type_from_service_lem}
use web_socket_sh.Encoding.Message.{
  id_key, service_key, args_key, values_key, op_service_request, op_service_response,
  service_response_msg, call_service_msg,
}
use web_socket_sh.Encoding.Reader.{get_required_string, get_optional_string}
use web_socket_sh.Endpoint.{Endpoint, Connection, ok}
use web_socket_sh.Endpoint.Receive.{receive_service_request_ws, receive_service_response_ws}
use web_socket_sh.Interpret.{
  interpret_call_service, interpret_service_response, interpret_websocket_msg,
}
use web_socket_sh.Interpret.Reading.{
  Has, call_service_fields, service_response_fields, required_lem, id_lem,
}
use web_socket_sh.Interpret.Dispatching.{ParsesBack, interpret_lem, dispatch_lem, with_type_lem}

module _ ⦃x : Externals⦄ where
  open x use {DynamicType, DynamicData, Node, to_json, to_data, dump, parse}

  request_known :
      (msg : Json) (service req rep id : Text) (v : Json) (type : DynamicType)
      (request : DynamicData) (c : Connection) (f : Endpoint)
      → get_required_string msg service_key ≡ service
      → get_optional_string msg id_key ≡ id
      → Has msg args_key (some v)
      → find service f.encoding.types_by_service ≡ some (req, rep)
      → get_type req f.encoding ≡ some type
      → to_data type v ≡ converted request
      → interpret_call_service msg c f ≡ (ok tt, receive_service_request_ws service request id c f)
  unfolding interpret_call_service
  request_known msg service req rep id v type request c f p r q known typed data_of =
      rw
        (
          p,
          r,
          get_req_type_from_service_lem service req rep f.encoding known,
          interpret_call_service,
        )
        (with_type_lem msg args_key (get_type req f.encoding) type v request
          (λ m. receive_service_request_ws service m id c) f typed q data_of)

  -- A call message reaches the other side as a request for the same service under the same id,
  -- with the request that it makes of the JSON value by its own request type; the strings have
  -- nothing to escape, the parser reads back the printed message, the types are known and the
  -- conversions succeed.
  pub interpret-call_service :
      (json : PrintsJson x) (service own_type req rep id : Text) (sent request : DynamicData)
      (v : Json) (type : DynamicType) (node : Node) (e : JsonEncoding) (c : Connection)
      (f : Endpoint)
      → IsPlain service
      → IsPlain id
      → to_json sent ≡ converted v
      → ParsesBack (obj (call_service_msg service id v))
      → find service f.encoding.types_by_service ≡ some (req, rep)
      → get_type req f.encoding ≡ some type
      → to_data type v ≡ converted request
      → interpret_websocket_msg (encode_call_service_msg service own_type sent id node e).0 c f
        ≡ (ok tt, receive_service_request_ws service request id c f)
  unfolding encode_call_service_msg
  interpret-call_service json service own_type req rep id sent request v type node e c f plain
        plain_id encoded back known typed data_of =
      let msg = obj (call_service_msg service id v) in
      let (op, service_field, args_field, id_field) = call_service_fields service id v in
      rw (encoded, encode_call_service_msg)
        (interpret_lem msg op_service_request c f back op
          ∙ (dispatch_lem msg c f).1
          ∙ request_known msg service req rep id v type request c f
              (required_lem json msg service_key service plain service_field)
              (id_lem json msg id plain_id id_field) args_field known typed data_of)

  response_known :
      (msg : Json) (service req rep id : Text) (v : Json) (type : DynamicType)
      (response : DynamicData) (c : Connection) (f : Endpoint)
      → get_required_string msg service_key ≡ service
      → get_optional_string msg id_key ≡ id
      → Has msg values_key (some v)
      → find service f.encoding.types_by_service ≡ some (req, rep)
      → get_type rep f.encoding ≡ some type
      → to_data type v ≡ converted response
      → interpret_service_response msg c f
        ≡ (ok tt, receive_service_response_ws service response id c f)
  unfolding interpret_service_response
  response_known msg service req rep id v type response c f p r q known typed data_of =
      rw
        (
          p,
          r,
          get_rep_type_from_service_lem service req rep f.encoding known,
          interpret_service_response,
        )
        (with_type_lem msg values_key (get_type rep f.encoding) type v response
          (λ m. receive_service_response_ws service m id c) f typed q data_of)

  -- A response message reaches the other side as a response for the same service under the same
  -- id, with the response that it makes of the JSON value by its own reply type; the strings have
  -- nothing to escape, the parser reads back the printed message, the types are known and the
  -- conversions succeed.
  pub interpret-service_response :
      (json : PrintsJson x) (service own_type req rep id : Text) (result : Bool)
      (sent response : DynamicData) (v : Json) (type : DynamicType) (e : JsonEncoding)
      (c : Connection) (f : Endpoint)
      → IsPlain service
      → IsPlain id
      → to_json sent ≡ converted v
      → ParsesBack (obj (service_response_msg service id v result))
      → find service f.encoding.types_by_service ≡ some (req, rep)
      → get_type rep f.encoding ≡ some type
      → to_data type v ≡ converted response
      → interpret_websocket_msg
          (encode_service_response_msg service own_type id sent result e).0
          c
          f
        ≡ (ok tt, receive_service_response_ws service response id c f)
  unfolding encode_service_response_msg
  interpret-service_response json service own_type req rep id result sent response v type e c f
        plain plain_id encoded back known typed data_of =
      let msg = obj (service_response_msg service id v result) in
      let (op, service_field, values_field, id_field) =
        service_response_fields service id v result in
      rw (encoded, encode_service_response_msg)
        (interpret_lem msg op_service_response c f back op
          ∙ (dispatch_lem msg c f).2
          ∙ response_known msg service req rep id v type response c f
              (required_lem json msg service_key service plain service_field)
              (id_lem json msg id plain_id id_field) values_field known typed data_of)
