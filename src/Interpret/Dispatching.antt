-- ===== src/Interpret/Dispatching.antt =====
-- A text that parses to a message is dispatched by the operation code of the message.
use web_socket_sh.Prelude.{◌≡◌, refl, Option, some}
use web_socket_sh.Text.{Text, text_beq, text_eq}
use web_socket_sh.Json.{Json, str}
use web_socket_sh.External.{Externals, converted}
use web_socket_sh.Encoding.Message.{
  op_key, op_advertise_topic, op_publish, op_subscribe, op_service_request, op_advertise_service,
  op_service_response,
}
use web_socket_sh.Encoding.Reader.{as_string, get_required_msg}
use web_socket_sh.Endpoint.{Endpoint, Connection, ok}
use web_socket_sh.Interpret.{
  interpret_publish, interpret_call_service, interpret_service_response, interpret_advertise,
  interpret_subscribe, interpret_advertise_service, with_type, dispatch, with_op,
  interpret_websocket_msg,
}
use web_socket_sh.Interpret.Reading.{Has}

module _ ⦃x : Externals⦄ where
  open x use {DynamicType, DynamicData, to_data, dump, parse}

  -- The parser reads back what the printer wrote for this value.
  abbrev pub ParsesBack : Json → Type 0
  ParsesBack v = parse (dump v) ≡ some v

  pub interpret_lem :
      (msg : Json) (op : Text) (c : Connection) (f : Endpoint)
      → ParsesBack msg
      → Has msg op_key (some (str op))
      → interpret_websocket_msg (dump msg) c f ≡ dispatch op msg c f
  unfolding interpret_websocket_msg as_string with_op
  interpret_lem msg op c f p h = rw (p, interpret_websocket_msg) (rw (h, with_op))

  pub dispatch_lem :
      (msg : Json) (c : Connection) (f : Endpoint)
      → (dispatch op_publish msg c f ≡ interpret_publish msg c f)
        × (dispatch op_service_request msg c f ≡ interpret_call_service msg c f)
        × (dispatch op_service_response msg c f ≡ interpret_service_response msg c f)
        × (dispatch op_advertise_topic msg c f ≡ interpret_advertise msg c f)
        × (dispatch op_subscribe msg c f ≡ interpret_subscribe msg c f)
        × (dispatch op_advertise_service msg c f ≡ interpret_advertise_service msg c f)
  unfolding dispatch text_beq
  dispatch_lem msg c f = (refl, refl, refl, refl, refl, refl)

  pub with_type_lem :
      (msg : Json) (key : Text) (o : Option DynamicType) (type : DynamicType) (v : Json)
      (message : DynamicData) (handle : DynamicData → Endpoint → Endpoint) (f : Endpoint)
      → o ≡ some type
      → Has msg key (some v)
      → to_data type v ≡ converted message
      → with_type msg key o handle f ≡ (ok tt, handle message f)
  unfolding with_type get_required_msg
  with_type_lem msg key o type v message handle f typed has data_of =
      rw typed (rw (has, get_required_msg) (rw data_of))
