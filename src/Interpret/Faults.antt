-- ===== src/Interpret/Faults.antt =====
-- Messages that the peer should not send, and what they do.
use web_socket_sh.Prelude.{◌≡◌, none, some, ◌∙◌}
use web_socket_sh.Text.{Text, text_beq, text_eq}
use web_socket_sh.Dict.{find}
use web_socket_sh.Json.{Json, str}
use web_socket_sh.External.{Externals, PrintsJson, IsPlain}
use web_socket_sh.Encoding.{get_type}
use web_socket_sh.Encoding.Registry.{get_type_by_topic_lem}
use web_socket_sh.Encoding.Message.{
  op_key, topic_name_key, type_name_key, msg_key, op_publish, op_unadvertise_service,
}
use web_socket_sh.Encoding.Reader.{get_optional_string, get_required_msg, field_text, as_string}
use web_socket_sh.Endpoint.{Endpoint, Connection, ok, throws, json_type_error, undefined_behaviour}
use web_socket_sh.Interpret.{
  interpret_publish, interpret_unadvertise_service, with_type, dispatch, with_op,
  interpret_websocket_msg,
}
use web_socket_sh.Interpret.Reading.{Has, required_lem}
use web_socket_sh.Interpret.Dispatching.{ParsesBack, interpret_lem, dispatch_lem}

module _ ⦃x : Externals⦄ where
  open x use {DynamicType, dump}

  -- A publication without a message, on a topic whose type is known, is read through the end
  -- iterator.
  pub publication_without_msg :
      (json : PrintsJson x) (msg : Json) (topic name : Text) (type : DynamicType) (c : Connection)
      (f : Endpoint)
      → ParsesBack msg
      → IsPlain topic
      → Has msg op_key (some (str op_publish))
      → Has msg topic_name_key (some (str topic))
      → Has msg msg_key none
      → find topic f.encoding.types_by_topic ≡ some name
      → get_type name f.encoding ≡ some type
      → interpret_websocket_msg (dump msg) c f ≡ (throws undefined_behaviour, f)
  unfolding interpret_publish with_type get_required_msg
  publication_without_msg json msg topic name type c f back plain op topic_field no_msg known
        typed =
      interpret_lem msg op_publish c f back op
      ∙ (dispatch_lem msg c f).0
      ∙ rw
          (
            required_lem json msg topic_name_key topic plain topic_field,
            get_type_by_topic_lem topic name f.encoding known,
            interpret_publish,
          )
          (rw typed (rw (no_msg, get_required_msg)))

  -- An operation code that is no string throws out of the interpreter.
  pub op_not_string :
      (msg op : Json) (c : Connection) (f : Endpoint)
      → ParsesBack msg
      → Has msg op_key (some op)
      → as_string op ≡ none
      → interpret_websocket_msg (dump msg) c f ≡ (throws json_type_error, f)
  unfolding interpret_websocket_msg with_op
  op_not_string msg op c f back has no_string =
      rw (back, interpret_websocket_msg) (rw (has) (rw no_string))

  -- The withdrawal of a service without a type is dropped, and changes nothing.
  pub unadvertise_service_untyped :
      (msg : Json) (c : Connection) (f : Endpoint)
      → ParsesBack msg
      → Has msg op_key (some (str op_unadvertise_service))
      → Has msg type_name_key none
      → interpret_websocket_msg (dump msg) c f ≡ (ok tt, f)
  unfolding interpret_unadvertise_service get_optional_string field_text get_type dispatch text_beq
  unadvertise_service_untyped msg c f back op no_type =
      interpret_lem msg op_unadvertise_service c f back op
      ∙ rw (no_type, interpret_unadvertise_service)
