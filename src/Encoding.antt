-- ===== src/Encoding.antt =====
-- `JsonEncoding` of src/json_encoding.cpp without `interpret_websocket_msg`, which is in Interpret:
-- the registry of types, and the encoders. An encoder returns the text and the new registry (its
-- members are `mutable`).
pub mod Message
pub mod Reader
pub mod Registry
use web_socket_sh.Prelude.{Bool, true, false, Option, none, some, [], if◌then◌else◌}
use web_socket_sh.Text.{Text, is_empty, text_eq}
use web_socket_sh.Dict.{Dict, find, assign}
use web_socket_sh.Json.{obj}
use web_socket_sh.Names.{transform_type}
use web_socket_sh.External.{Externals, converted, unsupported_type, json_exception}
use Message.{
  publication_msg, service_response_msg, subscribe_msg, advertise_msg, call_service_msg,
  advertise_service_msg,
}

module _ ⦃x : Externals⦄ where
  open x use {DynamicType, DynamicData, Node, type_name, to_json, dump, idl_types}

  pub record JsonEncoding : Type 0 where
    pub types : Dict Text DynamicType
    pub types_by_topic : Dict Text Text
    pub types_by_service : Dict Text (Text × Text)

  -- The constructor.
  unfoldable pub make_json_encoding : JsonEncoding
  make_json_encoding = record { types = idl_types; types_by_topic = []; types_by_service = [] }

  unfoldable pub get_type : Text → JsonEncoding → Option DynamicType
  get_type type_name e =
      if is_empty type_name then none else find (transform_type type_name) e.types

  -- `emplace` keeps an entry that is there; the result is whether the type was new.
  unfoldable pub add_type : DynamicType → Text → JsonEncoding → Bool × JsonEncoding
  add_type type given e =
      let name = transform_type (if is_empty given then type_name type else given) in
      elim (find name e.types) [
        | some _ ↦ (false, e)
        | none ↦ (true, record e { types = assign name type e.types })
      ]

  -- `types_by_service_[service] = {_, reply_type}`, the request type kept or empty; and the other
  -- way round.
  unfoldable pub set_reply_type : Text → Text → JsonEncoding → JsonEncoding
  set_reply_type service reply_type e = elim (find service e.types_by_service) [
    | some (req_type, _) ↦ record e {
      types_by_service = assign service (req_type, reply_type) e.types_by_service;
    }
    | none ↦ record e { types_by_service = assign service ([], reply_type) e.types_by_service }
  ]

  unfoldable pub set_request_type : Text → Text → JsonEncoding → JsonEncoding
  set_request_type service req_type e = elim (find service e.types_by_service) [
    | some (_, reply_type) ↦ record e {
      types_by_service = assign service (req_type, reply_type) e.types_by_service;
    }
    | none ↦ record e { types_by_service = assign service (req_type, []) e.types_by_service }
  ]

  unfoldable pub encode_publication_msg :
      Text → Text → Text → DynamicData → JsonEncoding → Text × JsonEncoding
  encode_publication_msg topic topic_type id msg e = elim (to_json msg) [
    | converted json ↦ (
      dump (obj (publication_msg topic id json)),
      record e { types_by_topic = assign topic (transform_type topic_type) e.types_by_topic },
    )
    | unsupported_type ↦ ([], e)
    | json_exception ↦ ([], e)
  ]

  unfoldable pub encode_service_response_msg :
      Text → Text → Text → DynamicData → Bool → JsonEncoding → Text × JsonEncoding
  encode_service_response_msg service service_type id response result e = elim (to_json response) [
    | converted json ↦ (
      dump (obj (service_response_msg service id json result)),
      set_reply_type service (transform_type service_type) e,
    )
    | unsupported_type ↦ ([], e)
    | json_exception ↦ ([], e)
  ]

  unfoldable pub encode_subscribe_msg :
      Text → Text → Text → Node → JsonEncoding → Text × JsonEncoding
  encode_subscribe_msg topic message_type id configuration e = (
    dump (obj (subscribe_msg topic (transform_type message_type) id)),
    record e { types_by_topic = assign topic (transform_type message_type) e.types_by_topic },
  )

  unfoldable pub encode_advertise_msg :
      Text → Text → Text → Node → JsonEncoding → Text × JsonEncoding
  encode_advertise_msg topic message_type id configuration e = (
    dump (obj (advertise_msg topic (transform_type message_type) id)),
    record e { types_by_topic = assign topic (transform_type message_type) e.types_by_topic },
  )

  unfoldable pub encode_call_service_msg :
      Text → Text → DynamicData → Text → Node → JsonEncoding → Text × JsonEncoding
  encode_call_service_msg service service_type request id configuration e = elim (to_json request) [
    | converted json ↦ (
      dump (obj (call_service_msg service id json)),
      set_request_type service (transform_type service_type) e,
    )
    | unsupported_type ↦ ([], e)
    | json_exception ↦ ([], e)
  ]

  unfoldable pub encode_advertise_service_msg :
      Text → Text → Text → Text → Node → JsonEncoding → Text × JsonEncoding
  encode_advertise_service_msg service request_type reply_type id configuration e = (
    dump (
        obj (
          advertise_service_msg service (transform_type request_type) (transform_type reply_type))),
    record e {
      types_by_service =
          assign service (transform_type request_type, transform_type reply_type)
            e.types_by_service;
    },
  )

  -- `types_by_topic_[topic_name]` makes an empty entry where there is none.
  unfoldable pub get_type_by_topic : Text → JsonEncoding → Option DynamicType × JsonEncoding
  get_type_by_topic topic e = elim (find topic e.types_by_topic) [
    | some name ↦ (get_type name e, e)
    | none ↦ (get_type [] e, record e { types_by_topic = assign topic [] e.types_by_topic })
  ]

  unfoldable pub get_req_type_from_service : Text → JsonEncoding → Option DynamicType × JsonEncoding
  get_req_type_from_service service e = elim (find service e.types_by_service) [
    | some (req_type, rep_type) ↦ (if is_empty req_type then none else get_type req_type e, e)
    | none ↦ (none, record e { types_by_service = assign service ([], []) e.types_by_service })
  ]

  unfoldable pub get_rep_type_from_service : Text → JsonEncoding → Option DynamicType × JsonEncoding
  get_rep_type_from_service service e = elim (find service e.types_by_service) [
    | some (req_type, rep_type) ↦ (if is_empty rep_type then none else get_type rep_type e, e)
    | none ↦ (none, record e { types_by_service = assign service ([], []) e.types_by_service })
  ]
