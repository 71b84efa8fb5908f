-- ===== src/Interpret/ServiceAdvertisement.antt =====
-- The advertisement of a service: what the peer has learnt after the message.
use web_socket_sh.Prelude.{◌≡◌, ==-refl, ap, ◌∙◌, some}
use web_socket_sh.Text.{Text, text_eq}
use web_socket_sh.Dict.{find, find-assign}
use web_socket_sh.Names.Loop.{transform_type_twice}
use web_socket_sh.Json.{Json, obj}
use web_socket_sh.Names.{transform_type}
use web_socket_sh.External.{Externals, PrintsJson, IsPlain}
use web_socket_sh.Encoding.{get_type}
use web_socket_sh.Encoding.Registry.{get_type-transform_type}
use web_socket_sh.Encoding.Message.{
  request_type_name_key, reply_type_name_key, service_key, op_advertise_service,
  advertise_service_msg,
}
use web_socket_sh.Encoding.Reader.{get_required_string}
use web_socket_sh.Endpoint.{Endpoint, Connection, ok}
use web_socket_sh.Endpoint.Receive.{receive_service_advertisement_ws}
use web_socket_sh.Interpret.{interpret_advertise_service, learn_service, interpret_websocket_msg}
use web_socket_sh.Interpret.Reading.{advertise_service_fields, required_lem}
use web_socket_sh.Interpret.Dispatching.{ParsesBack, interpret_lem, dispatch_lem}

module _ ⦃x : Externals⦄ where
  open x use {DynamicType, Node, type_name, empty_node, dump}

  advertise_known :
      (msg : Json) (service req rep : Text) (req_type rep_type : DynamicType) (c : Connection)
      (f : Endpoint)
      → get_required_string msg service_key ≡ service
      → get_required_string msg request_type_name_key ≡ req
      → get_required_string msg reply_type_name_key ≡ rep
      → get_type req f.encoding ≡ some req_type
      → get_type rep f.encoding ≡ some rep_type
      → interpret_advertise_service msg c f ≡ (
        ok tt,
        learn_service msg (receive_service_advertisement_ws service req_type rep_type c f),
      )
  unfolding interpret_advertise_service
  advertise_known msg service req rep req_type rep_type c f p q r typed_req typed_rep =
      let read = λ (s : Text). get_type s f.encoding in
      rw (ap read q ∙ typed_req, interpret_advertise_service) (rw (ap read r ∙ typed_rep) (rw p))

  -- The provider's entry is assigned, and the two type names.
  provider-advertised :
      (msg : Json) (service : Text) (req_type rep_type : DynamicType) (c : Connection)
      (f : Endpoint)
      → find service
          (learn_service msg
            (receive_service_advertisement_ws service req_type rep_type c f)).service_provider_info
        ≡ some (record {
          req_type = type_name req_type;
          reply_type = type_name rep_type;
          connection_handle = some c;
          configuration = empty_node;
        })
  unfolding learn_service receive_service_advertisement_ws
  provider-advertised msg service req_type rep_type c f =
      find-assign service service _ f.service_provider_info ∙ rw (==-refl service)

  names-learnt :
      (msg : Json) (service req rep : Text) (f : Endpoint)
      → get_required_string msg service_key ≡ service
      → get_required_string msg request_type_name_key ≡ transform_type req
      → get_required_string msg reply_type_name_key ≡ transform_type rep
      → find service (learn_service msg f).encoding.types_by_service
        ≡ some (transform_type req, transform_type rep)
  unfolding learn_service
  names-learnt msg service req rep f p q r =
      rw (p, q, r, transform_type_twice req, transform_type_twice rep, learn_service)
        (find-assign service service (transform_type req, transform_type rep)
            f.encoding.types_by_service
          ∙ rw (==-refl service))

  -- What the text of an advertisement does, where both types are known.
  pub advertisement_understood :
      (json : PrintsJson x) (service req rep : Text) (req_type rep_type : DynamicType)
      (c : Connection) (f : Endpoint)
      → IsPlain service
      → IsPlain (transform_type req)
      → IsPlain (transform_type rep)
      → ParsesBack (obj (advertise_service_msg service (transform_type req) (transform_type rep)))
      → get_type req f.encoding ≡ some req_type
      → get_type rep f.encoding ≡ some rep_type
      → let msg = obj (advertise_service_msg service (transform_type req) (transform_type rep)) in
        let after =
          learn_service msg (receive_service_advertisement_ws service req_type rep_type c f) in
        (interpret_websocket_msg (dump msg) c f ≡ (ok tt, after))
        × (find service after.service_provider_info
            ≡ some (record {
              req_type = type_name req_type;
              reply_type = type_name rep_type;
              connection_handle = some c;
              configuration = empty_node;
            }))
        × (find service after.encoding.types_by_service
            ≡ some (transform_type req, transform_type rep))
  advertisement_understood json service req rep req_type rep_type c f plain plain_req plain_rep back
        typed_req typed_rep =
      let req' = transform_type req in
      let rep' = transform_type rep in
      let msg = obj (advertise_service_msg service req' rep') in
      let (op, service_field, req_field, rep_field) = advertise_service_fields service req' rep' in
      let service_read = required_lem json msg service_key service plain service_field in
      let req_read = required_lem json msg request_type_name_key req' plain_req req_field in
      let rep_read = required_lem json msg reply_type_name_key rep' plain_rep rep_field in
      (
        interpret_lem msg op_advertise_service c f back op
            ∙ (dispatch_lem msg c f).5
            ∙ advertise_known msg service req' rep' req_type rep_type c f service_read req_read
                rep_read (get_type-transform_type req f.encoding ∙ typed_req)
                (get_type-transform_type rep f.encoding ∙ typed_rep),
        provider-advertised msg service req_type rep_type c f,
        names-learnt msg service req rep _ service_read req_read rep_read,
      )
