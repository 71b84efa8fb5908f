-- ===== src/Interpret/Offered.antt =====
-- A service from its offer by one endpoint to the answer of a call by another: the core creates the
-- client proxy, the connection opens, the advertisement arrives, the other core calls, the service is
-- called and its answer comes back.
use web_socket_sh.Prelude.{ℕ, ◌≡◌, refl, ap, ◌∙◌, false, none, some, [], ◌∷◌, ◌++◌, map, true}
use web_socket_sh.Text.{Text, is_empty, text_eq}
use web_socket_sh.Dict.{find}
use web_socket_sh.Names.{transform_type}
use web_socket_sh.Decimal.{to_string}
use web_socket_sh.Json.{Json, obj}
use web_socket_sh.External.{Externals, converted, PrintsJson, IsPlain}
use web_socket_sh.Encoding.{get_type, add_type, encode_advertise_service_msg}
use web_socket_sh.Encoding.Message.{advertise_service_msg, call_service_msg, service_response_msg}
use web_socket_sh.Encoding.Registry.{first_of_name, get_type-transform_type, get_type-add_type_kept}
use web_socket_sh.Endpoint.{Endpoint, Connection, ok, sent, requested, responded}
use web_socket_sh.Endpoint.Sending.{transport}
use web_socket_sh.Endpoint.Setup.{client_proxy, create_client_proxy}
use web_socket_sh.Endpoint.Traffic.{call_service, receive_response}
use web_socket_sh.Endpoint.Lifetime.{notify_connection_opened}
use web_socket_sh.Endpoint.Receive.{make_call_handle, receive_service_advertisement_ws}
use web_socket_sh.Endpoint.Calls.{pending}
use web_socket_sh.Interpret.{learn_service, interpret_websocket_msg}
use web_socket_sh.Interpret.Dispatching.{ParsesBack}
use web_socket_sh.Interpret.ServiceAdvertisement.{advertisement_understood}
use web_socket_sh.Interpret.Subscribed.{
  find-assign_self, notify_connection_opened_lem, get_type-add_type_self,
}
use web_socket_sh.Interpret.Answered.{call-answered}

module _ ⦃x : Externals⦄ where
  open x use {DynamicType, DynamicData, Node, to_json, to_data, on_response, dump, type_name}

  -- The text of an advertisement.
  abbrev pub advertisement : Text → DynamicType → DynamicType → Json
  advertisement service request reply = obj (
      advertise_service_msg service (transform_type (type_name request))
        (transform_type (type_name reply)))

  -- What the offer of a service leaves.
  create_client_proxy_lem :
      (service : Text) (request reply : DynamicType) (callback : ℕ) (node : Node) (f : Endpoint)
      → is_empty (type_name request) ≡ false
      → is_empty (type_name reply) ≡ false
      → let after = (create_client_proxy service request reply callback node f).1 in
        (after.startup_messages
          ≡ f.startup_messages ++ dump (advertisement service request reply) ∷ [])
        × (find service after.client_proxy_info
            ≡ some (client_proxy (type_name request) (type_name reply) callback node))
        × (find service after.encoding.types_by_service
            ≡ some (transform_type (type_name request), transform_type (type_name reply)))
        × (get_type (transform_type (type_name request)) after.encoding
            ≡ some (first_of_name (get_type (type_name request) f.encoding) request))
  unfolding create_client_proxy encode_advertise_service_msg get_type
  create_client_proxy_lem service request reply callback node f named_request named_reply =
      let req = type_name request in
      let rep = type_name reply in
      let with_request = (add_type request req f.encoding).1 in
      let known = (add_type reply rep with_request).1 in
      (
        refl,
        find-assign_self service (client_proxy req rep callback node) f.client_proxy_info,
        find-assign_self service (transform_type req, transform_type rep) known.types_by_service,
        get_type-transform_type req known
            ∙ get_type-add_type_kept reply _ rep req with_request named_reply
                (get_type-add_type_self request req f.encoding named_request),
      )

  -- The names of the types stay when a service is learnt.
  get_type-learn_service :
      (msg : Json) (service name : Text) (request reply : DynamicType) (c : Connection)
      (e : Endpoint)
      → get_type name
          (learn_service msg (receive_service_advertisement_ws service request reply c e)).encoding
        ≡ get_type name e.encoding
  unfolding learn_service receive_service_advertisement_ws get_type
  get_type-learn_service msg service name request reply c e = refl

  -- When the core of an endpoint offers a service and a connection opens then, the advertisement
  -- is the last of the messages that the connection is sent. At the other end, which knows both
  -- types, a call of the service is then one text to that connection, which calls the service with
  -- the request that it makes of the JSON by its own type; and an answer that the service gives,
  -- in whatever state its endpoint is then, is one text to the caller, which calls the client back
  -- there and ends the call. The name of the service and those of the types have nothing to
  -- escape, the parser reads back the three printed messages, the conversions succeed and the
  -- callback returns.
  pub offered-answered :
      (json : PrintsJson x) (service : Text) (req_type rep_type known_req known_rep : DynamicType)
      (callback : ℕ) (node : Node) (asked request response reply : DynamicData) (v v' w w' : Json)
      (client handle : ℕ) (c d : Connection) (e f g : Endpoint)
      → IsPlain service
      → IsPlain (transform_type (type_name req_type))
      → IsPlain (transform_type (type_name rep_type))
      → is_empty (type_name req_type) ≡ false
      → is_empty (type_name rep_type) ≡ false
      → ParsesBack (advertisement service req_type rep_type)
      → get_type (type_name req_type) e.encoding ≡ some known_req
      → get_type (type_name rep_type) e.encoding ≡ some known_rep
      → to_json asked ≡ converted v
      → ParsesBack (obj (call_service_msg service (to_string e.next_service_call_id) v))
      → to_data (first_of_name (get_type (type_name req_type) f.encoding) req_type) v
        ≡ converted request
      → to_json request ≡ converted v'
      → to_json response ≡ converted w
      → ParsesBack (obj (service_response_msg service (to_string e.next_service_call_id) w true))
      → to_data known_rep w ≡ converted reply
      → to_json reply ≡ converted w'
      → on_response client handle reply ≡ converted tt
      → let id = to_string e.next_service_call_id in
        let text = dump (advertisement service req_type rep_type) in
        let server =
          notify_connection_opened d
            (create_client_proxy service req_type rep_type callback node f).1 in
        let caller = (interpret_websocket_msg text c e).1 in
        let (outcome, called) = call_service service asked client handle caller in
        let info = client_proxy (type_name req_type) (type_name rep_type) callback node in
        let call = make_call_handle service info id d in
        (server.events ≡ f.events ++ map (sent (transport f) d) (f.startup_messages ++ text ∷ []))
        × ((call_text answer_text : Text) × (outcome ≡ ok tt)
            × (called.events ≡ caller.events ++ sent (transport caller) c call_text ∷ [])
            × ((interpret_websocket_msg call_text d server).1.events
                ≡ server.events ++ requested info.callback request call ∷ [])
            × ((receive_response call response g).events
                ≡ g.events ++ sent (transport g) d answer_text ∷ [])
            × ((interpret_websocket_msg answer_text c called).1.events
                ≡ called.events ++ responded client handle reply ∷ [])
            × (pending (interpret_websocket_msg answer_text c called).1 id ≡ none))
  unfolding learn_service receive_service_advertisement_ws
  offered-answered json service req_type rep_type known_req known_rep callback node asked request
        response reply v v' w w' client handle c d e f g plain plain_req plain_rep named_req
        named_rep back typed_req typed_rep encoded call_back decoded v'_of answered answer_back
        decoded' w'_of returns =
      let req = type_name req_type in
      let rep = type_name rep_type in
      let f1 = (create_client_proxy service req_type rep_type callback node f).1 in
      let opened = notify_connection_opened_lem d f1 in
      let (started, served, requests, req_known) =
        create_client_proxy_lem service req_type rep_type callback node f named_req named_rep in
      let (understood, provides, replies) =
        advertisement_understood json service req rep known_req known_rep c e plain plain_req
          plain_rep back typed_req typed_rep in
      let msg = advertisement service req_type rep_type in
      let asking =
        learn_service msg (receive_service_advertisement_ws service known_req known_rep c e) in
      (
        ap (λ h. h.events) opened
            ∙ (unfold create_client_proxy in
                ap (λ l. f.events ++ map (sent (transport f) d) l) started),
        rw understood (
            call-answered json service (transform_type req) (transform_type rep)
              (transform_type req) (transform_type rep) asked request response reply v v' w w'
              (first_of_name (get_type req f.encoding) req_type) known_rep client handle c d _
              (client_proxy req rep callback node) asking (notify_connection_opened d f1) g plain
              provides refl replies
              (get_type-transform_type rep asking.encoding
                ∙ get_type-learn_service msg service rep known_req known_rep c e
                ∙ typed_rep)
              (ap (λ h. find service h.client_proxy_info) opened ∙ served)
              (ap (λ h. find service h.encoding.types_by_service) opened ∙ requests)
              (ap (λ h. get_type (transform_type req) h.encoding) opened ∙ req_known) encoded
              call_back decoded v'_of answered answer_back decoded' w'_of returns),
      )
