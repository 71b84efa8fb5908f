-- ===== src/Interpret/Answered.antt =====
-- A call of a service, from one endpoint to another and back.
use web_socket_sh.Prelude.{
  ℕ, ◌≡◌, refl, ◌∙◌, ap, sym, none, some, [], ◌∷◌, ◌++◌, true, All-weaken, ==-refl, arith,
}
use web_socket_sh.Text.{Text, text_eq}
use web_socket_sh.Dict.{find, find-assign}
use web_socket_sh.Decimal.{to_string, IsDigit, to_string-IsDigit}
use web_socket_sh.Names.{transform_type}
use web_socket_sh.Json.{Json, obj}
use web_socket_sh.External.{Externals, PrintsJson, IsPlain, converted}
use web_socket_sh.Encoding.Message.{call_service_msg, service_response_msg}
use web_socket_sh.Encoding.{
  JsonEncoding, get_type, set_request_type, encode_call_service_msg, encode_service_response_msg,
}
use web_socket_sh.Endpoint.{
  Endpoint, Connection, ClientProxyInfo, ServiceProviderInfo, ServiceRequestInfo, ok, sent,
  requested, responded, emit,
}
use web_socket_sh.Endpoint.Sending.{transport, send_lem}
use web_socket_sh.Endpoint.Traffic.{register_call, call_provider, call_service, receive_response}
use web_socket_sh.Endpoint.Receive.{make_call_handle}
use web_socket_sh.Endpoint.Calls.{pending, pending-call_service}
use web_socket_sh.Endpoint.Answers.{request_lem, receive_response_lem, answer_once}
use web_socket_sh.Interpret.{interpret_websocket_msg}
use web_socket_sh.Interpret.Dispatching.{ParsesBack}
use web_socket_sh.Interpret.Services.{interpret-call_service, interpret-service_response}

-- The ids of calls need no escapes.
to_string-IsPlain : (n : ℕ) → IsPlain (to_string n)
to_string-IsPlain n =
    All-weaken IsDigit _
      (λ c (d : IsDigit c). (omega arith, omega arith, λ e. omega arith, λ e. omega arith))
      (to_string n) (to_string-IsDigit n)

module _ ⦃x : Externals⦄ where
  open x use {DynamicType, DynamicData, Node, to_json, to_data, on_response, dump, empty_node}

  -- A call leaves the types that are known, and the name of the reply type, as they were.
  set_request_type_lem :
      (service own req rep : Text) (e : JsonEncoding)
      → find service e.types_by_service ≡ some (own, rep)
      → (find service (set_request_type service req e).types_by_service ≡ some (req, rep))
        × (get_type rep (set_request_type service req e) ≡ get_type rep e)
  unfolding set_request_type get_type
  set_request_type_lem service own req rep e p =
      rw (p, set_request_type)
        (find-assign service service (req, rep) e.types_by_service ∙ rw (==-refl service), refl)

  -- The state after a call of a known service.
  call_service_lem :
      (json : PrintsJson x) (service : Text) (request : DynamicData) (v : Json) (client handle : ℕ)
      (c : Connection) (provider : ServiceProviderInfo) (e : Endpoint)
      → find service e.service_provider_info ≡ some provider
      → provider.connection_handle ≡ some c
      → to_json request ≡ converted v
      → let (id, registered) = register_call client handle e in
        call_service service request client handle e ≡ (
          ok tt,
          emit
              (sent (transport e) c (dump (obj (call_service_msg service id v))))
              (record registered {
                encoding = set_request_type service (transform_type provider.req_type) e.encoding;
              }),
        )
  unfolding call_service call_provider encode_call_service_msg
  call_service_lem json service request v client handle c provider e p q r =
      let id = to_string e.next_service_call_id in
      let text = dump (obj (call_service_msg service id v)) in
      rw (p, call_service)
        (rw (r, encode_call_service_msg)
          (rw (json.dump-is_empty (obj (call_service_msg service id v)), q)
            (unfold register_call in ap (λ after. (ok tt, after)) (send_lem c text _))))

  -- The text of a call, at the endpoint that has the service.
  request_understood :
      (json : PrintsJson x) (service id req rep : Text) (asked request : DynamicData) (v v' : Json)
      (type : DynamicType) (d : Connection) (info : ClientProxyInfo) (f : Endpoint)
      → IsPlain service
      → IsPlain id
      → find service f.client_proxy_info ≡ some info
      → find service f.encoding.types_by_service ≡ some (req, rep)
      → get_type req f.encoding ≡ some type
      → to_json asked ≡ converted v
      → ParsesBack (obj (call_service_msg service id v))
      → to_data type v ≡ converted request
      → to_json request ≡ converted v'
      → interpret_websocket_msg (dump (obj (call_service_msg service id v))) d f
        ≡ (ok tt, emit (requested info.callback request (make_call_handle service info id d)) f)
  unfolding encode_call_service_msg
  request_understood json service id req rep asked request v v' type d info f plain plain_id served
        requests known encoded back decoded v'_of =
      let written : (encode_call_service_msg service [] asked id empty_node f.encoding).0
          ≡ dump (obj (call_service_msg service id v)) =
        rw (encoded, encode_call_service_msg) refl in
      ap (λ t. interpret_websocket_msg t d f) (sym written)
      ∙ interpret-call_service json service [] req rep id asked request v type empty_node f.encoding
          d f plain plain_id encoded back requests known decoded
      ∙ ap (λ after. (ok tt, after)) (request_lem service id request v' d f info served v'_of)

  -- The text of an answer, at the endpoint that waits for it.
  answer_understood :
      (json : PrintsJson x) (service id req rep : Text) (response reply : DynamicData) (w w' : Json)
      (type : DynamicType) (c : Connection) (info : ServiceRequestInfo) (h : Endpoint)
      → IsPlain service
      → IsPlain id
      → pending h id ≡ some info
      → find service h.encoding.types_by_service ≡ some (req, rep)
      → get_type rep h.encoding ≡ some type
      → to_json response ≡ converted w
      → ParsesBack (obj (service_response_msg service id w true))
      → to_data type w ≡ converted reply
      → to_json reply ≡ converted w'
      → on_response info.client info.call_handle reply ≡ converted tt
      → let after =
          (interpret_websocket_msg (dump (obj (service_response_msg service id w true))) c h).1 in
        (after.events ≡ h.events ++ responded info.client info.call_handle reply ∷ [])
        × (pending after id ≡ none)
  unfolding encode_service_response_msg
  answer_understood json service id req rep response reply w w' type c info h plain plain_id waits
        replies known answered back decoded w'_of returns =
      let written : (encode_service_response_msg service [] id response true h.encoding).0
          ≡ dump (obj (service_response_msg service id w true)) =
        rw (answered, encode_service_response_msg) refl in
      let understood =
        ap (λ t. (interpret_websocket_msg t c h).1) (sym written)
        ∙ ap (λ r. r.1)
            (interpret-service_response json service [] req rep id true response reply w type
              h.encoding c h plain plain_id answered back replies known decoded) in
      let once = answer_once service id reply w' c c h info id waits w'_of returns in
      (
        ap (λ k. k.events) understood ∙ once.0,
        ap (λ k. pending k id) understood ∙ once.1 ∙ rw (==-refl id) refl,
      )

  -- An endpoint that calls a service sends one text to the provider of the service; at the other
  -- end that text calls the service with the request that it makes of the JSON by its own type; an
  -- answer that the service gives, in whatever state its endpoint is then, is one text to the
  -- caller, which calls the client back there with the reply that it makes of the JSON, and ends
  -- the call. The name of the service has nothing to escape, the parser reads back the two printed
  -- messages, the conversions succeed, the callback returns, and the two sides know the types of
  -- the service.
  pub call-answered :
      (json : PrintsJson x) (service own rep req rep' : Text)
      (asked request response reply : DynamicData) (v v' w w' : Json)
      (req_type rep_type : DynamicType) (client handle : ℕ) (c d : Connection)
      (provider : ServiceProviderInfo) (info : ClientProxyInfo) (e f g : Endpoint)
      → IsPlain service
      → find service e.service_provider_info ≡ some provider
      → provider.connection_handle ≡ some c
      → find service e.encoding.types_by_service ≡ some (own, rep)
      → get_type rep e.encoding ≡ some rep_type
      → find service f.client_proxy_info ≡ some info
      → find service f.encoding.types_by_service ≡ some (req, rep')
      → get_type req f.encoding ≡ some req_type
      → to_json asked ≡ converted v
      → ParsesBack (obj (call_service_msg service (to_string e.next_service_call_id) v))
      → to_data req_type v ≡ converted request
      → to_json request ≡ converted v'
      → to_json response ≡ converted w
      → ParsesBack (obj (service_response_msg service (to_string e.next_service_call_id) w true))
      → to_data rep_type w ≡ converted reply
      → to_json reply ≡ converted w'
      → on_response client handle reply ≡ converted tt
      → let id = to_string e.next_service_call_id in
        let (outcome, called) = call_service service asked client handle e in
        let call = make_call_handle service info id d in
        (call_text answer_text : Text) × (outcome ≡ ok tt)
        × (called.events ≡ e.events ++ sent (transport e) c call_text ∷ [])
        × ((interpret_websocket_msg call_text d f).1.events
            ≡ f.events ++ requested info.callback request call ∷ [])
        × ((receive_response call response g).events
            ≡ g.events ++ sent (transport g) d answer_text ∷ [])
        × ((interpret_websocket_msg answer_text c called).1.events
            ≡ called.events ++ responded client handle reply ∷ [])
        × (pending (interpret_websocket_msg answer_text c called).1 id ≡ none)
  call-answered json service own rep req rep' asked request response reply v v' w w' req_type
        rep_type client handle c d provider info e f g plain provides connected replies replied
        served requests req_known encoded back decoded v'_of answered back' decoded' w'_of returns =
      let id = to_string e.next_service_call_id in
      let plain_id = to_string-IsPlain e.next_service_call_id in
      let called =
        call_service_lem json service asked v client handle c provider e provides connected
          encoded in
      let h = (call_service service asked client handle e).1 in
      let kept =
        set_request_type_lem service own (transform_type provider.req_type) rep e.encoding
          replies in
      let understood =
        answer_understood json service id (transform_type provider.req_type) rep response reply w w'
          rep_type c (record { client = client; call_handle = handle }) h plain plain_id
          (pending-call_service service asked client handle e id ∙ rw (==-refl id) refl)
          (ap (λ r. find service r.1.encoding.types_by_service) called ∙ kept.0)
          (ap (λ r. get_type rep r.1.encoding) called ∙ kept.1 ∙ replied) answered back' decoded'
          w'_of returns in
      (
        dump (obj (call_service_msg service id v)),
        dump (obj (service_response_msg service id w true)),
        ap (λ r. r.0) called,
        ap (λ r. r.1.events) called ∙ (unfold register_call in refl),
        ap (λ r. r.1.events)
            (request_understood json service id req rep' asked request v v' req_type d info f plain
              plain_id served requests req_known encoded back decoded v'_of),
        ap (λ k. k.events)
              (receive_response_lem json (make_call_handle service info id d) response w g answered)
            ∙ (unfold make_call_handle in refl),
        understood.0,
        understood.1,
      )
