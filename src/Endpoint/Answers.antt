-- ===== src/Endpoint/Answers.antt =====
-- An answer that comes in goes to the caller that waits for it, and an answer that goes out goes to
-- the connection that asked.
use web_socket_sh.Prelude.{
  ◌≡◌, refl, ◌∙◌, true, none, some, [], ◌∷◌, ◌++◌, ◌==◌, ==-refl, if◌then◌else◌,
}
use web_socket_sh.Text.{Text, text_eq}
use web_socket_sh.Dict.{find, erase, find-erase}
use web_socket_sh.Json.{Json, obj}
use web_socket_sh.External.{Externals, converted, PrintsJson}
use web_socket_sh.Encoding.Message.{service_response_msg}
use web_socket_sh.Encoding.{encode_service_response_msg}
use web_socket_sh.Endpoint.{
  Endpoint, Connection, CallHandle, ClientProxyInfo, ServiceRequestInfo, sent, requested, responded,
  emit,
}
use web_socket_sh.Endpoint.Sending.{transport, send_lem}
use web_socket_sh.Endpoint.Traffic.{send_payload, receive_response}
use web_socket_sh.Endpoint.Receive.{
  make_call_handle, receive_service_request_ws, respond, receive_service_response_ws,
}
use web_socket_sh.Endpoint.Calls.{pending}

module _ ⦃x : Externals⦄ where
  open x use {DynamicData, to_json, on_response, dump}

  unknown_response :
      (service id : Text) (response : DynamicData) (c : Connection) (e : Endpoint)
      → pending e id ≡ none
      → receive_service_response_ws service response id c e ≡ e
  unfolding receive_service_response_ws
  unknown_response service id response c e p = rw (p, receive_service_response_ws)

  pub known_response :
      (service id : Text) (response : DynamicData) (v : Json) (c : Connection) (e : Endpoint)
      (info : ServiceRequestInfo)
      → pending e id ≡ some info
      → to_json response ≡ converted v
      → on_response info.client info.call_handle response ≡ converted tt
      → receive_service_response_ws service response id c e ≡ record e {
        events = e.events ++ responded info.client info.call_handle response ∷ [];
        service_request_info = erase id e.service_request_info;
      }
  unfolding receive_service_response_ws respond
  known_response service id response v c e info p q r =
      rw (p, receive_service_response_ws) (rw q (rw (r, respond)))

  -- A response to a pending call, whose callback returns, calls the client back once with its own
  -- handle, ends that pending call and no other, and is ignored when it comes again.
  pub answer_once :
      (service id : Text) (response : DynamicData) (v : Json) (c d : Connection) (e : Endpoint)
      (info : ServiceRequestInfo) (other : Text)
      → pending e id ≡ some info
      → to_json response ≡ converted v
      → on_response info.client info.call_handle response ≡ converted tt
      → let after = receive_service_response_ws service response id c e in
        (after.events ≡ e.events ++ responded info.client info.call_handle response ∷ [])
        × (pending after other ≡ (if id == other then none else pending e other))
        × (receive_service_response_ws service response id d after ≡ after)
  answer_once service id response v c d e info other p q r =
      rw (known_response service id response v c e info p q r) (
        refl,
        find-erase id other e.service_request_info,
        unknown_response service id response d _
            (find-erase id id e.service_request_info ∙ rw (==-refl id)),
      )

  pub request_lem :
      (service id : Text) (request : DynamicData) (v : Json) (c : Connection) (e : Endpoint)
      (info : ClientProxyInfo)
      → find service e.client_proxy_info ≡ some info
      → to_json request ≡ converted v
      → receive_service_request_ws service request id c e
        ≡ emit (requested info.callback request (make_call_handle service info id c)) e
  unfolding receive_service_request_ws
  request_lem service id request v c e info p q = rw (p, receive_service_request_ws) (rw q)

  pub receive_response_lem :
      (json : PrintsJson x) (handle : CallHandle) (response : DynamicData) (w : Json) (e : Endpoint)
      → to_json response ≡ converted w
      → receive_response handle response e
        ≡ emit
            (sent
              (transport e)
              handle.connection_handle
              (dump (obj (service_response_msg handle.service_name handle.id w true))))
            (record e {
              encoding =
                  (encode_service_response_msg handle.service_name handle.reply_type handle.id
                    response true e.encoding).1;
            })
  unfolding receive_response send_payload encode_service_response_msg
  receive_response_lem json handle response w e q =
      rw (q, encode_service_response_msg)
        (rw (json.dump-is_empty (obj (service_response_msg handle.service_name handle.id w true)))
          (send_lem handle.connection_handle _ _))

  -- A request for a service of ours, that converts to JSON, calls the service with a handle, and
  -- an answer given under that handle goes to the connection that asked, under the id that it
  -- sent.
  pub answer_goes_back :
      (json : PrintsJson x) (service id : Text) (request response : DynamicData) (v w : Json)
      (c : Connection) (e : Endpoint) (info : ClientProxyInfo)
      → find service e.client_proxy_info ≡ some info
      → to_json request ≡ converted v
      → to_json response ≡ converted w
      → let handle = make_call_handle service info id c in
        let asked = receive_service_request_ws service request id c e in
        (asked.events ≡ e.events ++ requested info.callback request handle ∷ [])
        × ((receive_response handle response asked).events
            ≡ asked.events
              ++ sent (transport e) c (dump (obj (service_response_msg service id w true))) ∷ [])
  unfolding make_call_handle
  answer_goes_back json service id request response v w c e info p q r =
      let handle = make_call_handle service info id c in
      rw
        (
          request_lem service id request v c e info p q,
          receive_response_lem json handle response w
              (emit (requested info.callback request handle) e) r,
        )
        (refl, refl)
