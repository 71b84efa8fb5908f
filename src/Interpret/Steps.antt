-- ===== src/Interpret/Steps.antt =====
-- What happens to an endpoint, one call or message after the other (src/Endpoint.cpp,
-- src/json_encoding.cpp), and what holds in every state that it reaches.
use web_socket_sh.Prelude.{ℕ, ◌+◌, ◌<◌, ◌≡◌, sym, subst, Bool, some}
use web_socket_sh.Text.{Text}
use web_socket_sh.External.{Externals}
use web_socket_sh.Endpoint.{
  Endpoint, Connection, CallHandle, ServiceRequestInfo, size_mod, make_endpoint,
}
use web_socket_sh.Endpoint.Setup.{
  subscribe, create_client_proxy, create_client_proxy_one_type, create_service_proxy,
  create_service_proxy_one_type, startup_advertisement,
}
use web_socket_sh.Endpoint.Traffic.{publish, call_service, receive_response}
use web_socket_sh.Endpoint.Lifetime.{notify_connection_opened, notify_connection_closed}
use web_socket_sh.Endpoint.Calls.{pending, call_service_keeps_pending}
use web_socket_sh.Endpoint.Closing.{provider, without_provider, provider-notify_connection_closed}
use web_socket_sh.Endpoint.Tables.{tables}
use web_socket_sh.Endpoint.WellFormed.{IsWellFormed}
use web_socket_sh.Endpoint.Operations
use web_socket_sh.Endpoint.Operations.{IsConsistent}
use web_socket_sh.Endpoint.Handlers.{connection_opened-IsConsistent, connection_closed-IsConsistent}
use web_socket_sh.Interpret.{interpret_websocket_msg}
use web_socket_sh.Interpret.Safety.{interpret_websocket_msg-IsConsistent}

module _ ⦃x : Externals⦄ where
  open x use {DynamicType, DynamicData, Node}

  -- One call of the core, one message of a peer, or one connection that opens or closes. The ids of
  -- calls do not wrap. An advertisement at run time only sends.
  pub data Step : Endpoint → Endpoint → Type 0 where
    subscribing :
        (topic : Text) (type : DynamicType) (callback : ℕ) (node : Node) (e : Endpoint)
        → Step e (subscribe topic type callback node e).1
    advertising :
        (topic : Text) (type : DynamicType) (id : Text) (node : Node) (e : Endpoint)
        → Step e (startup_advertisement topic type id node e)
    client_proxy :
        (service : Text) (request reply : DynamicType) (callback : ℕ) (node : Node) (e : Endpoint)
        → Step e (create_client_proxy service request reply callback node e).1
    client_proxy_one_type :
        (service : Text) (type : DynamicType) (callback : ℕ) (node : Node) (e : Endpoint)
        → Step e (create_client_proxy_one_type service type callback node e).1
    service_proxy :
        (service : Text) (request reply : DynamicType) (node : Node) (e : Endpoint)
        → Step e (create_service_proxy service request reply node e)
    service_proxy_one_type :
        (service : Text) (type : DynamicType) (node : Node) (e : Endpoint)
        → Step e (create_service_proxy_one_type service type node e)
    publishing :
        (topic : Text) (message : DynamicData) (e : Endpoint) → Step e (publish topic message e).1
    calling :
        (service : Text) (request : DynamicData) (client handle : ℕ) (e : Endpoint)
        → e.next_service_call_id + 1 < size_mod
        → Step e (call_service service request client handle e).1
    answering :
        (handle : CallHandle) (response : DynamicData) (e : Endpoint)
        → Step e (receive_response handle response e)
    hearing :
        (text : Text) (c : Connection) (e : Endpoint) → Step e (interpret_websocket_msg text c e).1
    sending : (e f : Endpoint) → tables f ≡ tables e → Step e f
    opened : (c : Connection) (e : Endpoint) → Step e (notify_connection_opened c e)
    closed : (c : Connection) (e : Endpoint) → Step e (notify_connection_closed c e)

  pub data Reach (s : Endpoint) : Endpoint → Type 0 where
    here : Reach s s
    next : {t u : Endpoint} → Reach s t → Step t u → Reach s u

  Step-IsConsistent : {s t : Endpoint} → Step s t → IsConsistent s → IsConsistent t
  Step-IsConsistent (subscribing topic type callback node e) h =
      Operations.subscribe-IsConsistent topic type callback node e h
  Step-IsConsistent (advertising topic type id node e) h =
      Operations.startup_advertisement-IsConsistent topic type id node e h
  Step-IsConsistent (client_proxy service request reply callback node e) h =
      Operations.create_client_proxy-IsConsistent service request reply callback node e h
  Step-IsConsistent (client_proxy_one_type service type callback node e) h =
      Operations.create_client_proxy_one_type-IsConsistent service type callback node e h
  Step-IsConsistent (service_proxy service request reply node e) h =
      Operations.create_service_proxy-IsConsistent service request reply node e h
  Step-IsConsistent (service_proxy_one_type service type node e) h =
      Operations.create_service_proxy_one_type-IsConsistent service type node e h
  Step-IsConsistent (publishing topic message e) h =
      Operations.publish-IsConsistent topic message e h
  Step-IsConsistent (calling service request client handle e room) h =
      Operations.call_service-IsConsistent service request client handle e room h
  Step-IsConsistent (answering handle response e) h =
      Operations.receive_response-IsConsistent handle response e h
  Step-IsConsistent (hearing text c e) h = interpret_websocket_msg-IsConsistent text c e h
  Step-IsConsistent (sending e f p) h = subst IsWellFormed (sym p) h
  Step-IsConsistent (opened c e) h = connection_opened-IsConsistent c e h
  Step-IsConsistent (closed c e) h = connection_closed-IsConsistent c e h

  -- In every state that an endpoint reaches from its construction, by calls of the core, messages
  -- of peers and connections that open and close, while fewer than 2^64 calls are made, no table
  -- holds a key twice and the ids of calls to come are unused.
  pub Reach-IsConsistent :
      (use_security : Bool) (e : Endpoint) → Reach (make_endpoint use_security) e → IsConsistent e
  Reach-IsConsistent use_security e here = Operations.make_endpoint-IsConsistent use_security
  Reach-IsConsistent use_security e (next r step) =
      Step-IsConsistent step (Reach-IsConsistent use_security _ r)

  -- In a state that an endpoint reaches while fewer than 2^64 calls are made, a further call of a
  -- service never displaces a call that is pending.
  pub pending-reached :
      (use_security : Bool) (service : Text) (request : DynamicData) (client handle : ℕ)
      (e : Endpoint) (id : Text) (info : ServiceRequestInfo)
      → Reach (make_endpoint use_security) e
      → pending e id ≡ some info
      → pending (call_service service request client handle e).1 id ≡ some info
  pending-reached use_security service request client handle e id info r p =
      call_service_keeps_pending service request client handle e id info
        (record { unused = (Reach-IsConsistent use_security e r).fresh }) p

  -- In a state that an endpoint reaches while fewer than 2^64 calls are made, the closing of a
  -- connection ends exactly the services that this connection provides.
  pub provider-reached :
      (use_security : Bool) (e : Endpoint) (c : Connection) (service : Text)
      → Reach (make_endpoint use_security) e
      → provider (notify_connection_closed c e) service ≡ without_provider c (provider e service)
  provider-reached use_security e c service r =
      provider-notify_connection_closed e c service (Reach-IsConsistent use_security e r).providers
