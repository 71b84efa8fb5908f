-- ===== src/Endpoint/Operations.antt =====
-- The operations of the core (src/Endpoint.cpp) keep the tables well-formed.
use web_socket_sh.Prelude.{
  ℕ, ◌+◌, ◌<◌, ◌≡◌, refl, ap, sym, subst, Option, none, some, inl, inr, Bool, Option-cases,
  Bool-cases,
}
use web_socket_sh.Text.{Text, is_empty, text_eq}
use web_socket_sh.Dict.{find}
use web_socket_sh.Dict.Unique.{assign-IsUnique}
use web_socket_sh.External.{Externals}
use web_socket_sh.Encoding.{encode_call_service_msg}
use web_socket_sh.Endpoint.{
  Endpoint, Connection, CallHandle, ServiceProviderInfo, size_mod, make_endpoint,
}
use web_socket_sh.Endpoint.Sending.{send_lem}
use web_socket_sh.Endpoint.Tables.{tables, tables-publish, tables-send_payload}
use web_socket_sh.Endpoint.Setup.{
  subscribe, create_client_proxy, create_client_proxy_one_type, create_service_proxy,
  create_service_proxy_one_type, startup_advertisement,
}
use web_socket_sh.Endpoint.Traffic.{
  publish, register_call, send_call, call_provider, call_service, receive_response,
}
use web_socket_sh.Endpoint.WellFormed.{
  IsWellFormed, with_subscribed, with_published, with_proxies, with_providers, with_startup,
  with_request,
}

module _ ⦃x : Externals⦄ where
  open x use {DynamicType, DynamicData, Node}

  abbrev pub IsConsistent : Endpoint → Type 0
  IsConsistent e = IsWellFormed (tables e)

  pub subscribe-IsConsistent :
      (topic : Text) (type : DynamicType) (callback : ℕ) (node : Node) (e : Endpoint)
      → IsConsistent e
      → IsConsistent (subscribe topic type callback node e).1
  unfolding subscribe
  subscribe-IsConsistent topic type callback node e h =
      with_startup _ _ (
        with_subscribed (tables e) _ (assign-IsUnique topic _ e.topic_subscribe_info h.subscribed)
          h)

  pub startup_advertisement-IsConsistent :
      (topic : Text) (type : DynamicType) (id : Text) (node : Node) (e : Endpoint)
      → IsConsistent e
      → IsConsistent (startup_advertisement topic type id node e)
  unfolding startup_advertisement
  startup_advertisement-IsConsistent topic type id node e h =
      with_startup _ _
        (with_published (tables e) _ (assign-IsUnique topic _ e.topic_publish_info h.published) h)

  pub create_client_proxy-IsConsistent :
      (service : Text) (request reply : DynamicType) (callback : ℕ) (node : Node) (e : Endpoint)
      → IsConsistent e
      → IsConsistent (create_client_proxy service request reply callback node e).1
  unfolding create_client_proxy
  create_client_proxy-IsConsistent service request reply callback node e h =
      with_startup _ _
        (with_proxies (tables e) _ (assign-IsUnique service _ e.client_proxy_info h.proxies) h)

  pub create_client_proxy_one_type-IsConsistent :
      (service : Text) (type : DynamicType) (callback : ℕ) (node : Node) (e : Endpoint)
      → IsConsistent e
      → IsConsistent (create_client_proxy_one_type service type callback node e).1
  unfolding create_client_proxy_one_type
  create_client_proxy_one_type-IsConsistent service type callback node e h =
      with_proxies (tables e) _ (assign-IsUnique service _ e.client_proxy_info h.proxies) h

  pub create_service_proxy-IsConsistent :
      (service : Text) (request reply : DynamicType) (node : Node) (e : Endpoint)
      → IsConsistent e
      → IsConsistent (create_service_proxy service request reply node e)
  unfolding create_service_proxy
  create_service_proxy-IsConsistent service request reply node e h =
      with_providers (tables e) _ (assign-IsUnique service _ e.service_provider_info h.providers) h

  pub create_service_proxy_one_type-IsConsistent :
      (service : Text) (type : DynamicType) (node : Node) (e : Endpoint)
      → IsConsistent e
      → IsConsistent (create_service_proxy_one_type service type node e)
  unfolding create_service_proxy_one_type
  create_service_proxy_one_type-IsConsistent service type node e h =
      with_providers (tables e) _ (assign-IsUnique service _ e.service_provider_info h.providers) h

  pub publish-IsConsistent :
      (topic : Text) (message : DynamicData) (e : Endpoint)
      → IsConsistent e
      → IsConsistent (publish topic message e).1
  publish-IsConsistent topic message e h =
      subst IsWellFormed (sym (tables-publish topic message e)) h

  pub receive_response-IsConsistent :
      (handle : CallHandle) (response : DynamicData) (e : Endpoint)
      → IsConsistent e
      → IsConsistent (receive_response handle response e)
  unfolding receive_response
  receive_response-IsConsistent handle response e h =
      subst IsWellFormed (sym (tables-send_payload handle.connection_handle _ _)) h

  tables-send_call :
      (c : Option Connection) (payload : Text) (e : Endpoint)
      → tables (send_call c payload e).1 ≡ tables e
  unfolding send_call
  tables-send_call none payload e = refl
  tables-send_call (some c) payload e = ap tables (send_lem c payload e)

  tables-call_provider :
      (service : Text) (request : DynamicData) (id : Text) (p : ServiceProviderInfo) (e : Endpoint)
      → tables (call_provider service request id p e).1 ≡ tables e
  unfolding call_provider
  tables-call_provider service request id p e =
      let r = encode_call_service_msg service p.req_type request id p.configuration e.encoding in
      elim (Bool-cases (is_empty r.0)) [
        | inl q ↦ rw (q, call_provider)
        | inr q ↦
            rw (q, call_provider)
              (tables-send_call p.connection_handle r.0 (record e { encoding = r.1 }))
      ]

  pub tables-call_service :
      (service : Text) (request : DynamicData) (client handle : ℕ) (e : Endpoint)
      → tables (call_service service request client handle e).1
        ≡ tables (register_call client handle e).1
  unfolding call_service
  tables-call_service service request client handle e =
      let (id, f) = register_call client handle e in
      elim (Option-cases (find service f.service_provider_info)) [
        | inl q ↦ rw (q, call_service)
        | inr (p, q) ↦ rw (q, call_service) (tables-call_provider service request id p f)
      ]

  pub call_service-IsConsistent :
      (service : Text) (request : DynamicData) (client handle : ℕ) (e : Endpoint)
      → e.next_service_call_id + 1 < size_mod
      → IsConsistent e
      → IsConsistent (call_service service request client handle e).1
  call_service-IsConsistent service request client handle e room h =
      subst IsWellFormed (sym (tables-call_service service request client handle e)) (
        unfold register_call in
        with_request (tables e) (record { client = client; call_handle = handle }) room h)

  pub make_endpoint-IsConsistent : (use_security : Bool) → IsConsistent (make_endpoint use_security)
  unfolding make_endpoint find
  make_endpoint-IsConsistent use_security = record {
    subscribed = tt;
    published = tt;
    proxies = tt;
    providers = tt;
    requests = tt;
    fresh = λ n le. refl;
  }
