-- ===== src/Endpoint/Calls.antt =====
-- Service calls: the ids of pending calls, and the way of an answer back to its caller.
use web_socket_sh.Prelude.{
  ℕ, ◌≤◌, ◌≡◌, refl, ap, ◌∙◌, Option, none, some, inl, inr, arith, ◌==◌, ==-refl, nat_eq,
  if◌then◌else◌, Option-cases, Bool-cases,
}
use web_socket_sh.Text.{Text, is_empty, text_beq_iff, text_eq}
use web_socket_sh.Dict.{find, find-assign}
use web_socket_sh.Decimal.{to_string}
use web_socket_sh.External.{Externals}
use web_socket_sh.Encoding.{encode_call_service_msg}
use web_socket_sh.Endpoint.{
  Endpoint, Connection, ServiceRequestInfo, ServiceProviderInfo, throws, out_of_range,
}
use web_socket_sh.Endpoint.Sending.{send_lem}
use web_socket_sh.Endpoint.Traffic.{register_call, send_call, call_provider, call_service}

module _ ⦃x : Externals⦄ where
  open x use {DynamicType, DynamicData, to_json, on_response, dump}

  -- The pending calls, by id.
  abbrev pub pending : Endpoint → Text → Option ServiceRequestInfo
  pending e id = find id e.service_request_info

  -- No id that is still to be given out is in use.
  pub record HasFreshIds (e : Endpoint) : Type 0 where
    pub unused : (n : ℕ) → e.next_service_call_id ≤ n → pending e (to_string n) ≡ none

  -- What `call_service` leaves alone after the id has been given out.
  abbrev SameCalls : Endpoint → Endpoint → Type 0
  SameCalls e f =
      (f.service_request_info ≡ e.service_request_info)
      × (f.next_service_call_id ≡ e.next_service_call_id)

  send_call_keeps :
      (h : Option Connection) (payload : Text) (e : Endpoint)
      → SameCalls e (send_call h payload e).1
  unfolding send_call
  send_call_keeps none payload e = (refl, refl)
  send_call_keeps (some c) payload e = rw (send_lem c payload e, send_call) (refl, refl)

  call_provider_keeps :
      (service : Text) (request : DynamicData) (id : Text) (p : ServiceProviderInfo) (e : Endpoint)
      → SameCalls e (call_provider service request id p e).1
  unfolding call_provider
  call_provider_keeps service request id p e =
      let r = encode_call_service_msg service p.req_type request id p.configuration e.encoding in
      elim (Bool-cases (is_empty r.0)) [
        | inl q ↦ rw q (refl, refl)
        | inr q ↦ rw q (send_call_keeps p.connection_handle r.0 (record e { encoding = r.1 }))
      ]

  call_service_keeps :
      (service : Text) (request : DynamicData) (client handle : ℕ) (e : Endpoint)
      → SameCalls (register_call client handle e).1 (call_service service request client handle e).1
  unfolding call_service
  call_service_keeps service request client handle e =
      let (id, f) = register_call client handle e in
      elim (Option-cases (find service f.service_provider_info)) [
        | inl q ↦ rw (q, call_service) (refl, refl)
        | inr (p, q) ↦ rw (q, call_service) (call_provider_keeps service request id p f)
      ]

  -- A call enters its caller under the next id, whatever comes of the call, and touches no other
  -- pending call.
  pub pending-call_service :
      (service : Text) (request : DynamicData) (client handle : ℕ) (e : Endpoint) (id : Text)
      → pending (call_service service request client handle e).1 id ≡ (
          if to_string e.next_service_call_id == id
          then some (record { client = client; call_handle = handle })
          else pending e id)
  pending-call_service service request client handle e id =
      ap (find id) (call_service_keeps service request client handle e).0
      ∙ (unfold register_call in
          find-assign (to_string e.next_service_call_id) id
            (record { client = client; call_handle = handle }) e.service_request_info)

  -- While the ids to come are unused, a call of a service never displaces a call that is pending.
  pub call_service_keeps_pending :
      (service : Text) (request : DynamicData) (client handle : ℕ) (e : Endpoint) (id : Text)
      (info : ServiceRequestInfo)
      → HasFreshIds e
      → pending e id ≡ some info
      → pending (call_service service request client handle e).1 id ≡ some info
  call_service_keeps_pending service request client handle e id info h p =
      let next = to_string e.next_service_call_id in
      let fresh : pending e next ≡ none = h.unused e.next_service_call_id (omega arith) in
      rw (pending-call_service service request client handle e id)
        (ground (arith, text_beq_iff next id, fresh, p))

  -- A call of a service without an entry throws after its id was registered: it stays pending,
  -- though nothing was sent.
  pub call_service_unknown :
      (service : Text) (request : DynamicData) (client handle : ℕ) (e : Endpoint)
      → find service e.service_provider_info ≡ none
      → let (outcome, after) = call_service service request client handle e in
        (outcome ≡ throws out_of_range)
        × (after.events ≡ e.events)
        × (pending after (to_string e.next_service_call_id)
            ≡ some (record { client = client; call_handle = handle }))
  unfolding call_service register_call
  call_service_unknown service request client handle e p =
      rw (p, call_service)
        (
          refl,
          refl,
          find-assign next next (record { client = client; call_handle = handle })
                e.service_request_info
              ∙ rw (==-refl next),
        )
    where
      next : Text
      next = to_string e.next_service_call_id
