-- ===== src/Endpoint/Traffic.antt =====
-- The operations of src/Endpoint.cpp that the core calls while the system runs.
use web_socket_sh.Prelude.{ℕ, ◌+◌, ◌%◌, Bool, true, Option, none, some, [], ◌∷◌, if◌then◌else◌}
use web_socket_sh.Text.{Text, is_empty, text_eq}
use web_socket_sh.Dict.{Dict, find, assign}
use web_socket_sh.Dict.HashSet.{HashSet}
use web_socket_sh.Decimal.{to_string}
use web_socket_sh.External.{Externals}
use web_socket_sh.Encoding.{
  encode_publication_msg, encode_call_service_msg, encode_service_response_msg,
}
use web_socket_sh.Endpoint.{
  Endpoint, Connection, CallHandle, ServiceProviderInfo, Run, ok, throws, out_of_range,
  bad_connection, send, size_mod,
}

module _ ⦃x : Externals⦄ where
  open x use {DynamicData, Node}

  -- `if (!payload.empty()) connection_handle->send(payload)`
  unfoldable pub send_payload : Connection → Text → Endpoint → Endpoint
  send_payload connection payload e = if is_empty payload then e else send connection payload e

  -- One round of the loop of `publish`: each listener gets its own encoding of the message.
  unfoldable pub publish_to : Text → Text → DynamicData → Connection → Endpoint → Endpoint
  unfolding send_payload
  publish_to topic type message connection e =
      let (payload, encoding) = encode_publication_msg topic type [] message e.encoding in
      send_payload connection payload (record e { encoding = encoding })

  unfoldable pub publish_loop :
      Text → Text → DynamicData → Dict Connection (HashSet Text) → Endpoint → Endpoint
  publish_loop topic type message [] e = e
  publish_loop topic type message ((connection, ids) ∷ listeners) e =
      publish_loop topic type message listeners (publish_to topic type message connection e)

  unfoldable pub publish : Text → DynamicData → Endpoint → Run Bool
  publish topic message e = elim (find topic e.topic_publish_info) [
    | none ↦ (throws out_of_range, e)
    | some info ↦ (ok true, publish_loop topic info.type message info.listeners e)
  ]

  -- The part under the lock: a fresh id for the call, and its entry among the pending requests.
  unfoldable pub register_call : ℕ → ℕ → Endpoint → Text × Endpoint
  register_call client call_handle e =
      let id_str = to_string e.next_service_call_id in
      (
        id_str,
        record e {
          next_service_call_id = (e.next_service_call_id + 1) % size_mod;
          service_request_info =
              assign id_str (record { client = client; call_handle = call_handle })
                e.service_request_info;
        },
      )

  -- `get_con_from_hdl(handle)->send(payload)`: a null handle is refused.
  unfoldable pub send_call : Option Connection → Text → Endpoint → Run (Unit {0})
  send_call none payload e = (throws bad_connection, e)
  send_call (some connection) payload e = (ok tt, send connection payload e)

  -- The rest, once the provider of the service is known.
  unfoldable pub call_provider :
      Text → DynamicData → Text → ServiceProviderInfo → Endpoint → Run (Unit {0})
  unfolding send_call
  call_provider service request id_str provider e =
      let (payload, encoding) =
        encode_call_service_msg service provider.req_type request id_str provider.configuration
          e.encoding in
      let e' = record e { encoding = encoding } in
      if is_empty payload then (ok tt, e') else send_call provider.connection_handle payload e'

  unfoldable pub call_service : Text → DynamicData → ℕ → ℕ → Endpoint → Run (Unit {0})
  unfolding register_call
  call_service service request client call_handle e =
      let (id_str, registered) = register_call client call_handle e in
      elim (find service registered.service_provider_info) [
        | none ↦ (throws out_of_range, registered)
        | some provider ↦ call_provider service request id_str provider registered
      ]

  -- The answer of a local service, for the connection that asked.
  unfoldable pub receive_response : CallHandle → DynamicData → Endpoint → Endpoint
  unfolding send_payload
  receive_response call_handle response e =
      let (payload, encoding) =
        encode_service_response_msg call_handle.service_name call_handle.reply_type call_handle.id
          response true e.encoding in
      send_payload call_handle.connection_handle payload (record e { encoding = encoding })
