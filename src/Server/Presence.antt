-- ===== src/Server/Presence.antt =====
-- The tables of the endpoint and the open connections of a server (src/Server.cpp).
use web_socket_sh.Prelude.{
  ◌≡◌, sym, ◌∙◌, ap, subst, true, false, Bool, Option, List, inl, inr, arith, Bool-cases, ◌==◌,
  nat_eq, nat_beq_iff,
}
use web_socket_sh.Text.{Text, text_eq}
use web_socket_sh.Dict.HashSet.{HashSet, contains, contains-insert, contains-remove}
use web_socket_sh.External.{Externals}
use web_socket_sh.Endpoint.{Endpoint, Connection, make_endpoint}
use web_socket_sh.Endpoint.Absent.{IsAbsent}
use web_socket_sh.Endpoint.Absent.Operations.{
  IsAbsentFrom, subscribe-IsAbsent, startup_advertisement-IsAbsent, create_client_proxy-IsAbsent,
  create_client_proxy_one_type-IsAbsent, create_service_proxy-IsAbsent,
  create_service_proxy_one_type-IsAbsent, publish-IsAbsent, call_service-IsAbsent,
  receive_response-IsAbsent, opened-IsAbsent, make_endpoint-IsAbsent,
}
use web_socket_sh.Endpoint.Absent.Handlers.{handlers-IsAbsentFrom}
use web_socket_sh.Endpoint.Absent.Closed.{closed-IsAbsent, notify_connection_closed-IsAbsent}
use web_socket_sh.Interpret.{interpret_websocket_msg}
use web_socket_sh.Interpret.Keeping.{interpret_websocket_msg-keeps}
use web_socket_sh.Interpret.Steps
use web_socket_sh.Auth.Policy.{VerificationPolicy}
use web_socket_sh.Server.{
  Server, make_server, open_connection, handle_opening, close_connection, handle_close,
  handle_tcp_message, handle_tls_message, spin_once, close_all, stop_running, shut_down,
}
use web_socket_sh.Server.Steps.{
  Step, opening, closing, message, tls_message, core, spin, shutting_down, not_waiting,
  close_all-SameTables, stop_running-SameTables, spin_once-SameTables,
}
use web_socket_sh.Server.Refinement.{endpoint-close_all, endpoint-stop_running, endpoint-spin_once}

module _ ⦃x : Externals⦄ where
  -- A message comes from a connection that is open.
  abbrev pub FromOpen : {e f : Endpoint} → HashSet Connection → Steps.Step e f → Type 0
  FromOpen connections (Steps.hearing text c e) = contains c connections ≡ true
  FromOpen connections _ = Unit {0}

  abbrev pub HasSender : {s t : Server} → Step s t → Type 0
  HasSender (message s c payload) = contains c s.open_connections ≡ true
  HasSender (core s e step) = FromOpen s.open_connections step
  HasSender _ = Unit {0}

  pub data Reach (s : Server) : Server → Type 0 where
    here : Reach s s
    next : {t u : Server} → Reach s t → (step : Step t u) → HasSender step → Reach s u

  -- A connection that is not open is absent from the tables.
  abbrev pub HasOpenOnly : HashSet Connection → Endpoint → Type 0
  HasOpenOnly connections e = (c : Connection) → contains c connections ≡ false → IsAbsentFrom c e

  sender_is_other :
      (connections : HashSet Connection) (c d : Connection)
      → contains d connections ≡ true
      → contains c connections ≡ false
      → (d == c) ≡ false
  sender_is_other connections c d present out = elim (Bool-cases (d == c)) [
    | inl same ↦
        absurd (
          ground (arith, ap (λ k. contains k connections) ((nat_beq_iff d c).0 same), present, out))
    | inr other ↦ other
  ]

  message-IsAbsent :
      (connections : HashSet Connection) (text : Text) (d : Connection) (e : Endpoint)
      → contains d connections ≡ true
      → HasOpenOnly connections e
      → HasOpenOnly connections (interpret_websocket_msg text d e).1
  message-IsAbsent connections text d e sender h c out =
      let other = sender_is_other connections c d sender out in
      interpret_websocket_msg-keeps (IsAbsentFrom c) d (handlers-IsAbsentFrom c d other) text e
        (h c out)

  core-IsAbsent :
      (connections : HashSet Connection) {e f : Endpoint} (step : Steps.Step e f)
      → FromOpen connections step
      → HasOpenOnly connections e
      → HasOpenOnly connections f
  core-IsAbsent connections (Steps.subscribing topic type callback node e) from h c out =
      subscribe-IsAbsent c topic type callback node e (h c out)
  core-IsAbsent connections (Steps.advertising topic type id node e) from h c out =
      startup_advertisement-IsAbsent c topic type id node e (h c out)
  core-IsAbsent connections (Steps.client_proxy service request reply callback node e) from h c
        out =
      create_client_proxy-IsAbsent c service request reply callback node e (h c out)
  core-IsAbsent connections (Steps.client_proxy_one_type service type callback node e) from h c
        out =
      create_client_proxy_one_type-IsAbsent c service type callback node e (h c out)
  core-IsAbsent connections (Steps.service_proxy service request reply node e) from h c out =
      create_service_proxy-IsAbsent c service request reply node e (h c out)
  core-IsAbsent connections (Steps.service_proxy_one_type service type node e) from h c out =
      create_service_proxy_one_type-IsAbsent c service type node e (h c out)
  core-IsAbsent connections (Steps.publishing topic m e) from h c out =
      publish-IsAbsent c topic m e (h c out)
  core-IsAbsent connections (Steps.calling service request client handle e room) from h c out =
      call_service-IsAbsent c service request client handle e (h c out)
  core-IsAbsent connections (Steps.answering handle response e) from h c out =
      receive_response-IsAbsent c handle response e (h c out)
  core-IsAbsent connections (Steps.hearing text d e) from h c out =
      message-IsAbsent connections text d e from h c out
  core-IsAbsent connections (Steps.sending e f p) from h c out =
      subst (IsAbsent c) (sym p) (h c out)
  core-IsAbsent connections (Steps.opened d e) from h c out = opened-IsAbsent c d e (h c out)
  core-IsAbsent connections (Steps.closed d e) from h c out =
      notify_connection_closed-IsAbsent c d e (h c out)

  abbrev OpenOnly : Server → Type 0
  OpenOnly s = HasOpenOnly s.open_connections s.endpoint

  open_connection-OpenOnly :
      (s : Server) (c : Connection) → OpenOnly s → OpenOnly (open_connection c s)
  unfolding open_connection
  open_connection-OpenOnly s c h = elim (Bool-cases s.closing_down) [
    | inl p ↦ rw (p, open_connection) h
    | inr p ↦
        rw (p, open_connection)
          (λ d out.
            opened-IsAbsent d c s.endpoint
              (h d (ground (arith, contains-insert c d s.open_connections, out))))
  ]

  close_connection-OpenOnly :
      (s : Server) (c : Connection) → OpenOnly s → OpenOnly (close_connection c s)
  unfolding close_connection
  close_connection-OpenOnly s c h d out = elim (Bool-cases (c == d)) [
    | inl same ↦
        subst (λ k. IsAbsentFrom k (close_connection c s).endpoint) ((nat_beq_iff c d).0 same)
          (closed-IsAbsent c s.endpoint)
    | inr other ↦
        notify_connection_closed-IsAbsent d c s.endpoint
          (h d (ground (arith, contains-remove c d s.open_connections, out, other)))
  ]

  same-OpenOnly :
      (s t : Server)
      → t.open_connections ≡ s.open_connections
      → t.endpoint ≡ s.endpoint
      → OpenOnly s
      → OpenOnly t
  same-OpenOnly s t p q h c out =
      subst (IsAbsentFrom c) (sym q) (h c (ap (contains c) (sym p) ∙ out))

  Step-OpenOnly : {s t : Server} (step : Step s t) → HasSender step → OpenOnly s → OpenOnly t
  unfolding handle_opening handle_close handle_tcp_message handle_tls_message shut_down
  Step-OpenOnly (opening s after c new room p) from h =
      subst OpenOnly (not_waiting s (open_connection c s) after p) (open_connection-OpenOnly s c h)
  Step-OpenOnly (closing s after c p) from h =
      subst OpenOnly (not_waiting s (close_connection c s) after p)
        (close_connection-OpenOnly s c h)
  Step-OpenOnly (message s c payload) from h =
      message-IsAbsent s.open_connections payload c s.endpoint from h
  Step-OpenOnly (tls_message s c payload sender) from h =
      message-IsAbsent s.open_connections payload c s.endpoint sender h
  Step-OpenOnly (core s e step) from h = core-IsAbsent s.open_connections step from h
  Step-OpenOnly (spin s) from h =
      same-OpenOnly s (spin_once s).1 (spin_once-SameTables s).0 (endpoint-spin_once s) h
  Step-OpenOnly (shutting_down s after is_closed joinable p) from h =
      let down = record s { closing_down = true } in
      let asked = close_all is_closed s.open_connections down in
      subst OpenOnly (not_waiting s (stop_running joinable asked) after p) (
        same-OpenOnly s (stop_running joinable asked)
          ((stop_running-SameTables joinable asked).0
            ∙ (close_all-SameTables is_closed s.open_connections down).0)
          (endpoint-stop_running joinable asked
            ∙ endpoint-close_all is_closed s.open_connections down)
          h)

  -- In every state that a server reaches while it opens fewer than 2^16 connections, fewer than
  -- 2^64 calls are made and messages come from open connections, a connection that is not open is
  -- absent from the tables of the endpoint: no publication is sent to it, it is ignored on no
  -- topic, and it provides no service.
  pub Reach-HasOpenOnly :
      (validator : Option (List VerificationPolicy)) (use_security : Bool) (s : Server)
      → Reach (make_server validator (make_endpoint use_security)) s
      → HasOpenOnly s.open_connections s.endpoint
  unfolding make_server
  Reach-HasOpenOnly validator use_security s here = λ c out. make_endpoint-IsAbsent c use_security
  Reach-HasOpenOnly validator use_security s (next r step from) =
      Step-OpenOnly step from (Reach-HasOpenOnly validator use_security _ r)
