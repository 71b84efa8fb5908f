-- ===== src/Server/Refinement.antt =====
-- A server (src/Server.cpp) tells its endpoint (src/Endpoint.cpp), in which order, and that nothing
-- else changes the endpoint.
use web_socket_sh.Prelude.{
  ◌≡◌, refl, ◌∙◌, sym, true, false, Bool, Option, inl, inr, Bool-cases, List, [], ◌∷◌, nat_eq, ap,
  ◌++◌, if◌then◌else◌,
}
use web_socket_sh.Dict.HashSet.{HashSet}
use web_socket_sh.External.{Externals}
use web_socket_sh.Endpoint.{Endpoint, Connection}
use web_socket_sh.Interpret.History.{
  Happening, opens, closes, hears, becomes, replay, replay-append,
}
use web_socket_sh.Auth.Policy.{VerificationPolicy}
use web_socket_sh.Server.{
  Server, close, act, make_server, open_connection, handle_opening, close_connection, handle_close,
  handle_tcp_message, handle_tls_message, spin_once, close_all, stop_running, shut_down,
}
use web_socket_sh.Server.Steps.{
  Step, opening, closing, message, tls_message, core, spin, shutting_down, Reach, here, next,
  not_waiting,
}

module _ ⦃x : Externals⦄ where
  pub endpoint-close_all :
      (is_closed : Connection → Bool) (cs : HashSet Connection) (s : Server)
      → (close_all is_closed cs s).endpoint ≡ s.endpoint
  unfolding close_all
  endpoint-close_all is_closed [] s = refl
  endpoint-close_all is_closed (c ∷ cs) s = elim (Bool-cases (is_closed c)) [
    | inl p ↦ rw (p, close_all) (endpoint-close_all is_closed cs s)
    | inr p ↦ rw (p, close_all) (endpoint-close_all is_closed cs (act (close c) s))
  ]

  pub endpoint-stop_running :
      (joinable : Bool) (s : Server) → (stop_running joinable s).endpoint ≡ s.endpoint
  unfolding stop_running
  endpoint-stop_running true s = refl
  endpoint-stop_running false s = refl

  pub endpoint-spin_once : (s : Server) → (spin_once s).1.endpoint ≡ s.endpoint
  unfolding spin_once
  endpoint-spin_once s = elim (Bool-cases s.has_spun_once) [
    | inl p ↦ simp (p, spin_once)
    | inr p ↦ simp (p, spin_once)
  ]

  -- What a step tells the endpoint. While the server closes down, it says nothing of a connection
  -- that opens.
  abbrev pub told : {s t : Server} → Step s t → List Happening
  told (opening s after c new room p) = if s.closing_down then [] else opens c ∷ []
  told (closing s after c p) = closes c ∷ []
  told (message s c payload) = hears c payload ∷ []
  told (tls_message s c payload open_now) = hears c payload ∷ []
  told (core s e step) = becomes e ∷ []
  told (spin s) = []
  told (shutting_down s after is_closed joinable p) = []

  abbrev pub history : {s t : Server} → Reach s t → List Happening
  history here = []
  history (next r step) = history r ++ told step

  endpoint-open_connection :
      (s : Server) (c : Connection)
      → (open_connection c s).endpoint
        ≡ replay (if s.closing_down then [] else opens c ∷ []) s.endpoint
  unfolding open_connection
  endpoint-open_connection s c = elim (Bool-cases s.closing_down) [
    | inl p ↦ rw (p, open_connection) refl
    | inr p ↦ rw (p, open_connection) refl
  ]

  endpoint-Step : {s t : Server} (step : Step s t) → t.endpoint ≡ replay (told step) s.endpoint
  unfolding handle_opening handle_close close_connection handle_tcp_message handle_tls_message
      shut_down
  endpoint-Step (opening s after c new room p) =
      ap (λ t. t.endpoint) (sym (not_waiting s (open_connection c s) after p))
      ∙ endpoint-open_connection s c
  endpoint-Step (closing s after c p) =
      ap (λ t. t.endpoint) (sym (not_waiting s (close_connection c s) after p))
  endpoint-Step (message s c payload) = refl
  endpoint-Step (tls_message s c payload open_now) = refl
  endpoint-Step (core s e step) = refl
  endpoint-Step (spin s) = endpoint-spin_once s
  endpoint-Step (shutting_down s after is_closed joinable p) =
      let closing_s = record s { closing_down = true } in
      let asked = close_all is_closed s.open_connections closing_s in
      ap (λ t. t.endpoint) (sym (not_waiting s (stop_running joinable asked) after p))
      ∙ endpoint-stop_running joinable asked
      ∙ endpoint-close_all is_closed s.open_connections closing_s

  -- In every state that a server reaches while it opens fewer than 2^16 connections, fewer than
  -- 2^64 calls are made and texts over TLS come from open connections, its endpoint is the one
  -- that it was made with after exactly this, in the order in which it happened: each connection
  -- that opened while the server did not close down, each that closed, each text with the
  -- connection that it came from, and each call of the core. Rounds and the shutdown leave the
  -- endpoint as it is.
  pub endpoint-replay :
      (validator : Option (List VerificationPolicy)) (e : Endpoint) (s : Server)
      (r : Reach (make_server validator e) s)
      → s.endpoint ≡ replay (history r) e
  unfolding make_server
  endpoint-replay validator e s here = refl
  endpoint-replay validator e s (next r step) =
      endpoint-Step step
      ∙ ap (replay (told step)) (endpoint-replay validator e _ r)
      ∙ sym (replay-append (history r) (told step) e)
