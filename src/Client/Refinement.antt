-- ===== src/Client/Refinement.antt =====
-- What a client (src/Client.cpp) tells its endpoint (src/Endpoint.cpp), in which order, and that
-- nothing else changes the endpoint.
use web_socket_sh.Prelude.{
  ℕ, ◌≡◌, refl, sym, ap, ◌∙◌, Bool, true, false, Option, none, some, inl, inr, Bool-cases, List, [],
  ◌∷◌, ◌++◌, if◌then◌else◌,
}
use web_socket_sh.Text.{Text}
use web_socket_sh.External.{Externals}
use web_socket_sh.Endpoint.{Endpoint, Connection}
use web_socket_sh.Interpret.History.{
  Happening, opens, closes, hears, becomes, replay, replay-append,
}
use web_socket_sh.Client.{
  Client, make_client, is_own, take_connection, add_token, disconnect_open, stop_running, spin_once,
  handle_message, handle_close, handle_opening, handle_failed_connection, handle_socket_init,
  shut_down,
}
use web_socket_sh.Client.Reconnecting.{is_due, spin_once-due, spin_once-idle}
use web_socket_sh.Client.Steps.{
  Timed, Step, spinning, message, closing, opening, failing, socket_init, core, shutting_down,
  Reach, here, next,
}

module _ ⦃x : Externals⦄ where
  -- What a step tells the endpoint. A connection that is not the client's may only close.
  abbrev pub told : {t u : Timed} → Step t u → List Happening
  told (spinning t is_closed now later created h k) = []
  told (message t c payload) = if is_own c t.client.connection then hears c payload ∷ [] else []
  told (closing t c) = closes c ∷ []
  told (opening t c) = if is_own c t.client.connection then opens c ∷ [] else []
  told (failing t) = []
  told (socket_init t c) = []
  told (core t e step) = becomes e ∷ []
  told (shutting_down t is_open joinable) = []

  abbrev pub history : {t u : Timed} → Reach t u → List Happening
  history here = []
  history (next r step) = history r ++ told step

  endpoint-take_connection :
      (created : Option Connection) (s : Client) → (take_connection created s).endpoint ≡ s.endpoint
  unfolding take_connection
  endpoint-take_connection none s = refl
  endpoint-take_connection (some c) s = refl

  endpoint-spin_once :
      (is_closed : Connection → Bool) (now later : ℕ) (created : Option Connection) (s : Client)
      → (spin_once is_closed now later created s).1.endpoint ≡ s.endpoint
  endpoint-spin_once is_closed now later created s = elim (Bool-cases (is_due is_closed now s)) [
    | inl due ↦
        ap (λ r. r.1.endpoint) (spin_once-due is_closed now later created s due)
        ∙ endpoint-take_connection created s
    | inr idle ↦ ap (λ r. r.1.endpoint) (spin_once-idle is_closed now later created s idle)
  ]

  endpoint-add_token :
      (c : Connection) (token : Option Text) (s : Client)
      → (add_token c token s).endpoint ≡ s.endpoint
  unfolding add_token
  endpoint-add_token c none s = refl
  endpoint-add_token c (some token) s = refl

  endpoint-handle_message :
      (c : Connection) (payload : Text) (s : Client)
      → (handle_message c payload s).1.endpoint
        ≡ replay (if is_own c s.connection then hears c payload ∷ [] else []) s.endpoint
  unfolding handle_message
  endpoint-handle_message c payload s = elim (Bool-cases (is_own c s.connection)) [
    | inl p ↦ rw (p, handle_message) refl
    | inr p ↦ rw (p, handle_message) refl
  ]

  endpoint-handle_opening :
      (c : Connection) (s : Client)
      → (handle_opening c s).endpoint
        ≡ replay (if is_own c s.connection then opens c ∷ [] else []) s.endpoint
  unfolding handle_opening
  endpoint-handle_opening c s = elim (Bool-cases (is_own c s.connection)) [
    | inl p ↦ rw (p, handle_opening) (endpoint-add_token c s.jwt_token _)
    | inr p ↦ rw (p, handle_opening) refl
  ]

  endpoint-disconnect_open :
      (is_open : Connection → Bool) (c : Option Connection) (s : Client)
      → (disconnect_open is_open c s).endpoint ≡ s.endpoint
  unfolding disconnect_open
  endpoint-disconnect_open is_open none s = refl
  endpoint-disconnect_open is_open (some c) s = elim (Bool-cases (is_open c)) [
    | inl p ↦ rw p refl
    | inr p ↦ rw p refl
  ]

  endpoint-stop_running :
      (joinable : Bool) (s : Client) → (stop_running joinable s).endpoint ≡ s.endpoint
  unfolding stop_running
  endpoint-stop_running true s = refl
  endpoint-stop_running false s = refl

  endpoint-Step :
      {t u : Timed} (step : Step t u) → u.client.endpoint ≡ replay (told step) t.client.endpoint
  unfolding handle_close handle_failed_connection handle_socket_init shut_down
  endpoint-Step (spinning t is_closed now later created h k) =
      endpoint-spin_once is_closed now later created t.client
  endpoint-Step (message t c payload) = endpoint-handle_message c payload t.client
  endpoint-Step (closing t c) = refl
  endpoint-Step (opening t c) = endpoint-handle_opening c t.client
  endpoint-Step (failing t) = refl
  endpoint-Step (socket_init t c) = endpoint-add_token c t.client.jwt_token t.client
  endpoint-Step (core t e step) = refl
  endpoint-Step (shutting_down t is_open joinable) =
      endpoint-stop_running joinable _ ∙ endpoint-disconnect_open is_open t.client.connection _

  -- In every state that a client reaches while fewer than 2^64 calls are made, its endpoint is the
  -- one that it was made with after exactly this, in the order in which it happened: each opening
  -- of the connection that the client had then, each text of that connection, each closing of any
  -- connection, and each call of the core. Texts and openings of other connections, rounds,
  -- failures and the shutdown leave the endpoint as it is.
  pub client_endpoint-replay :
      (token : Option Text) (start_time : ℕ) (e : Endpoint) (t : Timed)
      (r : Reach (record { client = make_client token e; clock = start_time }) t)
      → t.client.endpoint ≡ replay (history r) e
  unfolding make_client
  client_endpoint-replay token start_time e t here = refl
  client_endpoint-replay token start_time e t (next r step) =
      endpoint-Step step
      ∙ ap (replay (told step)) (client_endpoint-replay token start_time e _ r)
      ∙ sym (replay-append (history r) (told step) e)
