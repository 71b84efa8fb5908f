-- ===== src/Client/Joining.antt =====
-- The join of the thread of a client (src/Client.cpp), and the handlers that the thread still runs.
-- They take no mutex.
use web_socket_sh.Prelude.{
  ◌≡◌, refl, ap, sym, ◌∙◌, Option, none, some, inl, inr, List, [], ◌∷◌, ◌++◌, Bool-cases,
  if◌then◌else◌,
}
use mathlib.Core.List.{append-nil, append_assoc}
use web_socket_sh.Text.{Text}
use web_socket_sh.External.{Externals}
use web_socket_sh.Endpoint.{Connection}
use web_socket_sh.Interpret.History.{Happening, opens, closes, hears, replay, replay-append}
use web_socket_sh.Client.{
  Client, Request, add_subprotocol, is_own, add_token, handle_message, handle_opening, handle_close,
  handle_failed_connection, handle_socket_init,
}

-- A handler that the thread runs after `stop()`, and before `run()` returns.
pub data Late : Type 0 where
  late_message : Connection → Text → Late
  late_opening late_closing late_socket_init : Connection → Late
  late_failing : Late

module _ ⦃x : Externals⦄ where
  -- What a handler tells the endpoint of a client with this connection.
  abbrev tell : Option Connection → Late → List Happening
  tell own (late_message c payload) = if is_own c own then hears c payload ∷ [] else []
  tell own (late_opening c) = if is_own c own then opens c ∷ [] else []
  tell own (late_closing c) = closes c ∷ []
  tell own (late_socket_init c) = []
  tell own late_failing = []

  abbrev pub tells : Option Connection → List Late → List Happening
  tells own [] = []
  tells own (handler ∷ late) = tell own handler ++ tells own late

  -- The token that a handler offers to a connection.
  abbrev offer : Connection → Option Text → List Request
  offer c none = []
  offer c (some token) = add_subprotocol c token ∷ []

  abbrev present : Option Connection → Option Text → Late → List Request
  present own token (late_message c payload) = []
  present own token (late_opening c) = if is_own c own then offer c token else []
  present own token (late_closing c) = []
  present own token (late_socket_init c) = offer c token
  present own token late_failing = []

  abbrev pub offers : Option Connection → Option Text → List Late → List Request
  offers own token [] = []
  offers own token (handler ∷ late) = present own token handler ++ offers own token late

  -- A message is taken to throw nothing.
  unfoldable pub run_handler : Late → Client → Client
  run_handler (late_message c payload) s = (handle_message c payload s).1
  run_handler (late_opening c) s = handle_opening c s
  run_handler (late_closing c) s = handle_close c s
  run_handler (late_socket_init c) s = handle_socket_init c s
  run_handler late_failing s = handle_failed_connection s

  unfoldable pub run_handlers : List Late → Client → Client
  unfolding run_handler
  run_handlers [] s = s
  run_handlers (handler ∷ late) s = run_handlers late (run_handler handler s)

  -- `_client_thread.join()`, for a thread that may never return from `run()`.
  unfoldable pub join : Option (List Late) → Client → Option Client
  unfolding run_handlers
  join none s = none
  join (some late) s = some (run_handlers late s)

  -- The client has the same connection and token, its endpoint was told so much, and it has asked
  -- for so much.
  abbrev pub Does : List Happening → List Request → Client → Client → Type 0
  Does l q s t =
      (t.connection ≡ s.connection)
      × (t.jwt_token ≡ s.jwt_token)
      × (t.endpoint ≡ replay l s.endpoint)
      × (t.requests ≡ s.requests ++ q)

  idle : (s : Client) → Does [] [] s s
  idle s = (refl, refl, refl, sym (append-nil s.requests))

  add_token-Does :
      (c : Connection) (token : Option Text) (s : Client)
      → Does [] (offer c token) s (add_token c token s)
  unfolding add_token
  add_token-Does c none s = idle s
  add_token-Does c (some token) s = (refl, refl, refl, refl)

  handle_message-Does :
      (c : Connection) (payload : Text) (s : Client)
      → Does (tell s.connection (late_message c payload)) [] s (handle_message c payload s).1
  unfolding handle_message
  handle_message-Does c payload s = elim (Bool-cases (is_own c s.connection)) [
    | inl p ↦ rw (p, handle_message) (refl, refl, refl, sym (append-nil s.requests))
    | inr p ↦ rw (p, handle_message) (idle s)
  ]

  handle_opening-Does :
      (c : Connection) (s : Client)
      → Does
          (tell s.connection (late_opening c))
          (present s.connection s.jwt_token (late_opening c))
          s
          (handle_opening c s)
  unfolding handle_opening
  handle_opening-Does c s = elim (Bool-cases (is_own c s.connection)) [
    | inl p ↦ rw (p, handle_opening) (add_token-Does c s.jwt_token _)
    | inr p ↦ rw (p, handle_opening) (idle s)
  ]

  run_handler-Does :
      (handler : Late) (s : Client)
      → Does
          (tell s.connection handler)
          (present s.connection s.jwt_token handler)
          s
          (run_handler handler s)
  unfolding run_handler handle_close handle_socket_init handle_failed_connection
  run_handler-Does (late_message c payload) s = handle_message-Does c payload s
  run_handler-Does (late_opening c) s = handle_opening-Does c s
  run_handler-Does (late_closing c) s = (refl, refl, refl, sym (append-nil s.requests))
  run_handler-Does (late_socket_init c) s = add_token-Does c s.jwt_token s
  run_handler-Does late_failing s = (refl, refl, refl, sym (append-nil s.requests))

  pub Does-Does :
      (l l' : List Happening) (q q' : List Request) (s t u : Client)
      → Does l q s t
      → Does l' q' t u
      → Does (l ++ l') (q ++ q') s u
  Does-Does l l' q q' s t u (a, b, e, r) (a', b', e', r') = (
    a' ∙ a,
    b' ∙ b,
    e' ∙ ap (replay l') e ∙ sym (replay-append l l' s.endpoint),
    r' ∙ ap (λ m. m ++ q') r ∙ append_assoc s.requests q q',
  )

  -- What the handlers do depends on the connection and the token, which they leave alone.
  pub run_handlers-Does :
      (late : List Late) (s : Client)
      → Does
          (tells s.connection late)
          (offers s.connection s.jwt_token late)
          s
          (run_handlers late s)
  unfolding run_handlers
  run_handlers-Does [] s = idle s
  run_handlers-Does (handler ∷ late) s =
      let t = run_handler handler s in
      let first = run_handler-Does handler s in
      let (a, b, e, r) = run_handlers-Does late t in
      Does-Does (tell s.connection handler) (tells s.connection late)
        (present s.connection s.jwt_token handler) (offers s.connection s.jwt_token late) s t
        (run_handlers late t) first
        (
          a,
          b,
          e ∙ ap (λ c. replay (tells c late) t.endpoint) first.0,
          r
              ∙ ap (λ c. t.requests ++ offers c t.jwt_token late) first.0
              ∙ ap (λ k. t.requests ++ offers s.connection k late) first.1,
        )
