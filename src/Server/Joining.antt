-- ===== src/Server/Joining.antt =====
-- The join of the thread of a server (src/Server.cpp), and the handlers that the thread still runs.
use web_socket_sh.Prelude.{
  ◌≡◌, refl, ap, sym, ◌∙◌, Bool, true, false, Option, none, some, ◌⊎◌, inl, inr, List, [], ◌∷◌,
  ◌++◌, if◌then◌else◌,
}
use mathlib.Core.List.{append-nil, append_assoc}
use web_socket_sh.Text.{Text}
use web_socket_sh.External.{Externals}
use web_socket_sh.Endpoint.{Connection}
use web_socket_sh.Interpret.History.{Happening, closes, hears, replay}
use web_socket_sh.Server.{
  Server, Action, close, stop, act, stop_running, open_connection, handle_opening, close_connection,
  handle_close, handle_tcp_message, handle_tls_message,
}

abbrev pub stops : Bool → List Action
stops joinable = if joinable then stop ∷ [] else []

-- A handler that the thread runs after the destructor has unlocked the mutex, and before `run()`
-- returns.
pub data Late : Type 0 where
  late_opening late_closing : Connection → Late
  late_tcp_message late_tls_message : Connection → Text → Late

-- No handler takes the mutex.
abbrev pub lets_be : List Late → Bool
lets_be [] = true
lets_be (late_tcp_message c payload ∷ late) = lets_be late
lets_be (late_tls_message c payload ∷ late) = lets_be late
lets_be (late_opening c ∷ late) = false
lets_be (late_closing c ∷ late) = false

-- After an opening, which leaves the mutex locked, no handler takes it.
abbrev pub drains : List Late → Bool
drains [] = true
drains (late_opening c ∷ late) = lets_be late
drains (late_closing c ∷ late) = drains late
drains (late_tcp_message c payload ∷ late) = drains late
drains (late_tls_message c payload ∷ late) = drains late

-- Without a thread nothing is joined.
abbrev pub joins : Bool → List Late → Bool
joins joinable late = if joinable then drains late else true

-- A connection that opens late is told to close.
abbrev pub refusals : List Late → List Action
refusals [] = []
refusals (late_opening c ∷ late) = close c ∷ refusals late
refusals (late_closing c ∷ late) = refusals late
refusals (late_tcp_message c payload ∷ late) = refusals late
refusals (late_tls_message c payload ∷ late) = refusals late

module _ ⦃x : Externals⦄ where
  -- What the handlers tell the endpoint. Of a connection that opens late it hears nothing.
  abbrev pub tells : List Late → List Happening
  tells [] = []
  tells (late_opening c ∷ late) = tells late
  tells (late_closing c ∷ late) = closes c ∷ tells late
  tells (late_tcp_message c payload ∷ late) = hears c payload ∷ tells late
  tells (late_tls_message c payload ∷ late) = hears c payload ∷ tells late

  -- A message is taken to throw nothing.
  unfoldable pub run_handler : Late → Server → Option Server
  run_handler (late_opening c) s = handle_opening c s
  run_handler (late_closing c) s = handle_close c s
  run_handler (late_tcp_message c payload) s = some (handle_tcp_message c payload s).1
  run_handler (late_tls_message c payload) s = some (handle_tls_message c payload s).1

  -- `none`: a handler waits for the mutex for ever.
  unfoldable pub run_handlers : List Late → Server → Option Server
  unfolding run_handler
  run_handlers [] s = some s
  run_handlers (handler ∷ late) s = elim (run_handler handler s) [
    | none ↦ none
    | some after ↦ run_handlers late after
  ]

  -- `_server_thread.join()`, for a thread that may never return from `run()`.
  unfoldable pub join : Option (List Late) → Server → Option Server
  unfolding run_handlers
  join none s = none
  join (some late) s = run_handlers late s

  run_handlers-free :
      (handler : Late) (late : List Late) (s after : Server)
      → run_handler handler s ≡ some after
      → run_handlers (handler ∷ late) s ≡ run_handlers late after
  unfolding run_handlers
  run_handlers-free handler late s after p =
      ap (λ r. elim r [ none ↦ none | some after ↦ run_handlers late after ]) p

  run_closing :
      (c : Connection) (s : Server) (locked : Bool)
      → s.locked ≡ locked
      → run_handler (late_closing c) s ≡ (if locked then none else some (close_connection c s))
  unfolding run_handler handle_close
  run_closing c s locked p = ap (λ b. if b then none else some (close_connection c s)) p

  run_opening :
      (c : Connection) (s : Server) (locked : Bool)
      → s.locked ≡ locked
      → run_handler (late_opening c) s ≡ (if locked then none else some (open_connection c s))
  unfolding run_handler handle_opening
  run_opening c s locked p = ap (λ b. if b then none else some (open_connection c s)) p

  run_handlers-stuck :
      (handler : Late) (late : List Late) (s : Server)
      → run_handler handler s ≡ none
      → run_handlers (handler ∷ late) s ≡ none
  unfolding run_handlers
  run_handlers-stuck handler late s p =
      ap (λ r. elim r [ none ↦ none | some after ↦ run_handlers late after ]) p

  -- While the server closes down, an opening leaves the mutex locked.
  refuse : Connection → Server → Server
  refuse c s = record (act (close c) s) { locked = true }

  run_refusal :
      (c : Connection) (s : Server)
      → s.locked ≡ false
      → s.closing_down ≡ true
      → run_handler (late_opening c) s ≡ some (refuse c s)
  unfolding open_connection refuse
  run_refusal c s free down = run_opening c s false free ∙ rw down refl

  -- With the mutex locked, messages run, and nothing else does.
  abbrev Locked : List Late → Server → Type 0
  Locked late s =
      ((lets_be late ≡ true)
        × (after : Server) × (run_handlers late s ≡ some after)
        × (after.endpoint ≡ replay (tells late) s.endpoint)
        × (after.actions ≡ s.actions ++ refusals late))
      ⊎ ((lets_be late ≡ false) × (run_handlers late s ≡ none))

  run_handlers-Locked : (late : List Late) (s : Server) → s.locked ≡ true → Locked late s
  unfolding run_handlers handle_tcp_message handle_tls_message
  run_handlers-Locked [] s locked = inl (refl, s, refl, refl, sym (append-nil s.actions))
  run_handlers-Locked (late_tcp_message c payload ∷ late) s locked =
      run_handlers-Locked late (handle_tcp_message c payload s).1 locked
  run_handlers-Locked (late_tls_message c payload ∷ late) s locked =
      run_handlers-Locked late (handle_tls_message c payload s).1 locked
  run_handlers-Locked (late_opening c ∷ late) s locked =
      inr (refl, run_handlers-stuck (late_opening c) late s (run_opening c s true locked))
  run_handlers-Locked (late_closing c ∷ late) s locked =
      inr (refl, run_handlers-stuck (late_closing c) late s (run_closing c s true locked))

  -- The handlers run to their end exactly if they drain.
  abbrev Drained : List Late → Server → Type 0
  Drained late s =
      ((drains late ≡ true)
        × (after : Server) × (run_handlers late s ≡ some after)
        × (after.endpoint ≡ replay (tells late) s.endpoint)
        × (after.actions ≡ s.actions ++ refusals late))
      ⊎ ((drains late ≡ false) × (run_handlers late s ≡ none))

  after_refusal :
      (c : Connection) (late : List Late) (s : Server)
      → run_handlers (late_opening c ∷ late) s ≡ run_handlers late (refuse c s)
      → Locked late (refuse c s)
      → Drained (late_opening c ∷ late) s
  unfolding refuse
  after_refusal c late s step (inl (d, after, ran, told, same)) =
      inl (d, after, step ∙ ran, told, same ∙ append_assoc s.actions (close c ∷ []) (refusals late))
  after_refusal c late s step (inr (d, ran)) = inr (d, step ∙ ran)

  after_closing :
      (c : Connection) (late : List Late) (s : Server)
      → run_handlers (late_closing c ∷ late) s ≡ run_handlers late (close_connection c s)
      → Drained late (close_connection c s)
      → Drained (late_closing c ∷ late) s
  unfolding close_connection
  after_closing c late s step (inl (d, after, ran, told, same)) =
      inl (d, after, step ∙ ran, told, same)
  after_closing c late s step (inr (d, ran)) = inr (d, step ∙ ran)

  run_handlers-Drained :
      (late : List Late) (s : Server) → s.locked ≡ false → s.closing_down ≡ true → Drained late s
  unfolding run_handlers close_connection handle_tcp_message handle_tls_message refuse
  run_handlers-Drained [] s free down = inl (refl, s, refl, refl, sym (append-nil s.actions))
  run_handlers-Drained (late_tcp_message c payload ∷ late) s free down =
      run_handlers-Drained late (handle_tcp_message c payload s).1 free down
  run_handlers-Drained (late_tls_message c payload ∷ late) s free down =
      run_handlers-Drained late (handle_tls_message c payload s).1 free down
  run_handlers-Drained (late_closing c ∷ late) s free down =
      let t = close_connection c s in
      after_closing c late s
        (run_handlers-free (late_closing c) late s t (run_closing c s false free))
        (run_handlers-Drained late t free down)
  run_handlers-Drained (late_opening c ∷ late) s free down =
      after_refusal c late s
        (run_handlers-free (late_opening c) late s (refuse c s) (run_refusal c s free down))
        (run_handlers-Locked late (refuse c s) refl)

  -- The end of the destructor, after the wait.
  abbrev pub finish : Bool → Option (List Late) → Server → Option Server
  finish joinable thread s =
      if joinable then join thread (stop_running joinable s) else some (stop_running joinable s)

  pub finish_lem :
      (joinable : Bool) (late : List Late) (s : Server)
      → s.locked ≡ false
      → s.closing_down ≡ true
      → ((after : Server) × (joins joinable late ≡ true)
          × (finish joinable (some late) s ≡ some after)
          × (after.endpoint ≡ replay (if joinable then tells late else []) s.endpoint)
          × (after.actions
              ≡ s.actions ++ (stops joinable ++ (if joinable then refusals late else []))))
        ⊎ ((joins joinable late ≡ false) × (finish joinable (some late) s ≡ none))
  unfolding join stop_running
  finish_lem false late s free down = inl (s, refl, refl, refl, sym (append-nil s.actions))
  finish_lem true late s free down = elim (run_handlers-Drained late (act stop s) free down) [
    | inl (d, after, ran, told, same) ↦
        inl (after, d, ran, told, same ∙ append_assoc s.actions (stop ∷ []) (refusals late))
    | inr (d, ran) ↦ inr (d, ran)
  ]
