-- ===== src/Server/Destroying.antt =====
-- The destructor of a server (src/Server.cpp): it asks the connections to close, waits for that with
-- the mutex held, stops the server and joins its thread. The join returns when `run()` does: after
-- `stop()` the thread ends once the handlers that it still runs have ended.
use web_socket_sh.Prelude.{
  ℕ, ◌≡◌, refl, ap, sym, ◌∙◌, Bool, true, false, Option, none, some, ◌⊎◌, inl, inr, List, [], ◌∷◌,
  ◌++◌, Bool-cases, if◌then◌else◌,
}
use mathlib.Core.List.{append-nil, append_assoc}
use web_socket_sh.Dict.HashSet.{HashSet}
use web_socket_sh.External.{Externals}
use web_socket_sh.Endpoint.{Connection}
use web_socket_sh.Server.{Server, Action, close, act, close_all, stop_running, shut_down}
use web_socket_sh.Interpret.History.{replay}
use web_socket_sh.Server.Refinement.{endpoint-close_all}
use web_socket_sh.Server.Joining.{tells, Late, stops, joins, refusals, join, finish_lem}
use web_socket_sh.Waiting.{Waited, wait_for_clients, Ticks, ClientsEnd, wait_for_clients_ends}

-- A connection that was not closed is asked to close.
abbrev pub closings : (Connection → Bool) → HashSet Connection → List Action
closings was_closed [] = []
closings was_closed (c ∷ connections) =
    if was_closed c
    then closings was_closed connections
    else close c ∷ closings was_closed connections

module _ ⦃x : Externals⦄ where
  waited : Waited → Option Server → Option (Waited × Server)
  waited r none = none
  waited r (some after) = some (r, after)

  -- The states of the connections when they are asked, and at each check of the wait, and what
  -- comes of the thread.
  unfoldable pub destroy :
      ℕ
      → (Connection → Bool)
      → (ℕ → Connection → Bool)
      → (ℕ → ℕ)
      → ℕ
      → Bool
      → Option (List Late)
      → Server
      → Option (Waited × Server)
  unfolding waited join
  destroy fuel was_closed is_closed now start_time joinable thread s =
      elim (shut_down was_closed joinable s) [
        | none ↦ none
        | some after ↦ elim (wait_for_clients fuel is_closed now start_time s.open_connections) [
          | none ↦ none
          | some r ↦ waited r (if joinable then join thread after else some after)
        ]
      ]

  actions-close_all :
      (was_closed : Connection → Bool) (cs : HashSet Connection) (s : Server)
      → (close_all was_closed cs s).actions ≡ s.actions ++ closings was_closed cs
  unfolding close_all
  actions-close_all was_closed [] s = sym (append-nil s.actions)
  actions-close_all was_closed (c ∷ cs) s = elim (Bool-cases (was_closed c)) [
    | inl p ↦ rw (p, close_all) (actions-close_all was_closed cs s)
    | inr p ↦
        rw (p, close_all)
          (actions-close_all was_closed cs (act (close c) s)
            ∙ append_assoc s.actions (close c ∷ []) (closings was_closed cs))
  ]

  -- The tables of the mutex and of the shutdown, which the requests to close leave as they are.
  close_all-keeps :
      (was_closed : Connection → Bool) (cs : HashSet Connection) (s : Server)
      → ((close_all was_closed cs s).locked ≡ s.locked)
        × ((close_all was_closed cs s).closing_down ≡ s.closing_down)
  unfolding close_all
  close_all-keeps was_closed [] s = (refl, refl)
  close_all-keeps was_closed (c ∷ cs) s = elim (Bool-cases (was_closed c)) [
    | inl p ↦ rw (p, close_all) (close_all-keeps was_closed cs s)
    | inr p ↦ rw (p, close_all) (close_all-keeps was_closed cs (act (close c) s))
  ]

  -- The destructor, once the mutex was free and the wait has ended.
  destroy-waited :
      (was_closed : Connection → Bool) (is_closed : ℕ → Connection → Bool) (now : ℕ → ℕ)
      (start_time : ℕ) (joinable : Bool) (thread : Option (List Late)) (s : Server) (r : Waited)
      → s.locked ≡ false
      → wait_for_clients 51 is_closed now start_time s.open_connections ≡ some r
      → let asked = close_all was_closed s.open_connections (record s { closing_down = true }) in
        destroy 51 was_closed is_closed now start_time joinable thread s
        ≡ waited r (
            if joinable
            then join thread (stop_running joinable asked)
            else some (stop_running joinable asked))
  unfolding destroy shut_down
  destroy-waited was_closed is_closed now start_time joinable thread s r free ends =
      rw (free, destroy) (rw ends refl)

  -- When no handler has left the mutex locked, and run() returns once the handlers that the thread
  -- still runs have ended (those after the wait; messages throw nothing), the wait in the
  -- destructor of a server ends, within 51 sleeps of 200 ms on a clock that a sleep advances:
  -- either it has seen every connection closed, or more than 10 s have passed and the last check
  -- still found one that is not closed. The destructor then ends exactly if the server was not
  -- started, or none of those handlers is an opening that has another opening or a closing
  -- somewhere after it; it has then asked each connection that was not closed, and no other, once
  -- to close, has stopped the server if it was started, and has told each connection that opened
  -- late to close; and its endpoint has heard of the closings and texts of those handlers, in
  -- their order, but not of their openings. Otherwise the join of the thread never returns.
  pub destroy_ends :
      (was_closed : Connection → Bool) (is_closed : ℕ → Connection → Bool) (now : ℕ → ℕ)
      (start_time : ℕ) (joinable : Bool) (thread : Option (List Late)) (late : List Late)
      (s : Server)
      → s.locked ≡ false
      → Ticks now start_time
      → thread ≡ some late
      → (r : Waited) × ClientsEnd is_closed now start_time s.open_connections r
        × (((after : Server) × (joins joinable late ≡ true)
              × (destroy 51 was_closed is_closed now start_time joinable thread s ≡ some (r, after))
              × (after.endpoint ≡ replay (if joinable then tells late else []) s.endpoint)
              × (after.actions
                  ≡ s.actions
                    ++ (closings was_closed s.open_connections
                        ++ (stops joinable ++ (if joinable then refusals late else [])))))
            ⊎ ((joins joinable late ≡ false)
                × (destroy 51 was_closed is_closed now start_time joinable thread s ≡ none)))
  unfolding waited
  destroy_ends was_closed is_closed now start_time joinable thread late s free ticks returns =
      let closing = record s { closing_down = true } in
      let asked = close_all was_closed s.open_connections closing in
      let (lock, down) = close_all-keeps was_closed s.open_connections closing in
      let (r, ends, result) =
        wait_for_clients_ends is_closed now start_time s.open_connections ticks in
      let end_of = λ (l : Option (List Late)).
        if joinable
        then join l (stop_running joinable asked)
        else some (stop_running joinable asked) in
      let destroyed =
        destroy-waited was_closed is_closed now start_time joinable thread s r free ends in
      (
        r,
        result,
        elim (finish_lem joinable late asked (lock ∙ free) down) [
          | inl (after, j, ran, told, same) ↦ inl (
            after,
            j,
            destroyed ∙ ap (waited r) (ap (λ l. end_of l) returns ∙ ran),
            told
                ∙ ap (replay (if joinable then tells late else []))
                    (endpoint-close_all was_closed s.open_connections closing),
            same
                ∙ ap (λ l. l ++ (stops joinable ++ (if joinable then refusals late else [])))
                    (actions-close_all was_closed s.open_connections closing)
                ∙ append_assoc s.actions (closings was_closed s.open_connections)
                    (stops joinable ++ (if joinable then refusals late else [])),
          )
          | inr (j, ran) ↦ inr (j, destroyed ∙ ap (waited r) (ap (λ l. end_of l) returns ∙ ran))
        ],
      )
