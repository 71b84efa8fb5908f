-- ===== src/Client/Destroying.antt =====
-- The destructor of a client (src/Client.cpp): it tells an open connection to close, waits for that,
-- stops the client and joins its thread. The join returns when `run()` does: after `stop()` the
-- thread ends once the handlers that it still runs have ended. They take no mutex.
use web_socket_sh.Prelude.{ℕ, ◌≡◌, Bool, Option, none, some, List, [], ◌∷◌, if◌then◌else◌}
use web_socket_sh.External.{Externals}
use web_socket_sh.Endpoint.{Connection}
use web_socket_sh.Client.{Client, Request, disconnect, stop_perpetual, stop, shut_down}
use web_socket_sh.Client.Joining.{Late, join}
use web_socket_sh.Waiting.{Waited, wait_for_server, EndsWith}

-- The connection that is told to close.
abbrev pub closing : (Connection → Bool) → Option Connection → Option Connection
closing is_open none = none
closing is_open (some c) = if is_open c then some c else none

abbrev pub asks : Option Connection → List Request
asks none = []
asks (some c) = disconnect c ∷ []

abbrev pub stops : Bool → List Request
stops joinable = if joinable then stop_perpetual ∷ stop ∷ [] else []

-- The destructor waits for a connection that it has told to close, and for no other.
abbrev pub ServerEnds :
    (Connection → Bool) → (ℕ → Bool) → (ℕ → ℕ) → ℕ → Option Connection → Option Waited → Type 0
ServerEnds is_open is_closed now start_time c none = closing is_open c ≡ none
ServerEnds is_open is_closed now start_time c (some r) =
    ((d : Connection) × (closing is_open c ≡ some d)) × EndsWith is_closed now start_time r

-- The wait, where there is one. The outer `none` means that the fuel ran out.
unfoldable pub await : ℕ → (ℕ → Bool) → (ℕ → ℕ) → ℕ → Option Connection → Option (Option Waited)
await fuel is_closed now start_time none = some none
await fuel is_closed now start_time (some c) =
    elim (wait_for_server fuel is_closed now start_time) [ none ↦ none | some r ↦ some (some r) ]

module _ ⦃x : Externals⦄ where
  waited : Option Waited → Option Client → Option (Option Waited × Client)
  waited r none = none
  waited r (some after) = some (r, after)

  -- `is_closed` has the states of the connection at the checks of the wait.
  unfoldable pub destroy :
      ℕ
      → (Connection → Bool)
      → (ℕ → Bool)
      → (ℕ → ℕ)
      → ℕ
      → Bool
      → Option (List Late)
      → Client
      → Option (Option Waited × Client)
  unfolding await waited join
  destroy fuel is_open is_closed now start_time joinable thread s =
      let asked = shut_down is_open joinable s in
      elim (await fuel is_closed now start_time (closing is_open s.connection)) [
        | none ↦ none
        | some r ↦ waited r (if joinable then join thread asked else some asked)
      ]

  -- The handlers that the thread still runs, if there is one.
  abbrev pub ran : Bool → List Late → List Late
  ran joinable late = if joinable then late else []
