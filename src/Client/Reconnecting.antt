-- ===== src/Client/Reconnecting.antt =====
-- When a client connects (src/Client.cpp, `spin_once`).
use web_socket_sh.Prelude.{
  ℕ, ◌+◌, ◌-◌, ◌≤◌, ◌≡◌, refl, Bool, true, false, not, ◌||◌, Option, none, some, List, [], ◌∷◌,
  ◌++◌, arith, ltb,
}
use mathlib.Core.List.{append-nil}
use web_socket_sh.External.{Externals}
use web_socket_sh.Endpoint.{Connection}
use web_socket_sh.Client.{
  Client, Request, connect, retry_after, okay, attempt_reconnect, take_connection, spin_once,
}

module _ ⦃x : Externals⦄ where
  -- What one round asks for.
  abbrev pub asked : Option Connection → List Request
  asked none = []
  asked (some c) = connect c ∷ []

  -- The test of a round: it is the first, or the connection is lost and the last attempt was long
  -- enough ago.
  abbrev pub is_due : (Connection → Bool) → ℕ → Client → Bool
  is_due is_closed now s = not s.has_spun_once || attempt_reconnect is_closed now s

  -- The client after an attempt.
  abbrev pub attempted : Option Connection → ℕ → Client → Client
  attempted created later s = record (take_connection created s) {
    has_spun_once = true;
    last_connection_attempt = later;
  }

  pub spin_once-due :
      (is_closed : Connection → Bool) (now later : ℕ) (created : Option Connection) (s : Client)
      → is_due is_closed now s ≡ true
      → spin_once is_closed now later created s
        ≡ (okay (attempted created later s), attempted created later s)
  unfolding spin_once
  spin_once-due is_closed now later created s p = rw (p, spin_once)

  pub spin_once-idle :
      (is_closed : Connection → Bool) (now later : ℕ) (created : Option Connection) (s : Client)
      → is_due is_closed now s ≡ false
      → spin_once is_closed now later created s ≡ (okay s, s)
  unfolding spin_once
  spin_once-idle is_closed now later created s p = rw (p, spin_once)

  pub requests-attempted :
      (created : Option Connection) (later : ℕ) (s : Client)
      → (attempted created later s).requests ≡ s.requests ++ asked created
  unfolding take_connection
  requests-attempted none later s = simp append-nil
  requests-attempted (some c) later s = refl

  connection-attempted :
      (created : Option Connection) (later : ℕ) (s : Client)
      → (attempted created later s).connection ≡ created
  unfolding take_connection
  connection-attempted none later s = refl
  connection-attempted (some c) later s = refl

  not_due :
      (is_closed : Connection → Bool) (soon : ℕ) (s : Client)
      → s.has_spun_once ≡ true
      → soon ≤ s.last_connection_attempt + retry_after
      → is_due is_closed soon s ≡ false
  unfolding attempt_reconnect
  not_due is_closed soon s spun early =
      let late : ltb retry_after (soon - s.last_connection_attempt) ≡ false =
        ground (arith, early) in
      rw (spun, late) (ground arith)

  -- After a round that tried to connect, the client has the connection that websocketpp gave, has
  -- told it to connect, and the rounds of the next two seconds change nothing.
  pub spin_once_waits :
      (is_closed : Connection → Bool) (now later soon after_soon : ℕ)
      (created next : Option Connection) (s : Client)
      → is_due is_closed now s ≡ true
      → soon ≤ later + retry_after
      → let (result, after) = spin_once is_closed now later created s in
        (after.connection ≡ created)
        × (after.requests ≡ s.requests ++ asked created)
        × (spin_once is_closed soon after_soon next after ≡ (okay after, after))
  unfolding take_connection
  spin_once_waits is_closed now later soon after_soon created next s due early =
      rw (spin_once-due is_closed now later created s due) (
        connection-attempted created later s,
        requests-attempted created later s,
        spin_once-idle is_closed soon after_soon next (attempted created later s)
            (not_due is_closed soon (attempted created later s) refl early),
      )
