-- ===== src/Client/Pacing.antt =====
-- How often a client asks for a connection (src/Client.cpp): once at the start, and then once in two
-- seconds.
use web_socket_sh.Prelude.{
  ℕ, suc, ◌+◌, ◌*◌, ◌≤◌, ◌<◌, ◌≡◌, refl, sym, ap, ◌∙◌, Bool, true, false, Option, none, some, inl,
  inr, List, [], ◌∷◌, ◌++◌, Bool-cases, arith,
}
use web_socket_sh.Text.{Text}
use web_socket_sh.External.{Externals}
use web_socket_sh.Endpoint.{Endpoint, Connection}
use web_socket_sh.Client.{
  Client, Request, connect, disconnect, add_subprotocol, stop_perpetual, stop, retry_after,
  make_client, is_own, attempt_reconnect, add_token, disconnect_open, stop_running, spin_once,
  handle_message, handle_close, handle_opening, handle_failed_connection, handle_socket_init,
  shut_down,
}
use web_socket_sh.Client.Reconnecting.{
  asked, is_due, attempted, spin_once-due, spin_once-idle, requests-attempted,
}
use web_socket_sh.Client.Steps.{
  Timed, with_client, Step, spinning, message, closing, opening, failing, socket_init, core,
  shutting_down, Reach, here, next,
}

-- The requests for a connection.
unfoldable pub connects : List Request → ℕ
connects [] = 0
connects (connect c ∷ requests) = suc (connects requests)
connects (disconnect c ∷ requests) = connects requests
connects (add_subprotocol c token ∷ requests) = connects requests
connects (stop_perpetual ∷ requests) = connects requests
connects (stop ∷ requests) = connects requests

connects-append : (xs ys : List Request) → connects (xs ++ ys) ≡ connects xs + connects ys
unfolding connects
connects-append [] ys = omega arith
connects-append (connect c ∷ xs) ys = omega (arith, connects-append xs ys)
connects-append (disconnect c ∷ xs) ys = connects-append xs ys
connects-append (add_subprotocol c token ∷ xs) ys = connects-append xs ys
connects-append (stop_perpetual ∷ xs) ys = connects-append xs ys
connects-append (stop ∷ xs) ys = connects-append xs ys

module _ ⦃x : Externals⦄ where
  connects-asked : (created : Option Connection) → connects (asked created) ≤ 1
  unfolding connects
  connects-asked none = omega arith
  connects-asked (some c) = omega arith

  -- The pace at a time: nothing was asked for before the first round; after it, one more connection
  -- than two seconds have passed until the last attempt.
  pub record IsPaced (start_time : ℕ) (t : Timed) : Type 0 where
    pub idle : t.client.has_spun_once ≡ false → connects t.client.requests ≡ 0
    pub paced :
        t.client.has_spun_once ≡ true
        → start_time + connects t.client.requests * retry_after
          ≤ t.client.last_connection_attempt + retry_after
    pub past : t.client.has_spun_once ≡ true → t.client.last_connection_attempt ≤ t.clock
    pub started : start_time ≤ t.clock

  -- A handler that leaves the rounds alone, and asks for no connection.
  abbrev SameRounds : Client → Client → Type 0
  SameRounds s t =
      (t.has_spun_once ≡ s.has_spun_once)
      × (t.last_connection_attempt ≡ s.last_connection_attempt)
      × (connects t.requests ≡ connects s.requests)

  same_pace :
      (start_time : ℕ) (t : Timed) (s : Client)
      → SameRounds t.client s
      → IsPaced start_time t
      → IsPaced start_time (with_client s t)
  same_pace start_time t s (spun, last, asked_for) h = record {
    idle = λ p. asked_for ∙ h.idle (sym spun ∙ p);
    paced = λ p. rw (asked_for, last) (h.paced (sym spun ∙ p));
    past = λ p. rw last (h.past (sym spun ∙ p));
    started = h.started;
  }

  add_token-SameRounds :
      (c : Connection) (token : Option Text) (s : Client) → SameRounds s (add_token c token s)
  unfolding add_token connects
  add_token-SameRounds c none s = (refl, refl, refl)
  add_token-SameRounds c (some token) s =
      (refl, refl, connects-append s.requests (add_subprotocol c token ∷ []) ∙ omega arith)

  disconnect_open-SameRounds :
      (is_open : Connection → Bool) (c : Option Connection) (s : Client)
      → SameRounds s (disconnect_open is_open c s)
  unfolding disconnect_open connects
  disconnect_open-SameRounds is_open none s = (refl, refl, refl)
  disconnect_open-SameRounds is_open (some c) s = elim (Bool-cases (is_open c)) [
    | inl p ↦ rw p (refl, refl, connects-append s.requests (disconnect c ∷ []) ∙ omega arith)
    | inr p ↦ rw p (refl, refl, refl)
  ]

  stop_running-SameRounds : (joinable : Bool) (s : Client) → SameRounds s (stop_running joinable s)
  unfolding stop_running connects
  stop_running-SameRounds true s = (
    refl,
    refl,
    connects-append (s.requests ++ stop_perpetual ∷ []) (stop ∷ [])
        ∙ omega (arith, connects-append s.requests (stop_perpetual ∷ [])),
  )
  stop_running-SameRounds false s = (refl, refl, refl)

  handle_message-SameRounds :
      (c : Connection) (payload : Text) (s : Client) → SameRounds s (handle_message c payload s).1
  unfolding handle_message
  handle_message-SameRounds c payload s = elim (Bool-cases (is_own c s.connection)) [
    | inl p ↦ rw (p, handle_message) (refl, refl, refl)
    | inr p ↦ rw (p, handle_message) (refl, refl, refl)
  ]

  handle_opening-SameRounds : (c : Connection) (s : Client) → SameRounds s (handle_opening c s)
  unfolding handle_opening
  handle_opening-SameRounds c s = elim (Bool-cases (is_own c s.connection)) [
    | inl p ↦ rw (p, handle_opening) (add_token-SameRounds c s.jwt_token _)
    | inr p ↦ rw (p, handle_opening) (refl, refl, refl)
  ]

  -- A round that is due comes at the start, or more than two seconds after the last attempt.
  due-late :
      (is_closed : Connection → Bool) (now : ℕ) (s : Client)
      → is_due is_closed now s ≡ true
      → s.has_spun_once ≡ true
      → s.last_connection_attempt + retry_after < now
  unfolding attempt_reconnect
  due-late is_closed now s due spun = ground (arith, due, spun)

  attempted-IsPaced :
      (start_time : ℕ) (t : Timed) (is_closed : Connection → Bool) (now later : ℕ)
      (created : Option Connection)
      → t.clock ≤ now
      → now ≤ later
      → is_due is_closed now t.client ≡ true
      → IsPaced start_time t
      → IsPaced start_time (record { client = attempted created later t.client; clock = later })
  attempted-IsPaced start_time t is_closed now later created h k due pace =
      let s = t.client in
      let count =
        ap connects (requests-attempted created later s)
        ∙ connects-append s.requests (asked created) in
      record {
        idle = λ p. absurd (ground (arith, p));
        paced = λ p. elim (Bool-cases s.has_spun_once) [
          | inl spun ↦ omega (
            arith,
            count,
            connects-asked created,
            pace.paced spun,
            due-late is_closed now s due spun,
          )
          | inr first ↦ omega (arith, count, connects-asked created, pace.idle first, pace.started)
        ];
        past = λ p. omega arith;
        started = omega (arith, pace.started);
      }

  spin_once-IsPaced :
      (start_time : ℕ) (t : Timed) (is_closed : Connection → Bool) (now later : ℕ)
      (created : Option Connection)
      → t.clock ≤ now
      → now ≤ later
      → IsPaced start_time t
      → IsPaced start_time
          (record { client = (spin_once is_closed now later created t.client).1; clock = later })
  spin_once-IsPaced start_time t is_closed now later created h k pace =
      elim (Bool-cases (is_due is_closed now t.client)) [
        | inl due ↦
            rw (spin_once-due is_closed now later created t.client due)
              (attempted-IsPaced start_time t is_closed now later created h k due pace)
        | inr idle ↦ rw (spin_once-idle is_closed now later created t.client idle) (record {
          idle = pace.idle;
          paced = pace.paced;
          past = λ p. omega (arith, pace.past p);
          started = omega (arith, pace.started);
        })
      ]

  Step-IsPaced :
      {t u : Timed} (start_time : ℕ) → Step t u → IsPaced start_time t → IsPaced start_time u
  unfolding handle_close handle_failed_connection handle_socket_init shut_down
  Step-IsPaced start_time (spinning t is_closed now later created h k) pace =
      spin_once-IsPaced start_time t is_closed now later created h k pace
  Step-IsPaced start_time (message t c payload) pace =
      same_pace start_time t _ (handle_message-SameRounds c payload t.client) pace
  Step-IsPaced start_time (closing t c) pace = same_pace start_time t _ (refl, refl, refl) pace
  Step-IsPaced start_time (opening t c) pace =
      same_pace start_time t _ (handle_opening-SameRounds c t.client) pace
  Step-IsPaced start_time (failing t) pace = same_pace start_time t _ (refl, refl, refl) pace
  Step-IsPaced start_time (socket_init t c) pace =
      same_pace start_time t _ (add_token-SameRounds c t.client.jwt_token t.client) pace
  Step-IsPaced start_time (core t e step) pace = same_pace start_time t _ (refl, refl, refl) pace
  Step-IsPaced start_time (shutting_down t is_open joinable) pace =
      let closing_s = record t.client { closing_down = true } in
      let asked_to = disconnect_open is_open t.client.connection closing_s in
      same_pace start_time (with_client asked_to t) _ (stop_running-SameRounds joinable asked_to) (
        same_pace start_time t _ (disconnect_open-SameRounds is_open t.client.connection closing_s)
          pace)

  Reach-IsPaced :
      (token : Option Text) (start_time : ℕ) (e : Endpoint) (t : Timed)
      → Reach (record { client = make_client token e; clock = start_time }) t
      → IsPaced start_time t
  unfolding make_client connects
  Reach-IsPaced token start_time e t here = record {
    idle = λ p. refl;
    paced = λ p. absurd (ground (arith, p));
    past = λ p. absurd (ground (arith, p));
    started = omega arith;
  }
  Reach-IsPaced token start_time e t (next r step) =
      Step-IsPaced start_time step (Reach-IsPaced token start_time e _ r)

  -- Whatever happens to a client, it has asked for at most one connection, and one more for every
  -- two seconds that have passed since it was made.
  pub connects-Reach :
      (token : Option Text) (start_time : ℕ) (e : Endpoint) (t : Timed)
      → Reach (record { client = make_client token e; clock = start_time }) t
      → start_time + connects t.client.requests * retry_after ≤ t.clock + retry_after
  connects-Reach token start_time e t r =
      let pace = Reach-IsPaced token start_time e t r in
      elim (Bool-cases t.client.has_spun_once) [
        | inl spun ↦ omega (arith, pace.paced spun, pace.past spun)
        | inr first ↦ omega (arith, pace.idle first, pace.started)
      ]
