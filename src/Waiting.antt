-- ===== src/Waiting.antt =====
-- The wait in the destructors of src/Server.cpp and src/Client.cpp: until the connections are closed,
-- with a check after every 200 ms, and no longer than 10 s. The clock counts nanoseconds.
use web_socket_sh.Prelude.{
  ℕ, zero, suc, ◌+◌, ◌-◌, ◌*◌, ◌≤◌, ◌<◌, ◌≡◌, refl, Bool, true, false, Option, none, some, [], ◌∷◌,
  All, ltb, inl, inr, Bool-cases, ==-refl, nat_eq, if◌then◌else◌, arith,
}
use web_socket_sh.Dict.HashSet.{HashSet, contains}
use web_socket_sh.Endpoint.{Connection}

-- `200ms` and `10s`
abbrev pub check_interval : ℕ
check_interval = 200000000

abbrev pub shutdown_timeout : ℕ
shutdown_timeout = 10000000000

-- How the wait ends, after how many sleeps.
pub data Waited : Type 0 where
  seen_closed timed_out : ℕ → Waited

-- The loop: `is_done k` is the test after `k` sleeps, `now k` the clock after `k + 1` sleeps. `none`
-- means that the fuel ran out.
unfoldable pub wait_loop : ℕ → (ℕ → Bool) → (ℕ → ℕ) → ℕ → ℕ → Option Waited
wait_loop zero is_done now start_time k = none
wait_loop (suc fuel) is_done now start_time k =
    let rest = wait_loop fuel is_done now start_time (k + 1) in
    if is_done k
    then some (seen_closed k)
    else if ltb shutdown_timeout (now k - start_time)
    then some (timed_out (k + 1))
    else rest

-- `all_tls_closed` and `all_tcp_closed`
unfoldable pub all_closed : (Connection → Bool) → HashSet Connection → Bool
all_closed is_closed [] = true
all_closed is_closed (c ∷ connections) =
    if is_closed c then all_closed is_closed connections else false

-- The states of the connections at each check, for a server; that of its one connection, for a
-- client.
unfoldable pub wait_for_clients :
    ℕ → (ℕ → Connection → Bool) → (ℕ → ℕ) → ℕ → HashSet Connection → Option Waited
wait_for_clients fuel is_closed now start_time connections =
    wait_loop fuel (λ k. all_closed (is_closed k) connections) now start_time 0

unfoldable pub wait_for_server : ℕ → (ℕ → Bool) → (ℕ → ℕ) → ℕ → Option Waited
wait_for_server fuel is_closed now start_time = wait_loop fuel is_closed now start_time 0

-- A steady clock between whose readings a thread has slept for 200 ms.
abbrev pub Ticks : (ℕ → ℕ) → ℕ → Type 0
Ticks now start_time = (k : ℕ) → start_time + (k + 1) * check_interval ≤ now k

-- What the end of a wait says: all was seen to be closed, at the latest after 50 sleeps, or more
-- than 10 s have passed, after at most 51, and the last check failed.
abbrev pub EndsWith : (ℕ → Bool) → (ℕ → ℕ) → ℕ → Waited → Type 0
EndsWith is_done now start_time (seen_closed k) = (k ≤ 50) × (is_done k ≡ true)
EndsWith is_done now start_time (timed_out k) =
    (0 < k) × (k ≤ 51) × (start_time + shutdown_timeout < now (k - 1)) × (is_done (k - 1) ≡ false)

wait_loop_ends :
    (is_done : ℕ → Bool) (now : ℕ → ℕ) (start_time : ℕ)
    → Ticks now start_time
    → (fuel k : ℕ) → fuel + k ≡ 51
    → 0 < fuel
    → (r : Waited) × (wait_loop fuel is_done now start_time k ≡ some r)
      × EndsWith is_done now start_time r
unfolding wait_loop
wait_loop_ends is_done now start_time ticks zero k sum fuel = absurd (omega arith)
wait_loop_ends is_done now start_time ticks (suc fuel) k sum more = elim (Bool-cases (is_done k)) [
  | inl done ↦ (seen_closed k, rw done refl, (omega arith, done))
  | inr open_still ↦ elim (Bool-cases (ltb shutdown_timeout (now k - start_time))) [
    | inl late ↦ (
      timed_out (k + 1),
      rw (open_still, late) refl,
      (omega arith, omega arith, ground (arith, late), ground (arith, open_still)),
    )
    | inr early ↦
        rw (open_still, early)
          (wait_loop_ends is_done now start_time ticks fuel (k + 1) (omega arith) ground
            (arith, early, ticks k))
  ]
]

all_closed-All :
    (is_closed : Connection → Bool) (connections : HashSet Connection)
    → all_closed is_closed connections ≡ true
    → All (λ c. is_closed c ≡ true) connections
unfolding all_closed
all_closed-All is_closed [] h = tt
all_closed-All is_closed (c ∷ connections) h = elim (Bool-cases (is_closed c)) [
  | inl closed ↦ (closed, all_closed-All is_closed connections (ground (arith, closed, h)))
  | inr open_still ↦ absurd (ground (arith, open_still, h))
]

all_closed-false :
    (is_closed : Connection → Bool) (connections : HashSet Connection)
    → all_closed is_closed connections ≡ false
    → (c : Connection) × (contains c connections ≡ true) × (is_closed c ≡ false)
unfolding all_closed contains
all_closed-false is_closed [] h = absurd (ground (arith, h))
all_closed-false is_closed (c ∷ connections) h = elim (Bool-cases (is_closed c)) [
  | inl closed ↦
      let (d, there, not_closed) =
        all_closed-false is_closed connections (ground (arith, closed, h)) in
      (d, ground (arith, there), not_closed)
  | inr open_still ↦ (c, rw (==-refl c) refl, open_still)
]

-- How the wait of a server ends: every connection was closed, at the latest after 50 sleeps, or
-- more than 10 s have passed, after at most 51, and some connection was not closed.
abbrev pub ClientsEnd : (ℕ → Connection → Bool) → (ℕ → ℕ) → ℕ → HashSet Connection → Waited → Type 0
ClientsEnd is_closed now start_time connections (seen_closed k) =
    (k ≤ 50) × All (λ c. is_closed k c ≡ true) connections
ClientsEnd is_closed now start_time connections (timed_out k) =
    (k ≤ 51)
    × (start_time + shutdown_timeout < now (k - 1))
    × ((c : Connection) × (contains c connections ≡ true) × (is_closed (k - 1) c ≡ false))

EndsWith-ClientsEnd :
    (is_closed : ℕ → Connection → Bool) (now : ℕ → ℕ) (start_time : ℕ)
    (connections : HashSet Connection) (r : Waited)
    → EndsWith (λ k. all_closed (is_closed k) connections) now start_time r
    → ClientsEnd is_closed now start_time connections r
EndsWith-ClientsEnd is_closed now start_time connections (seen_closed k) h =
    (h.0, all_closed-All (is_closed k) connections h.1)
EndsWith-ClientsEnd is_closed now start_time connections (timed_out k) h =
    (h.1, h.2, all_closed-false (is_closed (k - 1)) connections h.3)

-- The wait of a server that shuts down ends within 51 sleeps of 200 ms, on a clock that a sleep
-- advances: either it has seen every connection closed, or more than 10 s have passed and the last
-- check still found one that is not closed.
pub wait_for_clients_ends :
    (is_closed : ℕ → Connection → Bool) (now : ℕ → ℕ) (start_time : ℕ)
    (connections : HashSet Connection)
    → Ticks now start_time
    → (r : Waited) × (wait_for_clients 51 is_closed now start_time connections ≡ some r)
      × ClientsEnd is_closed now start_time connections r
unfolding wait_for_clients
wait_for_clients_ends is_closed now start_time connections ticks =
    let (r, ends, result) =
      wait_loop_ends (λ k. all_closed (is_closed k) connections) now start_time ticks 51 0 refl
        (omega arith) in
    (r, ends, EndsWith-ClientsEnd is_closed now start_time connections r result)

-- The same for a client, that waits for its one connection.
pub wait_for_server_ends :
    (is_closed : ℕ → Bool) (now : ℕ → ℕ) (start_time : ℕ)
    → Ticks now start_time
    → (r : Waited) × (wait_for_server 51 is_closed now start_time ≡ some r)
      × EndsWith is_closed now start_time r
unfolding wait_for_server
wait_for_server_ends is_closed now start_time ticks =
    wait_loop_ends is_closed now start_time ticks 51 0 refl (omega arith)
