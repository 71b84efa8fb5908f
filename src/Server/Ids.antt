-- ===== src/Server/Ids.antt =====
-- The ids of the connections of a server (src/Server.cpp): numbers below 2^16.
use web_socket_sh.Prelude.{
  ℕ, ◌+◌, ◌%◌, ◌≤◌, ◌<◌, ◌≡◌, sym, ◌∙◌, false, none, some, ◌⊎◌, inl, inr, arith, ◌==◌, nat_eq,
  if◌then◌else◌,
}
use web_socket_sh.Dict.{Dict, find, find-assign, find-erase}
use web_socket_sh.External.{Externals}
use web_socket_sh.Endpoint.{Connection}
use web_socket_sh.Server.{Server, id_mod, insert_id, open_connection, close_connection}

find-insert_id :
    (c d : Connection) (n : ℕ) (ids : Dict Connection ℕ)
    → find c ids ≡ none
    → find d (insert_id c n ids) ≡ (if c == d then some n else find d ids)
unfolding insert_id
find-insert_id c d n ids p = rw (p, insert_id) (find-assign c d n ids)

module _ ⦃x : Externals⦄ where
  -- Ids were given out by the counter, and no two connections have the same.
  pub record HasOwnIds (s : Server) : Type 0 where
    pub below :
        (c : Connection) (n : ℕ) → find c s.open_conn_to_id ≡ some n → n ≤ s.opened_conn_counter
    pub distinct :
        (c d : Connection) (n : ℕ)
        → find c s.open_conn_to_id ≡ some n
        → find d s.open_conn_to_id ≡ some n
        → c ≡ d

  counter-open_connection :
      (s : Server) (c : Connection)
      → s.closing_down ≡ false
      → s.opened_conn_counter + 1 < id_mod
      → (open_connection c s).opened_conn_counter ≡ s.opened_conn_counter + 1
  unfolding open_connection
  counter-open_connection s c up room = rw (up, open_connection) (omega (arith, room))

  find-open_connection :
      (s : Server) (c d : Connection)
      → s.closing_down ≡ false
      → s.opened_conn_counter + 1 < id_mod
      → find c s.open_conn_to_id ≡ none
      → find d (open_connection c s).open_conn_to_id
        ≡ (if c == d then some (s.opened_conn_counter + 1) else find d s.open_conn_to_id)
  unfolding open_connection
  find-open_connection s c d up room new =
      let counted : (s.opened_conn_counter + 1) % id_mod ≡ s.opened_conn_counter + 1 =
        omega (arith, room) in
      rw (up, open_connection)
        (rw counted (find-insert_id c d (s.opened_conn_counter + 1) s.open_conn_to_id new))

  -- An id of the server after the opening is the new one, or was there before.
  whose_id :
      (s : Server) (c d : Connection) (n : ℕ)
      → s.closing_down ≡ false
      → s.opened_conn_counter + 1 < id_mod
      → find c s.open_conn_to_id ≡ none
      → find d (open_connection c s).open_conn_to_id ≡ some n
      → ((c ≡ d) × (n ≡ s.opened_conn_counter + 1)) ⊎ (find d s.open_conn_to_id ≡ some n)
  whose_id s c d n up room new p =
      let ids = find-open_connection s c d up room new in ground (arith, sym ids ∙ p)

  pub open_connection-HasOwnIds :
      (s : Server) (c : Connection)
      → s.closing_down ≡ false
      → s.opened_conn_counter + 1 < id_mod
      → find c s.open_conn_to_id ≡ none
      → HasOwnIds s
      → HasOwnIds (open_connection c s)
  open_connection-HasOwnIds s c up room new h =
      let counter = counter-open_connection s c up room in
      record {
        below = λ d n p. elim (whose_id s c d n up room new p) [
          | inl (_, e) ↦ omega (arith, counter, e)
          | inr old ↦ omega (arith, counter, h.below d n old)
        ];
        distinct = λ d e n p q. elim (whose_id s c d n up room new p) [
          | inl (mine, k) ↦ elim (whose_id s c e n up room new q) [
            | inl (yours, _) ↦ sym mine ∙ yours
            | inr old ↦ absurd (omega (arith, k, h.below e n old))
          ]
          | inr old ↦ elim (whose_id s c e n up room new q) [
            | inl (_, k) ↦ absurd (omega (arith, k, h.below d n old))
            | inr older ↦ h.distinct d e n old older
          ]
        ];
      }

  pub close_connection-HasOwnIds :
      (s : Server) (c : Connection) → HasOwnIds s → HasOwnIds (close_connection c s)
  unfolding close_connection
  close_connection-HasOwnIds s c h = record {
    below = λ d n p. h.below d n (ground (arith, find-erase c d s.open_conn_to_id, p));
    distinct = λ d e n p q.
        h.distinct d e n (ground (arith, find-erase c d s.open_conn_to_id, p))
          (ground (arith, find-erase c e s.open_conn_to_id, q));
  }
