-- ===== src/Server/Connections.antt =====
-- The connections of a server (src/Server.cpp): those that are open are those that have an id.
use web_socket_sh.Prelude.{
  ℕ, ◌+◌, ◌%◌, ◌≡◌, true, false, Bool, Option, none, some, inl, inr, arith, ◌==◌, nat_eq,
  if◌then◌else◌, Option-cases, Bool-cases,
}
use web_socket_sh.Dict.{Dict, find, find-assign, find-erase}
use web_socket_sh.Dict.HashSet.{contains, contains-insert, contains-remove}
use web_socket_sh.External.{Externals}
use web_socket_sh.Endpoint.{Connection}
use web_socket_sh.Server.{Server, id_mod, insert_id, open_connection, close_connection}

abbrev is_some {ℓ} : {A : Type ℓ} → Option A → Bool
is_some none = false
is_some (some a) = true

is_some-insert_id :
    (c d : Connection) (n : ℕ) (ids : Dict Connection ℕ)
    → is_some (find d (insert_id c n ids)) ≡ (if c == d then true else is_some (find d ids))
unfolding insert_id
is_some-insert_id c d n ids = elim (Option-cases (find c ids)) [
  | inl p ↦ rw (p, insert_id) (ground (arith, find-assign c d n ids))
  | inr (m, p) ↦ rw (p, insert_id) (ground (arith, p))
]

module _ ⦃x : Externals⦄ where
  pub record HasIdIfOpen (s : Server) : Type 0 where
    pub same : (c : Connection) → contains c s.open_connections ≡ is_some (find c s.open_conn_to_id)

  pub open_connection-HasIdIfOpen :
      (s : Server) (c : Connection) → HasIdIfOpen s → HasIdIfOpen (open_connection c s)
  unfolding open_connection
  open_connection-HasIdIfOpen s c h = elim (Bool-cases s.closing_down) [
    | inl p ↦ rw (p, open_connection) (record { same = h.same })
    | inr p ↦
        rw (p, open_connection)
          (record {
            same = λ d. ground (
              arith,
              contains-insert c d s.open_connections,
              is_some-insert_id c d ((s.opened_conn_counter + 1) % id_mod) s.open_conn_to_id,
              h.same d,
            );
          })
  ]

  pub close_connection-HasIdIfOpen :
      (s : Server) (c : Connection) → HasIdIfOpen s → HasIdIfOpen (close_connection c s)
  unfolding close_connection
  close_connection-HasIdIfOpen s c h = record {
    same = λ d.
        ground (
          arith,
          contains-remove c d s.open_connections,
          find-erase c d s.open_conn_to_id,
          h.same d,
        );
  }
