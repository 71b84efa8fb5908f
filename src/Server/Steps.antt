-- ===== src/Server/Steps.antt =====
-- What happens to a server, one handler after the other (src/Server.cpp), and what holds in
-- every state that it reaches.
use web_socket_sh.Prelude.{
  ◌+◌, ◌<◌, ◌≡◌, refl, ap, sym, ◌∙◌, subst, true, false, Bool, Option, none, some, inl, inr, arith,
  Bool-cases, Option-cases, List, [], ◌∷◌, if◌then◌else◌, nat_eq,
}
use web_socket_sh.Text.{Text}
use web_socket_sh.Dict.{find}
use web_socket_sh.Dict.HashSet.{HashSet, contains}
use web_socket_sh.External.{Externals}
use web_socket_sh.Endpoint.{Endpoint, Connection}
use web_socket_sh.Interpret.Steps
use web_socket_sh.Auth.Policy.{VerificationPolicy}
use web_socket_sh.Server.{
  Server, close, act, id_mod, make_server, open_connection, handle_opening, close_connection,
  handle_close, handle_tcp_message, handle_tls_message, insert_id, spin_once, close_all,
  stop_running, shut_down,
}
use web_socket_sh.Server.Connections.{
  HasIdIfOpen, open_connection-HasIdIfOpen, close_connection-HasIdIfOpen,
}
use web_socket_sh.Server.Ids.{HasOwnIds, open_connection-HasOwnIds, close_connection-HasOwnIds}

module _ ⦃x : Externals⦄ where
  -- A handler runs to its end. websocketpp opens a connection that is not open, and fewer than 2^16
  -- were opened before; a message over TLS comes from a connection that is open. The core of the
  -- Integration Service acts on the endpoint alone.
  pub data Step : Server → Server → Type 0 where
    opening :
        (s after : Server) (c : Connection)
        → find c s.open_conn_to_id ≡ none
        → s.opened_conn_counter + 1 < id_mod
        → handle_opening c s ≡ some after
        → Step s after
    closing : (s after : Server) (c : Connection) → handle_close c s ≡ some after → Step s after
    message :
        (s : Server) (c : Connection) (payload : Text) → Step s (handle_tcp_message c payload s).1
    tls_message :
        (s : Server) (c : Connection) (payload : Text)
        → contains c s.open_connections ≡ true
        → Step s (handle_tls_message c payload s).1
    core :
        (s : Server) (e : Endpoint) → Steps.Step s.endpoint e → Step s (record s { endpoint = e })
    spin : (s : Server) → Step s (spin_once s).1
    shutting_down :
        (s after : Server) (is_closed : Connection → Bool) (joinable : Bool)
        → shut_down is_closed joinable s ≡ some after
        → Step s after

  pub data Reach (s : Server) : Server → Type 0 where
    here : Reach s s
    next : {t u : Server} → Reach s t → Step t u → Reach s u

  abbrev pub IsSound : Server → Type 0
  IsSound s = HasIdIfOpen s × HasOwnIds s

  -- Soundness is about the tables of the connections only.
  same_tables :
      (s t : Server)
      → t.open_connections ≡ s.open_connections
      → t.open_conn_to_id ≡ s.open_conn_to_id
      → t.opened_conn_counter ≡ s.opened_conn_counter
      → IsSound s
      → IsSound t
  same_tables s t p q r (h, k) = (
    record { same = λ c. rw (p, q) (h.same c) },
    record {
      below = λ c n f. rw r (k.below c n (sym (ap (find c) q) ∙ f));
      distinct = λ c d n f g. k.distinct c d n (sym (ap (find c) q) ∙ f) (sym (ap (find d) q) ∙ g);
    },
  )

  abbrev pub SameTables : Server → Server → Type 0
  SameTables s t =
      (t.open_connections ≡ s.open_connections)
      × (t.open_conn_to_id ≡ s.open_conn_to_id)
      × (t.opened_conn_counter ≡ s.opened_conn_counter)

  pub close_all-SameTables :
      (is_closed : Connection → Bool) (cs : HashSet Connection) (s : Server)
      → SameTables s (close_all is_closed cs s)
  unfolding close_all
  close_all-SameTables is_closed [] s = (refl, refl, refl)
  close_all-SameTables is_closed (c ∷ cs) s = elim (Bool-cases (is_closed c)) [
    | inl p ↦ rw (p, close_all) (close_all-SameTables is_closed cs s)
    | inr p ↦ rw (p, close_all) (close_all-SameTables is_closed cs (act (close c) s))
  ]

  pub stop_running-SameTables :
      (joinable : Bool) (s : Server) → SameTables s (stop_running joinable s)
  unfolding stop_running
  stop_running-SameTables true s = (refl, refl, refl)
  stop_running-SameTables false s = (refl, refl, refl)

  pub spin_once-SameTables : (s : Server) → SameTables s (spin_once s).1
  unfolding spin_once
  spin_once-SameTables s = elim (Bool-cases s.has_spun_once) [
    | inl p ↦ simp (p, spin_once) (refl, refl, refl)
    | inr p ↦ simp (p, spin_once) (refl, refl, refl)
  ]

  -- What comes of a handler that was not left waiting.
  pub not_waiting :
      (s t after : Server) → (if s.locked then none else some t) ≡ some after → t ≡ after
  not_waiting s t after p = ground (arith, p)

  open_connection-IsSound :
      (s : Server) (c : Connection)
      → find c s.open_conn_to_id ≡ none
      → s.opened_conn_counter + 1 < id_mod
      → IsSound s
      → IsSound (open_connection c s)
  unfolding open_connection
  open_connection-IsSound s c new room h = elim (Bool-cases s.closing_down) [
    | inl p ↦ rw (p, open_connection) (same_tables s _ refl refl refl h)
    | inr p ↦ (open_connection-HasIdIfOpen s c h.0, open_connection-HasOwnIds s c p room new h.1)
  ]

  -- The log of a message makes no entry for a connection that has an id.
  insert_id_known :
      (s : Server) (c : Connection)
      → HasIdIfOpen s
      → contains c s.open_connections ≡ true
      → insert_id c 0 s.open_conn_to_id ≡ s.open_conn_to_id
  unfolding insert_id
  insert_id_known s c h open_now = elim (Option-cases (find c s.open_conn_to_id)) [
    | inl p ↦ absurd (ground (arith, h.same c, p, open_now))
    | inr (n, p) ↦ rw (p, insert_id) refl
  ]

  Step-IsSound : {s t : Server} → Step s t → IsSound s → IsSound t
  unfolding handle_opening handle_close handle_tcp_message handle_tls_message spin_once shut_down
  Step-IsSound (opening s after c new room p) h =
      subst IsSound (not_waiting s (open_connection c s) after p)
        (open_connection-IsSound s c new room h)
  Step-IsSound (closing s after c p) h =
      subst IsSound (not_waiting s (close_connection c s) after p)
        (close_connection-HasIdIfOpen s c h.0, close_connection-HasOwnIds s c h.1)
  Step-IsSound (message s c payload) h = same_tables s _ refl refl refl h
  Step-IsSound (tls_message s c payload open_now) h =
      same_tables s _ refl (insert_id_known s c h.0 open_now) refl h
  Step-IsSound (core s e step) h = same_tables s _ refl refl refl h
  Step-IsSound (spin s) h = let (a, b, c) = spin_once-SameTables s in same_tables s _ a b c h
  Step-IsSound (shutting_down s after is_closed joinable p) h =
      let closing_s = record s { closing_down = true } in
      let asked = close_all is_closed s.open_connections closing_s in
      let (a, b, c) = close_all-SameTables is_closed s.open_connections closing_s in
      let (a', b', c') = stop_running-SameTables joinable asked in
      subst IsSound (not_waiting s (stop_running joinable asked) after p)
        (same_tables asked _ a' b' c' (same_tables s asked a b c h))

  -- In every state that a server reaches while it opens fewer than 2^16 connections, a connection
  -- is open exactly if it has an id, every id is at most the counter, and no two connections have
  -- the same id.
  pub Reach-IsSound :
      (validator : Option (List VerificationPolicy)) (e : Endpoint) (s : Server)
      → Reach (make_server validator e) s
      → IsSound s
  unfolding make_server find contains
  Reach-IsSound validator e s here = (
    record { same = λ c. refl },
    record {
      below = λ c n p. absurd (ground (arith, p));
      distinct = λ c d n p q. absurd (ground (arith, p));
    },
  )
  Reach-IsSound validator e s (next r step) = Step-IsSound step (Reach-IsSound validator e _ r)
