-- ===== src/Client/Steps.antt =====
-- What happens to a client, one round or handler after the other (src/Client.cpp), on a clock that
-- never goes back.
use web_socket_sh.Prelude.{ℕ, ◌≤◌, Bool, Option}
use web_socket_sh.Text.{Text}
use web_socket_sh.External.{Externals}
use web_socket_sh.Endpoint.{Endpoint, Connection}
use web_socket_sh.Interpret.Steps
use web_socket_sh.Client.{
  Client, spin_once, handle_message, handle_close, handle_opening, handle_failed_connection,
  handle_socket_init, shut_down,
}

module _ ⦃x : Externals⦄ where
  pub record Timed : Type 0 where
    pub client : Client
    pub clock : ℕ

  abbrev pub with_client : Client → Timed → Timed
  with_client s t = record t { client = s }

  -- A round reads the clock at its start and after an attempt; websocketpp says which connections
  -- are closed or open, and which connection it makes.
  pub data Step : Timed → Timed → Type 0 where
    spinning :
        (t : Timed) (is_closed : Connection → Bool) (now later : ℕ) (created : Option Connection)
        → t.clock ≤ now
        → now ≤ later
        → Step t
            (record { client = (spin_once is_closed now later created t.client).1; clock = later })
    message :
        (t : Timed) (c : Connection) (payload : Text)
        → Step t (with_client (handle_message c payload t.client).1 t)
    closing : (t : Timed) (c : Connection) → Step t (with_client (handle_close c t.client) t)
    opening : (t : Timed) (c : Connection) → Step t (with_client (handle_opening c t.client) t)
    failing : (t : Timed) → Step t (with_client (handle_failed_connection t.client) t)
    socket_init :
        (t : Timed) (c : Connection) → Step t (with_client (handle_socket_init c t.client) t)
    core :
        (t : Timed) (e : Endpoint)
        → Steps.Step t.client.endpoint e
        → Step t (with_client (record t.client { endpoint = e }) t)
    shutting_down :
        (t : Timed) (is_open : Connection → Bool) (joinable : Bool)
        → Step t (with_client (shut_down is_open joinable t.client) t)

  pub data Reach (s : Timed) : Timed → Type 0 where
    here : Reach s s
    next : {t u : Timed} → Reach s t → Step t u → Reach s u
