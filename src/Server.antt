-- ===== src/Server.antt =====
-- The server of src/Server.cpp. TLS and TCP have the same code on tables of their own; the model has
-- the tables of the transport in use. `_mutex` is a flag: a handler that finds it locked waits for
-- ever, since handlers run to their end one after the other.
pub mod Configure
pub mod Stages
pub mod Listening
pub mod Starting
pub mod BadPorts
pub mod Connections
pub mod Ids
pub mod Steps
pub mod Refinement
pub mod Presence
pub mod Closing
pub mod Joining
pub mod Destroying
pub mod Advertising
pub mod Validation
pub mod Admitting
use web_socket_sh.Prelude.{
  ℕ, ◌+◌, ◌%◌, ◌^◌, Bool, true, false, Option, none, some, List, [], ◌∷◌, ◌++◌, nat_eq,
  if◌then◌else◌,
}
use web_socket_sh.Text.{Text}
use web_socket_sh.Dict.{Dict, find, assign, erase}
use web_socket_sh.Dict.HashSet.{HashSet, contains, insert, remove}
use web_socket_sh.External.{Externals}
use web_socket_sh.Encoding.{encode_advertise_msg}
use web_socket_sh.Endpoint.{Endpoint, Connection, Outcome, send}
use web_socket_sh.Endpoint.Lifetime.{notify_connection_opened, notify_connection_closed}
use web_socket_sh.Interpret.{interpret_websocket_msg}
use web_socket_sh.Auth.Policy.{Jwt, Verdict, passes, refused, escapes, VerificationPolicy, verify}

-- What the server asks of websocketpp.
pub data Action : Type 0 where
  start_accept stop : Action
  close set_unauthorized : Connection → Action
  select_subprotocol : Connection → Text → Action

-- `uint16_t`
abbrev pub id_mod : ℕ
id_mod = 2 ^ 16

-- `map.insert({k, v})`: an entry that is there stays.
unfoldable pub insert_id : Connection → ℕ → Dict Connection ℕ → Dict Connection ℕ
insert_id c n ids = elim (find c ids) [ none ↦ assign c n ids | some _ ↦ ids ]

module _ ⦃x : Externals⦄ where
  open x use {DynamicType, Node, type_name}

  pub record Server : Type 0 where
    pub endpoint : Endpoint
    pub open_connections : HashSet Connection
    pub opened_conn_counter : ℕ
    pub open_conn_to_id : Dict Connection ℕ
    pub has_spun_once : Bool
    pub closing_down : Bool
    pub jwt_validator : Option (List VerificationPolicy)
    pub locked : Bool
    -- oldest first
    pub actions : List Action

  -- The constructor, on a configured endpoint.
  unfoldable pub make_server : Option (List VerificationPolicy) → Endpoint → Server
  make_server jwt_validator endpoint = record {
    endpoint = endpoint;
    open_connections = [];
    opened_conn_counter = 0;
    open_conn_to_id = [];
    has_spun_once = false;
    closing_down = false;
    jwt_validator = jwt_validator;
    locked = false;
    actions = [];
  }

  abbrev pub act : Action → Server → Server
  act action s = record s { actions = s.actions ++ action ∷ [] }

  -- The body of `_handle_opening`, with the mutex held. The return while the server closes down
  -- does not unlock it.
  unfoldable pub open_connection : Connection → Server → Server
  unfolding insert_id
  open_connection c s =
      if s.closing_down
      then record (act (close c) s) { locked = true }
      else (let counter = (s.opened_conn_counter + 1) % id_mod in
          record s {
            opened_conn_counter = counter;
            open_conn_to_id = insert_id c counter s.open_conn_to_id;
            endpoint = notify_connection_opened c s.endpoint;
            open_connections = insert c s.open_connections;
          })

  -- `none`: it waits for the mutex for ever.
  unfoldable pub handle_opening : Connection → Server → Option Server
  unfolding open_connection
  handle_opening c s = if s.locked then none else some (open_connection c s)

  unfoldable pub close_connection : Connection → Server → Server
  close_connection c s = record s {
    open_conn_to_id = erase c s.open_conn_to_id;
    endpoint = notify_connection_closed c s.endpoint;
    open_connections = remove c s.open_connections;
  }

  unfoldable pub handle_close : Connection → Server → Option Server
  unfolding close_connection
  handle_close c s = if s.locked then none else some (close_connection c s)

  -- `_handle_tcp_message`
  unfoldable pub handle_tcp_message : Connection → Text → Server → Outcome (Unit {0}) × Server
  handle_tcp_message c payload s =
      let (result, after) = interpret_websocket_msg payload c s.endpoint in
      (result, record s { endpoint = after })

  -- `_handle_tls_message`: the log makes an entry with id 0 for a connection that has none.
  unfoldable pub handle_tls_message : Connection → Text → Server → Outcome (Unit {0}) × Server
  unfolding insert_id handle_tcp_message
  handle_tls_message c payload s =
      handle_tcp_message c payload (record s { open_conn_to_id = insert_id c 0 s.open_conn_to_id })

  unfoldable pub spin_once : Server → Bool × Server
  spin_once s =
      if s.has_spun_once
      then (true, s)
      else (true, record (act start_accept s) { has_spun_once = true })

  -- `for (connection : connections) connection->send(msg)`
  unfoldable pub broadcast : HashSet Connection → Text → Endpoint → Endpoint
  broadcast [] msg e = e
  broadcast (c ∷ connections) msg e = broadcast connections msg (send c msg e)

  -- What `runtime_advertisement` does to the endpoint, with the connections that are open.
  unfoldable pub advertise_to :
      HashSet Connection → Text → DynamicType → Text → Node → Endpoint → Endpoint
  unfolding broadcast
  advertise_to connections topic message_type id configuration e =
      let (msg, encoding) =
        encode_advertise_msg topic (type_name message_type) id configuration e.encoding in
      broadcast connections msg (record e { encoding = encoding })

  -- `none`: it waits for the mutex for ever.
  unfoldable pub runtime_advertisement : Text → DynamicType → Text → Node → Server → Option Server
  unfolding advertise_to
  runtime_advertisement topic message_type id configuration s =
      if s.locked
      then none
      else some (record s {
        endpoint = advertise_to s.open_connections topic message_type id configuration s.endpoint;
      })

  -- The destructor asks every connection that is not closed to close, waits for that with the mutex
  -- held, and stops the server. `Destroying` has the wait, and the join of the thread.
  unfoldable pub close_all : (Connection → Bool) → HashSet Connection → Server → Server
  close_all is_closed [] s = s
  close_all is_closed (c ∷ connections) s =
      close_all is_closed connections (if is_closed c then s else act (close c) s)

  -- A thread is joinable once the server has been initialized.
  unfoldable pub stop_running : Bool → Server → Server
  stop_running joinable s = if joinable then act stop s else s

  unfoldable pub shut_down : (Connection → Bool) → Bool → Server → Option Server
  unfolding close_all stop_running
  shut_down is_closed joinable s =
      let closing = record s { closing_down = true } in
      if s.locked
      then none
      else some (stop_running joinable (close_all is_closed s.open_connections closing))

  -- The verdict on a token becomes the status of the connection.
  unfoldable pub answer_token : Connection → Text → Verdict → Server → Verdict × Server
  answer_token c token passes s = (passes, act (select_subprotocol c token) s)
  answer_token c token refused s = (refused, act (set_unauthorized c) s)
  answer_token c token escapes s = (escapes, s)

  module _ ⦃j : Jwt⦄ where
    -- With a validator, a client must name exactly one subprotocol: its token.
    unfoldable pub validate_token :
        Connection → List VerificationPolicy → List Text → Server → Verdict × Server
    unfolding answer_token
    validate_token c policies [] s = (refused, act (set_unauthorized c) s)
    validate_token c policies (token ∷ []) s = answer_token c token (verify policies token) s
    validate_token c policies (token ∷ other ∷ more) s = (refused, act (set_unauthorized c) s)

    unfoldable pub handle_validate : Connection → List Text → Server → Verdict × Server
    unfolding validate_token
    handle_validate c requested_sub_protos s = elim s.jwt_validator [
      | none ↦ (passes, s)
      | some policies ↦ validate_token c policies requested_sub_protos s
    ]
