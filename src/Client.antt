-- ===== src/Client.antt =====
-- The client of src/Client.cpp. TLS and TCP have the same code on a connection of their own; the
-- model has the connection of the transport in use. The clock, the state of a connection and the
-- connections that websocketpp makes are arguments.
pub mod Configure
pub mod Stages
pub mod Trust
pub mod Starting
pub mod Reconnecting
pub mod Handling
pub mod Steps
pub mod Pacing
pub mod Refinement
pub mod Joining
pub mod Destroying
use web_socket_sh.Prelude.{
  ℕ, ◌-◌, Bool, true, false, not, ◌&&◌, ◌||◌, Option, none, some, List, [], ◌∷◌, ◌++◌, ◌==◌, ltb,
  nat_eq, if◌then◌else◌,
}
use web_socket_sh.Text.{Text}
use web_socket_sh.External.{Externals}
use web_socket_sh.Encoding.{encode_advertise_msg}
use web_socket_sh.Endpoint.{Endpoint, Connection, Outcome, ok, send}
use web_socket_sh.Endpoint.Lifetime.{notify_connection_opened, notify_connection_closed}
use web_socket_sh.Interpret.{interpret_websocket_msg}

-- What the client asks of websocketpp.
pub data Request : Type 0 where
  connect disconnect : Connection → Request
  add_subprotocol : Connection → Text → Request
  stop_perpetual stop : Request

-- `2s` on `std::chrono::steady_clock`, in nanoseconds
abbrev pub retry_after : ℕ
retry_after = 2000000000

module _ ⦃x : Externals⦄ where
  open x use {DynamicType, Node, type_name}

  pub record Client : Type 0 where
    pub endpoint : Endpoint
    -- `none` is a null pointer.
    pub connection : Option Connection
    pub last_connection_attempt : ℕ
    pub has_spun_once : Bool
    pub closing_down : Bool
    pub connection_failed : Bool
    pub jwt_token : Option Text
    -- oldest first
    pub requests : List Request

  -- The constructor, on a configured endpoint and with the token of the configuration. The time of
  -- the last attempt is the epoch of the clock.
  unfoldable pub make_client : Option Text → Endpoint → Client
  make_client jwt_token endpoint = record {
    endpoint = endpoint;
    connection = none;
    last_connection_attempt = 0;
    has_spun_once = false;
    closing_down = false;
    connection_failed = false;
    jwt_token = jwt_token;
    requests = [];
  }

  abbrev pub ask : Request → Client → Client
  ask request s = record s { requests = s.requests ++ request ∷ [] }

  unfoldable pub okay : Client → Bool
  okay s = elim s.connection [ none ↦ false | some c ↦ true ]

  -- The pointer is null, or its connection is closed.
  unfoldable pub is_lost : (Connection → Bool) → Option Connection → Bool
  is_lost is_closed none = true
  is_lost is_closed (some c) = is_closed c

  unfoldable pub attempt_reconnect : (Connection → Bool) → ℕ → Client → Bool
  unfolding is_lost
  attempt_reconnect is_closed now s =
      is_lost is_closed s.connection && ltb retry_after (now - s.last_connection_attempt)

  -- `get_connection` gives a connection, which is told to connect, or an error and a null pointer.
  unfoldable pub take_connection : Option Connection → Client → Client
  take_connection none s = record s { connection = none }
  take_connection (some c) s = ask (connect c) (record s { connection = some c })

  -- The clock is read at the start, and again after an attempt.
  unfoldable pub spin_once :
      (Connection → Bool) → ℕ → ℕ → Option Connection → Client → Bool × Client
  unfolding attempt_reconnect take_connection okay
  spin_once is_closed now later created s =
      let attempted = record (take_connection created s) {
        has_spun_once = true;
        last_connection_attempt = later;
      } in
      if not s.has_spun_once || attempt_reconnect is_closed now s
      then (okay attempted, attempted)
      else (okay s, s)

  unfoldable pub runtime_advertisement :
      Option Connection → Text → DynamicType → Text → Node → Endpoint → Endpoint
  runtime_advertisement none topic message_type id configuration e = e
  runtime_advertisement (some c) topic message_type id configuration e =
      let (msg, encoding) =
        encode_advertise_msg topic (type_name message_type) id configuration e.encoding in
      send c msg (record e { encoding = encoding })

  -- `handle == _connection`
  unfoldable pub is_own : Connection → Option Connection → Bool
  is_own c none = false
  is_own c (some d) = c == d

  -- A message from another connection is logged only.
  unfoldable pub handle_message : Connection → Text → Client → Outcome (Unit {0}) × Client
  unfolding is_own
  handle_message c payload s =
      if is_own c s.connection
      then (let (result, after) = interpret_websocket_msg payload c s.endpoint in
          (result, record s { endpoint = after }))
      else (ok tt, s)

  unfoldable pub handle_close : Connection → Client → Client
  handle_close c s = record s { endpoint = notify_connection_closed c s.endpoint }

  unfoldable pub add_token : Connection → Option Text → Client → Client
  add_token c none s = s
  add_token c (some token) s = ask (add_subprotocol c token) s

  -- The opening of another connection is logged only.
  unfoldable pub handle_opening : Connection → Client → Client
  unfolding is_own add_token
  handle_opening c s =
      if is_own c s.connection
      then add_token c s.jwt_token
          (record s { connection_failed = false; endpoint = notify_connection_opened c s.endpoint })
      else s

  unfoldable pub handle_failed_connection : Client → Client
  handle_failed_connection s = record s { connection_failed = true }

  unfoldable pub handle_socket_init : Connection → Client → Client
  unfolding add_token
  handle_socket_init c s = add_token c s.jwt_token s

  -- The destructor: an open connection is told to close.
  unfoldable pub disconnect_open : (Connection → Bool) → Option Connection → Client → Client
  disconnect_open is_open none s = s
  disconnect_open is_open (some c) s = if is_open c then ask (disconnect c) s else s

  -- A thread is joinable once the client has been initialized.
  unfoldable pub stop_running : Bool → Client → Client
  stop_running joinable s = if joinable then ask stop (ask stop_perpetual s) else s

  unfoldable pub shut_down : (Connection → Bool) → Bool → Client → Client
  unfolding disconnect_open stop_running
  shut_down is_open joinable s =
      stop_running joinable
        (disconnect_open is_open s.connection (record s { closing_down = true }))
