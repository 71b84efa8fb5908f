-- ===== src/Endpoint.antt =====
-- The state of an `Endpoint` (src/Endpoint.hpp) that has been configured, with the events by which
-- it acts on the rest of the world. Connections, callbacks and service clients are pointers: numbers
-- here, compared as the source compares them.
pub mod Configure
pub mod Setup
pub mod Traffic
pub mod Receive
pub mod Lifetime
pub mod Sending
pub mod Tables
pub mod WellFormed
pub mod Operations
pub mod Handlers
pub mod Listeners
pub mod Delivery
pub mod Calls
pub mod Answers
pub mod Closing
pub mod Absent
pub mod Unadvertised
use web_socket_sh.Prelude.{ℕ, Bool, Option, List, [], ◌∷◌, ◌++◌, ◌^◌, if◌then◌else◌}
use web_socket_sh.Text.{Text}
use web_socket_sh.Dict.{Dict}
use web_socket_sh.Dict.HashSet.{HashSet}
use web_socket_sh.External.{Externals}
use web_socket_sh.Encoding.{JsonEncoding, make_json_encoding}

-- What escapes from an operation: `std::out_of_range` of `at`, the exception of
-- `get_con_from_hdl`, a `Json::exception`, or undefined behaviour.
pub data Fault : Type 0 where
  out_of_range bad_connection json_type_error undefined_behaviour : Fault

pub data Outcome {ℓ} (A : Type ℓ) : Type ℓ where
  ok : A → Outcome A
  throws : Fault → Outcome A

pub data Transport : Type 0 where
  tls tcp : Transport

abbrev pub Connection : Type 0
Connection = ℕ

pub record CallHandle : Type 0 where
  pub service_name : Text
  pub request_type : Text
  pub reply_type : Text
  pub id : Text
  pub connection_handle : Connection

pub record TopicSubscribeInfo : Type 0 where
  pub type : Text
  pub callback : ℕ
  pub blacklist : HashSet Connection

pub record TopicPublishInfo : Type 0 where
  pub type : Text
  pub listeners : Dict Connection (HashSet Text)

pub record ServiceRequestInfo : Type 0 where
  pub client : ℕ
  pub call_handle : ℕ

-- `std::size_t`
abbrev pub size_mod : ℕ
size_mod = 2 ^ 64

module _ ⦃x : Externals⦄ where
  open x use {DynamicData, Node}

  pub record ClientProxyInfo : Type 0 where
    pub req_type : Text
    pub reply_type : Text
    pub callback : ℕ
    pub configuration : Node

  -- `none` is the null handle of a service that nobody has advertised yet.
  pub record ServiceProviderInfo : Type 0 where
    pub req_type : Text
    pub reply_type : Text
    pub connection_handle : Option Connection
    pub configuration : Node

  -- A message handed to a connection, and calls of a subscription, request or response callback.
  pub data Event : Type 0 where
    sent : Transport → Connection → Text → Event
    delivered : ℕ → DynamicData → Event
    requested : ℕ → DynamicData → CallHandle → Event
    responded : ℕ → ℕ → DynamicData → Event

  pub record Endpoint : Type 0 where
    pub encoding : JsonEncoding
    pub use_security : Bool
    pub startup_messages : List Text
    pub topic_subscribe_info : Dict Text TopicSubscribeInfo
    pub topic_publish_info : Dict Text TopicPublishInfo
    pub client_proxy_info : Dict Text ClientProxyInfo
    pub service_provider_info : Dict Text ServiceProviderInfo
    pub service_request_info : Dict Text ServiceRequestInfo
    pub next_service_call_id : ℕ
    -- oldest first
    pub events : List Event

  -- An operation that may throw leaves the state it had reached.
  abbrev pub Run : Type 0 → Type 0
  Run A = Outcome A × Endpoint

  -- The constructor, and `configure` with the encoding that is always JSON.
  unfoldable pub make_endpoint : Bool → Endpoint
  make_endpoint use_security = record {
    encoding = make_json_encoding;
    use_security = use_security;
    startup_messages = [];
    topic_subscribe_info = [];
    topic_publish_info = [];
    client_proxy_info = [];
    service_provider_info = [];
    service_request_info = [];
    next_service_call_id = 1;
    events = [];
  }

  abbrev pub emit : Event → Endpoint → Endpoint
  emit event e = record e { events = e.events ++ event ∷ [] }

  -- `get_con_from_hdl(handle)->send(payload)` on the endpoint in use. An error code of `send` is
  -- only logged.
  unfoldable pub send : Connection → Text → Endpoint → Endpoint
  send connection payload e =
      if e.use_security
      then emit (sent tls connection payload) e
      else emit (sent tcp connection payload) e
