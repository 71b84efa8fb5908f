-- ===== src/Config.antt =====
-- The configuration that src/Endpoint.cpp, src/Server.cpp and src/Client.cpp read. A node of yaml-cpp
-- is a record of what the source looks up in it. yaml-cpp's conversion to int, the search for files
-- and the TLS contexts of boost are a parameter, the record Platform.
pub mod Parsing
pub mod Ensures
pub mod Success
pub mod Calls
pub mod Ports
pub mod Agreement
use web_socket_sh.Prelude.{ℕ, Bool, Option, none, some, List, ℤ}
use web_socket_sh.Text.{Text}
use web_socket_sh.Auth.Config.{AuthNode, KeyFile}

-- A node that is defined: a scalar with its text, or anything else.
pub data Setting : Type 0 where
  scalar : Text → Setting
  not_scalar : Setting

-- The node under `authentication`: a server reads policies from it, a client its token.
pub record Authentication : Type 0 where
  pub policies : AuthNode
  pub token : Option Setting

pub record Configuration : Type 0 where
  pub encoding : Option Setting
  pub security : Option Setting
  pub port : Option Setting
  pub host : Option Setting
  pub cert : Option Setting
  pub key : Option Setting
  pub format : Option Setting
  pub cert_authorities : List Setting
  pub authentication : Option Authentication

-- `boost::asio::ssl::context::file_format`
pub data FileFormat : Type 0 where
  pem asn1 : FileFormat

-- `YAML::InvalidNode`, `YAML::BadConversion`, `std::runtime_error`, and what `load_auth_policy` does
-- not catch.
pub data Exception : Type 0 where
  invalid_node bad_conversion unrecognized_format policy_exception : Exception

-- A stage of the configuration goes on with a value, or returns early with `nullptr` or `false`, or
-- throws.
pub data Result (A : Type 0) : Type 0 where
  ok : A → Result A
  stopped : Result A
  raised : Exception → Result A

-- A stage changes what it has set up so far; what is set up before an early end stays.
abbrev pub Setup : Type 0 → Type 0 → Type 0
Setup S A = S → Result A × S

abbrev pub continue : {S A B : Type 0} → (A → Setup S B) → Result A × S → Result B × S
continue f (ok a, s) = f a s
continue f (stopped, s) = (stopped, s)
continue f (raised exception, s) = (raised exception, s)

infixl 5 ◌>>=◌ ◌>>◌
abbrev pub ◌>>=◌ : {S A B : Type 0} → Setup S A → (A → Setup S B) → Setup S B
◌>>=◌ m f s = continue f (m s)

abbrev pub ◌>>◌ : {S A B : Type 0} → Setup S A → Setup S B → Setup S B
m >> n = m >>= λ _. n

-- A stage that changes nothing.
abbrev pub lift : {S A : Type 0} → Result A → Setup S A
lift r s = (r, s)

abbrev pub update : {S : Type 0} → (S → S) → Setup S (Unit {0})
update f s = (ok tt, f s)

-- What the set-up asks of a websocketpp endpoint: options, handlers, the port, and the thread that
-- runs it.
pub data SetupCall : Type 0 where
  set_reuse_addr clear_access_channels init_asio start_perpetual : SetupCall
  on_message on_close on_open on_fail on_tls_init on_tcp_init on_validate on_socket_init : SetupCall
  listen : ℕ → SetupCall
  run : SetupCall

-- `true` of an operation on a TLS context: it left no error.
pub record Platform : Type 0 where
  -- `YAML::convert<int>::decode` on a scalar
  pub decode_int : Text → Option ℤ
  -- `search.find_file(name, "", &checked_paths)`; the empty text means that there is none.
  pub find_file : Text → Text
  -- The same search for the file of a public key, and its content.
  pub find_key_file : Text → KeyFile
  pub use_certificate_file : Text → FileFormat → Bool
  pub use_rsa_private_key_file : Text → FileFormat → Bool
  pub set_default_verify_paths : Bool
  pub load_verify_file : Text → Bool
  pub set_verify_mode : Bool
  pub set_verify_callback : Text → Bool
