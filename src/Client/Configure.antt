-- ===== src/Client/Configure.antt =====
-- How a client is set up (src/Client.cpp): `configure_tls_endpoint`, `configure_tcp_endpoint`,
-- `configure_client`, `initialize_tls_client`, `initialize_tcp_client` and `_load_auth_config`.
use web_socket_sh.Prelude.{
  ℕ, Bool, true, false, Option, none, some, List, [], ◌∷◌, ◌++◌, if◌then◌else◌,
}
use web_socket_sh.Text.{Text, bytes, is_empty}
use web_socket_sh.Decimal.{to_string}
use web_socket_sh.Config.{
  Setting, Authentication, Configuration, Result, ok, stopped, raised, Setup, ◌>>=◌, ◌>>◌, lift,
  update, SetupCall, clear_access_channels, init_asio, start_perpetual, on_message, on_close,
  on_open, on_fail, on_tls_init, on_tcp_init, on_socket_init, run, Platform,
}
use web_socket_sh.Config.Parsing.{parse_port, to_uport, parse_hostname, as_string, as_strings}

-- What has been set up so far. The TLS context trusts authorities beside the default ones, and
-- verifies that a peer has the name of the host.
pub record ClientSetup : Type 0 where
  pub use_security : Bool
  pub host_uri : Text
  pub jwt_token : Option Text
  pub default_verify_paths : Bool
  pub authorities : List Text
  pub verify_peer : Bool
  pub verified_host : Option Text
  -- oldest first
  pub calls : List SetupCall

-- The constructor; `use_security` has no value before the configuration.
abbrev pub new_client : ClientSetup
new_client = record {
  use_security = false;
  host_uri = bytes "<undefined>";
  jwt_token = none;
  default_verify_paths = false;
  authorities = [];
  verify_peer = false;
  verified_host = none;
  calls = [];
}

abbrev pub tls_client_calls : List SetupCall
tls_client_calls =
    clear_access_channels ∷ init_asio ∷ start_perpetual ∷ on_message ∷ on_close ∷ on_open ∷ on_fail
    ∷ on_tls_init ∷ on_socket_init ∷ run ∷ []

abbrev pub tcp_client_calls : List SetupCall
tcp_client_calls =
    clear_access_channels ∷ init_asio ∷ start_perpetual ∷ on_message ∷ on_close ∷ on_open ∷ on_fail
    ∷ on_tcp_init ∷ on_socket_init ∷ run ∷ []

unfoldable pub initialize_tls_client : ClientSetup → ClientSetup
initialize_tls_client s = record s { calls = s.calls ++ tls_client_calls }

unfoldable pub initialize_tcp_client : ClientSetup → ClientSetup
initialize_tcp_client s = record s { calls = s.calls ++ tcp_client_calls }

unfoldable pub initialize_client : ClientSetup → ClientSetup
unfolding initialize_tls_client initialize_tcp_client
initialize_client s = if s.use_security then initialize_tls_client s else initialize_tcp_client s

unfoldable pub set_security : Bool → ClientSetup → ClientSetup
set_security use_security s = record s { use_security = use_security }

unfoldable pub uri_prefix : Bool → Text
uri_prefix use_security = if use_security then bytes "wss://" else bytes "ws://"

unfoldable pub set_host_uri : Text → ℕ → ClientSetup → ClientSetup
unfolding uri_prefix
set_host_uri hostname port s = record s {
  host_uri = uri_prefix s.use_security ++ (hostname ++ (b':' ∷ to_string port));
}

-- `token_node.as<std::string>()`
unfoldable pub set_token : Result Text → Setup ClientSetup (Unit {0})
set_token (ok token) s = (ok tt, record s { jwt_token = some token })
set_token stopped s = (stopped, s)
set_token (raised exception) s = (raised exception, s)

unfoldable pub load_token : Option Setting → Setup ClientSetup (Unit {0})
unfolding set_token
load_token none s = (ok tt, s)
load_token (some setting) s = set_token (as_string setting) s

unfoldable pub load_auth_config : Option Authentication → Setup ClientSetup (Unit {0})
unfolding load_token
load_auth_config none s = (ok tt, s)
load_auth_config (some auth) s = load_token auth.token s

module _ ⦃p : Platform⦄ where
  open p use {
    find_file, set_default_verify_paths, load_verify_file, set_verify_mode, set_verify_callback,
  }

  unfoldable pub use_default_authorities : Setup ClientSetup (Unit {0})
  use_default_authorities s =
      if set_default_verify_paths
      then (ok tt, record s { default_verify_paths = true })
      else (stopped, s)

  -- The body of the loop over the extra authorities.
  unfoldable pub load_authority : Text → Setup ClientSetup (Unit {0})
  load_authority name s =
      if is_empty (find_file name)
      then (stopped, s)
      else if load_verify_file (find_file name)
      then (ok tt, record s { authorities = s.authorities ++ find_file name ∷ [] })
      else (stopped, s)

  unfoldable pub load_authorities : List Text → Setup ClientSetup (Unit {0})
  unfolding load_authority
  load_authorities [] s = (ok tt, s)
  load_authorities (name ∷ names) s = (load_authority name >> load_authorities names) s

  unfoldable pub verify_peers : Text → Setup ClientSetup (Unit {0})
  verify_peers hostname s =
      if set_verify_mode
      then (let verifying = record s { verify_peer = true } in
          if set_verify_callback hostname
          then (ok tt, record verifying { verified_host = some hostname })
          else (stopped, verifying))
      else (stopped, s)

  unfoldable pub configure_client : Text → ℕ → List Text → Setup ClientSetup (Unit {0})
  unfolding set_host_uri use_default_authorities load_authorities verify_peers initialize_client
  configure_client hostname port extra_certificate_authorities = do
    update (set_host_uri hostname port)
    use_default_authorities
    load_authorities extra_certificate_authorities
    verify_peers hostname
    update initialize_client

  unfoldable pub configure_tls_endpoint : Configuration → Setup ClientSetup (Unit {0})
  unfolding set_security load_auth_config configure_client
  configure_tls_endpoint c = do
    update (set_security true)
    port ← lift (parse_port c.port)
    uport ← lift (to_uport port)
    load_auth_config c.authentication
    extra_ca ← lift (as_strings c.cert_authorities)
    configure_client (parse_hostname c.host) uport extra_ca

  unfoldable pub configure_tcp_endpoint : Configuration → Setup ClientSetup (Unit {0})
  unfolding set_security load_auth_config configure_client
  configure_tcp_endpoint c = do
    update (set_security false)
    port ← lift (parse_port c.port)
    uport ← lift (to_uport port)
    load_auth_config c.authentication
    configure_client (parse_hostname c.host) uport []
