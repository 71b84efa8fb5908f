-- ===== src/Server/Configure.antt =====
-- How a server is set up (src/Server.cpp): `configure_tls_endpoint`, `configure_tcp_endpoint`,
-- `configure_server`, `initialize_tls_server` and `initialize_tcp_server`.
use web_socket_sh.Prelude.{
  ℕ, Bool, true, false, Option, none, some, List, [], ◌∷◌, ◌++◌, if◌then◌else◌,
}
use web_socket_sh.Text.{Text, is_empty}
use web_socket_sh.Config.{
  Authentication, Configuration, FileFormat, policy_exception, ok, stopped, raised, Setup, ◌>>=◌,
  ◌>>◌, lift, update, SetupCall, set_reuse_addr, clear_access_channels, init_asio, start_perpetual,
  on_message, on_close, on_open, on_fail, on_tls_init, on_tcp_init, on_validate, listen, run,
  Platform,
}
use web_socket_sh.Config.Parsing.{
  parse_port, to_uport, find_websocket_config_file, needed, parse_format,
}
use web_socket_sh.Auth.Policy.{Jwt, VerificationPolicy}
use web_socket_sh.Auth.Config.{Parsed, parsed, parse_error, uncaught, load_auth_policy}

-- What has been set up so far. The TLS context holds a certificate and a private key.
pub record ServerSetup : Type 0 where
  pub use_security : Bool
  pub jwt_validator : Option (List VerificationPolicy)
  pub certificate : Option Text
  pub private_key : Option Text
  -- oldest first
  pub calls : List SetupCall

-- The constructor; `use_security` has no value before the configuration.
abbrev pub new_server : ServerSetup
new_server = record {
  use_security = false;
  jwt_validator = none;
  certificate = none;
  private_key = none;
  calls = [];
}

abbrev pub tls_server_calls : ℕ → List SetupCall
tls_server_calls port =
    set_reuse_addr
    ∷ clear_access_channels
    ∷ init_asio
    ∷ start_perpetual
    ∷ on_message
    ∷ on_close
    ∷ on_open
    ∷ on_fail
    ∷ on_tls_init
    ∷ on_validate
    ∷ listen port
    ∷ run
    ∷ []

abbrev pub tcp_server_calls : ℕ → List SetupCall
tcp_server_calls port =
    set_reuse_addr
    ∷ clear_access_channels
    ∷ init_asio
    ∷ start_perpetual
    ∷ on_message
    ∷ on_close
    ∷ on_open
    ∷ on_fail
    ∷ on_tcp_init
    ∷ on_validate
    ∷ listen port
    ∷ run
    ∷ []

unfoldable pub initialize_tls_server : ℕ → ServerSetup → ServerSetup
initialize_tls_server port s = record s { calls = s.calls ++ tls_server_calls port }

unfoldable pub initialize_tcp_server : ℕ → ServerSetup → ServerSetup
initialize_tcp_server port s = record s { calls = s.calls ++ tcp_server_calls port }

unfoldable pub set_security : Bool → ServerSetup → ServerSetup
set_security use_security s = record s { use_security = use_security }

unfoldable pub initialize_server : ℕ → ServerSetup → ServerSetup
unfolding initialize_tls_server initialize_tcp_server
initialize_server port s =
    if s.use_security then initialize_tls_server port s else initialize_tcp_server port s

-- The policies that were loaded become the validator, also when the loading fails.
unfoldable pub set_validator : Parsed Bool × List VerificationPolicy → Setup ServerSetup (Unit {0})
set_validator (parsed true, loaded) s = (ok tt, record s { jwt_validator = some loaded })
set_validator (parsed false, loaded) s = (stopped, record s { jwt_validator = some loaded })
set_validator (parse_error, loaded) s = (stopped, record s { jwt_validator = some loaded })
set_validator (uncaught, loaded) s =
    (raised policy_exception, record s { jwt_validator = some loaded })

module _ ⦃p : Platform⦄ where
  open p use {find_key_file, use_certificate_file, use_rsa_private_key_file}

  unfoldable pub use_certificate : Text → FileFormat → Setup ServerSetup (Unit {0})
  use_certificate cert_file format s =
      if is_empty cert_file
      then (ok tt, s)
      else if use_certificate_file cert_file format
      then (ok tt, record s { certificate = some cert_file })
      else (stopped, s)

  unfoldable pub use_private_key : Text → FileFormat → Setup ServerSetup (Unit {0})
  use_private_key key_file format s =
      if is_empty key_file
      then (ok tt, s)
      else if use_rsa_private_key_file key_file format
      then (ok tt, record s { private_key = some key_file })
      else (stopped, s)

  unfoldable pub configure_server : ℕ → Text → Text → FileFormat → Setup ServerSetup (Unit {0})
  unfolding use_certificate use_private_key initialize_server
  configure_server port cert_file key_file format = do
    use_certificate cert_file format
    use_private_key key_file format
    update (initialize_server port)

  module _ ⦃j : Jwt⦄ where
    unfoldable pub load_auth : Option Authentication → Setup ServerSetup (Unit {0})
    unfolding set_validator
    load_auth none s = (ok tt, s)
    load_auth (some auth) s = set_validator (load_auth_policy find_key_file auth.policies []) s

    unfoldable pub configure_tls_endpoint : Configuration → Setup ServerSetup (Unit {0})
    unfolding set_security configure_server load_auth
    configure_tls_endpoint c = do
      update (set_security true)
      port ← lift (parse_port c.port)
      uport ← lift (to_uport port)
      cert_file ← lift (needed (find_websocket_config_file c.cert))
      key_file ← lift (needed (find_websocket_config_file c.key))
      format ← lift (parse_format c.format)
      load_auth c.authentication
      configure_server uport cert_file key_file format

    unfoldable pub configure_tcp_endpoint : Configuration → Setup ServerSetup (Unit {0})
    unfolding set_security configure_server load_auth
    configure_tcp_endpoint c = do
      update (set_security false)
      port ← lift (parse_port c.port)
      uport ← lift (to_uport port)
      format ← lift (parse_format c.format)
      load_auth c.authentication
      configure_server uport [] [] format
