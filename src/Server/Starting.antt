-- ===== src/Server/Starting.antt =====
-- A configuration with which a TLS server is set up (src/Server.cpp).
use web_socket_sh.Prelude.{
  ℕ, ◌%◌, ◌≡◌, ◌↔◌, refl, ap, ◌∙◌, true, false, Option, none, some, List, pos, arith, [], ◌∷◌,
}
use web_socket_sh.Text.{Text, is_empty}
use web_socket_sh.Config.{Authentication, Configuration, FileFormat, ok, Platform}
use web_socket_sh.Config.Parsing.{
  port_mod, parse_port, to_uport, find_websocket_config_file, needed, parse_format,
}
use web_socket_sh.Auth.Policy.{Jwt, VerificationPolicy}
use web_socket_sh.Auth.Config.{parsed, load_auth_policy}
use web_socket_sh.Server.Configure.{
  ServerSetup, set_security, set_validator, use_certificate, use_private_key, initialize_server,
  configure_server, load_auth, configure_tls_endpoint,
}
use web_socket_sh.Server.Stages.{Loaded}
use web_socket_sh.Server.Listening.{configure_tls_endpoint-TlsReady}
use web_socket_sh.Config.Ensures.{Ensures-ok}
use web_socket_sh.Config.Success.{bind-ok, lift-ok}

needed-path : (path : Text) → is_empty path ≡ false → needed (ok path) ≡ ok path
unfolding needed
needed-path [] h = absurd (ground (arith, h))
needed-path (c ∷ path) h = refl

module _ ⦃p : Platform⦄ where
  open p use {find_key_file, use_certificate_file, use_rsa_private_key_file}

  module _ ⦃j : Jwt⦄ where
    -- The policies load, where there are any to load.
    abbrev pub Loads : Option Authentication → Type 0
    Loads none = Unit {0}
    Loads (some auth) =
        (policies : List VerificationPolicy) × (load_auth_policy find_key_file auth.policies []
          ≡ (parsed true, policies))

    load_auth-Loads :
        (auth : Option Authentication) (s : ServerSetup)
        → Loads auth
        → (t : ServerSetup) × (load_auth auth s ≡ (ok tt, t))
    unfolding load_auth set_validator
    load_auth-Loads none s h = (s, refl)
    load_auth-Loads (some auth) s (policies, h) =
        (record s { jwt_validator = some policies }, rw h refl)

    use_certificate-ok :
        (path : Text) (format : FileFormat) (s : ServerSetup)
        → is_empty path ≡ false
        → use_certificate_file path format ≡ true
        → use_certificate path format s ≡ (ok tt, record s { certificate = some path })
    unfolding use_certificate
    use_certificate-ok path format s there loads = rw (there, loads) refl

    use_private_key-ok :
        (path : Text) (format : FileFormat) (s : ServerSetup)
        → is_empty path ≡ false
        → use_rsa_private_key_file path format ≡ true
        → use_private_key path format s ≡ (ok tt, record s { private_key = some path })
    unfolding use_private_key
    use_private_key-ok path format s there loads = rw (there, loads) refl

    configure_server-ok :
        (port : ℕ) (cert key : Text) (format : FileFormat) (s : ServerSetup)
        → (is_empty cert ≡ false) × (use_certificate_file cert format ≡ true)
        → (is_empty key ≡ false) × (use_rsa_private_key_file key format ≡ true)
        → configure_server port cert key format s ≡ (
          ok tt,
          initialize_server port (record s { certificate = some cert; private_key = some key }),
        )
    unfolding configure_server
    configure_server-ok port cert key format s c k =
        bind-ok (use_certificate cert format) _ s tt _ (use_certificate-ok cert format s c.0 c.1)
        ∙ bind-ok (use_private_key key format) _ (record s { certificate = some cert }) tt _
            (use_private_key-ok key format (record s { certificate = some cert }) k.0 k.1)

    -- What a configuration has with which a TLS server starts.
    pub record Startable (c : Configuration) : Type 0 where
      pub port : ℕ
      pub cert_file : Text
      pub key_file : Text
      pub format : FileFormat
      pub parse_port_lem : parse_port c.port ≡ ok (pos port)
      pub cert_found : find_websocket_config_file c.cert ≡ ok cert_file
      pub cert_named : is_empty cert_file ≡ false
      pub key_found : find_websocket_config_file c.key ≡ ok key_file
      pub key_named : is_empty key_file ≡ false
      pub parse_format_lem : parse_format c.format ≡ ok format
      pub cert_loaded : use_certificate_file cert_file format ≡ true
      pub key_loaded : use_rsa_private_key_file key_file format ≡ true
      pub loads : Loads c.authentication

    Loads-Loaded :
        (auth : Option Authentication) (old validator : Option (List VerificationPolicy))
        → Loaded auth old validator
        → Loads auth
    Loads-Loaded none old validator h = tt
    Loads-Loaded (some auth) old validator (policies, h, found) = (policies, h)

    starts :
        (c : Configuration) (s : ServerSetup)
        → Startable c
        → (t : ServerSetup) × (configure_tls_endpoint c s ≡ (ok tt, t))
    unfolding configure_tls_endpoint set_security to_uport
    starts c s h =
        let s1 = record s { use_security = true } in
        let (s2, authorized) = load_auth-Loads c.authentication s1 h.loads in
        (
          _,
          lift-ok (parse_port c.port) _ s1 (pos h.port) h.parse_port_lem
              ∙ lift-ok (needed (find_websocket_config_file c.cert)) _ s1 h.cert_file
                  (ap needed h.cert_found ∙ needed-path h.cert_file h.cert_named)
              ∙ lift-ok (needed (find_websocket_config_file c.key)) _ s1 h.key_file
                  (ap needed h.key_found ∙ needed-path h.key_file h.key_named)
              ∙ lift-ok (parse_format c.format) _ s1 h.format h.parse_format_lem
              ∙ bind-ok (load_auth c.authentication) _ s1 tt s2 authorized
              ∙ configure_server-ok (h.port % port_mod) h.cert_file h.key_file h.format s2
                  (h.cert_named, h.cert_loaded) (h.key_named, h.key_loaded),
        )

    -- The set-up of a TLS server succeeds exactly if the configuration has a port that is not
    -- negative, a certificate and a private key that are found and load in the format that it
    -- names, and, if it has an authentication section, policies that load.
    pub tls_server-Startable :
        (c : Configuration) (s : ServerSetup)
        → ((t : ServerSetup) × (configure_tls_endpoint c s ≡ (ok tt, t))) ↔ Startable c
    tls_server-Startable c s = (needs, starts c s)
      where
        needs : (t : ServerSetup) × (configure_tls_endpoint c s ≡ (ok tt, t)) → Startable c
        needs (t, done) =
            let ready = Ensures-ok _ _ _ tt t (configure_tls_endpoint-TlsReady c s) done in
            record {
              port = ready.port;
              cert_file = ready.cert_file;
              key_file = ready.key_file;
              format = ready.format;
              parse_port_lem = ready.parse_port_lem;
              cert_found = ready.cert_found;
              cert_named = ready.cert_named;
              key_found = ready.key_found;
              key_named = ready.key_named;
              parse_format_lem = ready.parse_format_lem;
              cert_loaded = ready.cert_loaded;
              key_loaded = ready.key_loaded;
              loads = Loads-Loaded c.authentication s.jwt_validator t.jwt_validator ready.validated;
            }
