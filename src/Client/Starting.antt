-- ===== src/Client/Starting.antt =====
-- Configurations with which a client is set up (src/Client.cpp).
use web_socket_sh.Prelude.{
  ℕ, ◌%◌, ◌≡◌, ◌↔◌, refl, ap, ◌∙◌, true, Option, none, some, List, [], ◌∷◌, ◌++◌, pos, All,
}
use web_socket_sh.Text.{Text}
use web_socket_sh.Config.{Setting, Authentication, Configuration, ok, Platform}
use web_socket_sh.Config.Parsing.{
  port_mod, parse_port, to_uport, parse_hostname, as_string, as_strings,
}
use web_socket_sh.Config.Ensures.{Ensures-ok}
use web_socket_sh.Config.Success.{bind-ok, lift-ok}
use web_socket_sh.Client.Configure.{
  ClientSetup, set_security, set_host_uri, set_token, load_token, load_auth_config,
  use_default_authorities, load_authority, load_authorities, verify_peers, initialize_client,
  configure_client, configure_tls_endpoint,
}
use web_socket_sh.Client.Stages.{TakesToken, IsLoaded}
use web_socket_sh.Client.Trust.{tls_client-TlsReady}

-- The token of the authentication section is a scalar, where there is one.
abbrev pub HasToken : Option Authentication → Type 0
HasToken none = Unit {0}
HasToken (some auth) = elim auth.token [
  | none ↦ Unit {0}
  | some setting ↦ (text : Text) × (as_string setting ≡ ok text)
]

load_auth_config-HasToken :
    (auth : Option Authentication) (s : ClientSetup)
    → HasToken auth
    → (t : ClientSetup) × (load_auth_config auth s ≡ (ok tt, t))
unfolding load_auth_config set_token
load_auth_config-HasToken none s h = (s, refl)
load_auth_config-HasToken (some auth) s h = load_token-ok auth.token h
  where
    load_token-ok :
        (token : Option Setting)
        → HasToken (some (record { policies = auth.policies; token = token }))
        → (t : ClientSetup) × (load_token token s ≡ (ok tt, t))
    load_token-ok none h = (s, refl)
    load_token-ok (some setting) (text, read) =
        (record s { jwt_token = some text }, ap (λ r. set_token r s) read)

HasToken-TakesToken :
    (auth : Option Authentication) (old token : Option Text)
    → TakesToken auth old token
    → HasToken auth
HasToken-TakesToken none old token h = tt
HasToken-TakesToken (some auth) old token h = has auth.token h
  where
    has :
        (setting : Option Setting)
        → TakesToken (some (record { policies = auth.policies; token = setting })) old token
        → HasToken (some (record { policies = auth.policies; token = setting }))
    has none h = tt
    has (some setting) (text, read, taken) = (text, read)

module _ ⦃p : Platform⦄ where
  open p use {
    find_file, set_default_verify_paths, load_verify_file, set_verify_mode, set_verify_callback,
  }

  load_authority-ok :
      (name : Text) (s : ClientSetup)
      → IsLoaded name
      → load_authority name s
        ≡ (ok tt, record s { authorities = s.authorities ++ find_file name ∷ [] })
  unfolding load_authority
  load_authority-ok name s (there, loads) = rw (there, loads) refl

  load_authorities-ok :
      (names : List Text) (s : ClientSetup)
      → All IsLoaded names
      → (t : ClientSetup) × (load_authorities names s ≡ (ok tt, t))
  unfolding load_authorities
  load_authorities-ok [] s h = (s, refl)
  load_authorities-ok (name ∷ names) s (loaded, rest) =
      let next = record s { authorities = s.authorities ++ find_file name ∷ [] } in
      let (t, done) = load_authorities-ok names next rest in
      (t, bind-ok (load_authority name) _ s tt next (load_authority-ok name s loaded) ∙ done)

  -- The checks that the TLS context makes before the client runs all succeed.
  pub record CanVerify (hostname : Text) (names : List Text) : Type 0 where
    pub default_loaded : set_default_verify_paths ≡ true
    pub loaded : All IsLoaded names
    pub mode_set : set_verify_mode ≡ true
    pub callback_set : set_verify_callback hostname ≡ true

  verify_peers-ok :
      (hostname : Text) (s : ClientSetup)
      → set_verify_mode ≡ true
      → set_verify_callback hostname ≡ true
      → (t : ClientSetup) × (verify_peers hostname s ≡ (ok tt, t))
  unfolding verify_peers
  verify_peers-ok hostname s mode callback =
      (record s { verify_peer = true; verified_host = some hostname }, rw (mode, callback) refl)

  configure_client-ok :
      (hostname : Text) (port : ℕ) (names : List Text) (s : ClientSetup)
      → CanVerify hostname names
      → (t : ClientSetup) × (configure_client hostname port names s ≡ (ok tt, t))
  unfolding configure_client use_default_authorities
  configure_client-ok hostname port names s can =
      let s1 = set_host_uri hostname port s in
      let s2 = record s1 { default_verify_paths = true } in
      let (s3, extra) = load_authorities-ok names s2 can.loaded in
      let (s4, verified) = verify_peers-ok hostname s3 can.mode_set can.callback_set in
      (
        initialize_client s4,
        bind-ok use_default_authorities _ s1 tt s2 (rw can.default_loaded refl)
            ∙ bind-ok (load_authorities names) _ s2 tt s3 extra
            ∙ bind-ok (verify_peers hostname) _ s3 tt s4 verified,
      )

  -- What a configuration has with which a TLS client starts.
  pub record Startable (c : Configuration) : Type 0 where
    pub port : ℕ
    pub names : List Text
    pub parse_port_lem : parse_port c.port ≡ ok (pos port)
    pub token : HasToken c.authentication
    pub as_strings_lem : as_strings c.cert_authorities ≡ ok names
    pub verifies : CanVerify (parse_hostname c.host) names

  starts :
      (c : Configuration) (s : ClientSetup)
      → Startable c
      → (t : ClientSetup) × (configure_tls_endpoint c s ≡ (ok tt, t))
  unfolding configure_tls_endpoint set_security to_uport
  starts c s h =
      let s1 = record s { use_security = true } in
      let (s2, authorized) = load_auth_config-HasToken c.authentication s1 h.token in
      let (t, configured) =
        configure_client-ok (parse_hostname c.host) (h.port % port_mod) h.names s2 h.verifies in
      (
        t,
        lift-ok (parse_port c.port) _ s1 (pos h.port) h.parse_port_lem
            ∙ bind-ok (load_auth_config c.authentication) _ s1 tt s2 authorized
            ∙ lift-ok (as_strings c.cert_authorities) _ s2 h.names h.as_strings_lem
            ∙ configured,
      )

  -- The set-up of a TLS client succeeds exactly if the configuration has a port that is not
  -- negative, its token, if it has one, and its certificate authorities are scalars, the
  -- authorities are found and load beside the default ones, and the TLS context takes the checks
  -- of the peer.
  pub tls_client-Startable :
      (c : Configuration) (s : ClientSetup)
      → ((t : ClientSetup) × (configure_tls_endpoint c s ≡ (ok tt, t))) ↔ Startable c
  tls_client-Startable c s = (needs, starts c s)
    where
      needs : (t : ClientSetup) × (configure_tls_endpoint c s ≡ (ok tt, t)) → Startable c
      needs (t, done) =
          let ready = Ensures-ok _ _ _ tt t (tls_client-TlsReady c s) done in
          record {
            port = ready.port;
            names = ready.names;
            parse_port_lem = ready.parse_port_lem;
            token = HasToken-TakesToken c.authentication s.jwt_token t.jwt_token ready.admitted;
            as_strings_lem = ready.as_strings_lem;
            verifies = record {
              default_loaded = ready.default_loaded;
              loaded = ready.loaded;
              mode_set = ready.mode_set;
              callback_set = ready.callback_set;
            };
          }
