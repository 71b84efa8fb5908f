-- ===== src/Client/Trust.antt =====
-- When a client runs (src/Client.cpp), whom it trusts then and where it connects.
use web_socket_sh.Prelude.{
  ℕ, ◌%◌, ◌≡◌, refl, ◌∙◌, ap, sym, subst, true, some, List, ◌∷◌, ◌++◌, map, ℤ, pos, All, [], inl,
  inr,
}
use web_socket_sh.Text.{Text, bytes}
use web_socket_sh.Decimal.{to_string}
use web_socket_sh.Config.{
  Configuration, ok, Platform, clear_access_channels, init_asio, start_perpetual, on_message,
  on_close, on_open, on_fail, on_tls_init, on_socket_init,
}
use web_socket_sh.Config.Calls.{connection_calls, Runs}
use web_socket_sh.Config.Parsing.{port_mod, parse_port, to_uport, parse_hostname, as_strings}
use web_socket_sh.Config.Ports.{to_uport_lem}
use web_socket_sh.Config.Ensures.{Ensures, Ensures-bind, Ensures-lift, Ensures-weaken}
use web_socket_sh.Client.Configure.{
  ClientSetup, tls_client_calls, uri_prefix, load_auth_config, initialize_client, configure_client,
  set_security, configure_tls_endpoint,
}
use web_socket_sh.Client.Stages.{
  KeepsCalls, TakesToken, load_auth_config_lem, IsLoaded, IsConnectable, configure_client_lem,
}

tls_client_calls-Runs : Runs (on_tls_init ∷ on_socket_init ∷ connection_calls) tls_client_calls
tls_client_calls-Runs = record {
  before =
      clear_access_channels ∷ init_asio ∷ start_perpetual ∷ on_message ∷ on_close ∷ on_open
      ∷ on_fail ∷ on_tls_init ∷ on_socket_init ∷ [];
  in_order = refl;
  quiet = (tt, (tt, (tt, (tt, (tt, (tt, (tt, (tt, (tt, tt)))))))));
  complete = (
    inr (inr (inr (inr (inr (inr (inr (inl refl))))))),
    (
      inr (inr (inr (inr (inr (inr (inr (inr (inl refl)))))))),
      (
        inr (inl refl),
        (
          inr (inr (inl refl)),
          (
            inr (inr (inr (inl refl))),
            (
              inr (inr (inr (inr (inl refl)))),
              (
                inr (inr (inr (inr (inr (inl refl))))),
                (inr (inr (inr (inr (inr (inr (inl refl)))))), tt),
              ),
            ),
          ),
        ),
      ),
    ),
  );
}

module _ ⦃p : Platform⦄ where
  open p use {
    find_file, set_default_verify_paths, load_verify_file, set_verify_mode, set_verify_callback,
  }

  -- What a TLS client has that has been set up. It runs with all its handlers in place.
  pub record TlsReady (c : Configuration) (s t : ClientSetup) : Type 0 where
    pub port : ℕ
    pub names : List Text
    pub parse_port_lem : parse_port c.port ≡ ok (pos port)
    pub as_strings_lem : as_strings c.cert_authorities ≡ ok names
    pub default_loaded : set_default_verify_paths ≡ true
    pub loaded : All IsLoaded names
    pub mode_set : set_verify_mode ≡ true
    pub callback_set : set_verify_callback (parse_hostname c.host) ≡ true
    pub trusts_default : t.default_verify_paths ≡ true
    pub trusts : t.authorities ≡ s.authorities ++ map find_file names
    pub verifies : t.verify_peer ≡ true
    pub expects : t.verified_host ≡ some (parse_hostname c.host)
    pub addressed :
        t.host_uri
        ≡ bytes "wss://" ++ (parse_hostname c.host ++ (b':' ∷ to_string (port % port_mod)))
    pub admitted : TakesToken c.authentication s.jwt_token t.jwt_token
    pub called : t.calls ≡ s.calls ++ tls_client_calls
    pub runs : Runs (on_tls_init ∷ on_socket_init ∷ connection_calls) tls_client_calls

  -- The state that `configure_client` leaves of a TLS client.
  tls_after :
      (hostname : Text) (port : ℕ) (names : List Text) (t u : ClientSetup)
      → t.use_security ≡ true
      → IsConnectable hostname port names t u
      → u ≡ record t {
        host_uri = bytes "wss://" ++ (hostname ++ (b':' ∷ to_string port));
        default_verify_paths = true;
        authorities = t.authorities ++ map find_file names;
        verify_peer = true;
        verified_host = some hostname;
        calls = t.calls ++ tls_client_calls;
      }
  unfolding initialize_client uri_prefix
  tls_after hostname port names t u secure done = done.after ∙ rw secure refl

  -- The client that `configure_client` has set up after the token was read.
  TlsReady_lem :
      (c : Configuration) (s t u : ClientSetup) (port : ℤ) (uport : ℕ) (names : List Text)
      → parse_port c.port ≡ ok port
      → to_uport port ≡ ok uport
      → as_strings c.cert_authorities ≡ ok names
      → TakesToken c.authentication s.jwt_token t.jwt_token
      → t ≡ record s { use_security = true; jwt_token = t.jwt_token }
      → IsConnectable (parse_hostname c.host) uport names t u
      → TlsReady c s u
  TlsReady_lem c s t u port uport names named cast listed token prepared done =
      let (n, number, modulo) = to_uport_lem port uport cast in
      let after =
        tls_after (parse_hostname c.host) uport names t u (ap (λ v. v.use_security) prepared)
          done in
      record {
        port = n;
        names = names;
        parse_port_lem = named ∙ ap (λ m. ok m) number;
        as_strings_lem = listed;
        default_loaded = done.defaults;
        loaded = done.extras;
        mode_set = done.mode;
        callback_set = done.callback;
        trusts_default = ap (λ v. v.default_verify_paths) after;
        trusts =
            ap (λ v. v.authorities) after ∙ ap (λ v. v.authorities ++ map find_file names) prepared;
        verifies = ap (λ v. v.verify_peer) after;
        expects = ap (λ v. v.verified_host) after;
        addressed =
            ap (λ v. v.host_uri) after
            ∙ ap (λ m. bytes "wss://" ++ (parse_hostname c.host ++ (b':' ∷ to_string m))) modulo;
        admitted =
            subst (TakesToken c.authentication s.jwt_token) (sym (ap (λ v. v.jwt_token) after))
              token;
        called = ap (λ v. v.calls) after ∙ ap (λ v. v.calls ++ tls_client_calls) prepared;
        runs = tls_client_calls-Runs;
      }

  -- A TLS client that is set up runs, as the last thing that it asked of websocketpp; before that
  -- it has set each of its handlers, those of messages, closings, openings, failures, sockets and
  -- the TLS context, and initialized asio. It trusts the default authorities and those that the
  -- configuration names, all found and loaded, expects its peer to have the name of the host, and
  -- connects to that host on the port of the configuration modulo 2^16. If the set-up ends early,
  -- it does not run.
  pub tls_client-TlsReady :
      (c : Configuration) (s : ClientSetup)
      → Ensures (λ _ t. TlsReady c s t) (KeepsCalls s) (configure_tls_endpoint c s)
  unfolding configure_tls_endpoint set_security
  tls_client-TlsReady c s =
      let Ready = λ (_ : Unit {0}) (t : ClientSetup). TlsReady c s t in
      let Early = KeepsCalls s in
      let s1 = record s { use_security = true } in
      Ensures-lift Ready Early (parse_port c.port) _ s1 refl (λ port named.
        Ensures-lift Ready Early (to_uport port) _ s1 refl (λ uport cast.
          Ensures-bind Ready Early _ (load_auth_config c.authentication) _ s1
            (load_auth_config_lem c.authentication s1)
            (λ _ s2 auth.
              Ensures-lift Ready Early (as_strings c.cert_authorities) _ s2
                (ap (λ u. u.calls) auth.1)
                (λ names listed.
                  Ensures-weaken Ready Early _
                    (configure_client (parse_hostname c.host) uport names s2)
                    (configure_client_lem (parse_hostname c.host) uport names s s2
                      (ap (λ u. u.calls) auth.1))
                    (λ _ t done.
                      TlsReady_lem c s s2 t port uport names named cast listed auth.0 auth.1
                        done)))))
