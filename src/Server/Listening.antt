-- ===== src/Server/Listening.antt =====
-- When a server listens (src/Server.cpp), and what it has then.
use web_socket_sh.Prelude.{
  ℕ, ◌%◌, ◌≡◌, refl, ◌∙◌, ap, sym, subst, true, false, some, ◌++◌, pos, arith, [], ◌∷◌, inl, inr,
}
use web_socket_sh.Text.{Text, is_empty}
use web_socket_sh.Config.{
  Configuration, FileFormat, ok, Platform, set_reuse_addr, clear_access_channels, init_asio,
  start_perpetual, on_message, on_close, on_open, on_fail, on_tls_init, on_tcp_init, on_validate,
}
use web_socket_sh.Config.Calls.{connection_calls, Serves}
use web_socket_sh.Config.Parsing.{
  port_mod, parse_port, to_uport, find_websocket_config_file, needed, parse_format,
}
use web_socket_sh.Config.Ports.{to_uport_lem}
use web_socket_sh.Config.Ensures.{Ensures, Ensures-bind, Ensures-lift, Ensures-weaken}
use web_socket_sh.Auth.Policy.{Jwt}
use web_socket_sh.Server.Configure.{
  ServerSetup, tls_server_calls, tcp_server_calls, initialize_server, configure_server, load_auth,
  set_security, configure_tls_endpoint, configure_tcp_endpoint,
}
use web_socket_sh.Server.Stages.{
  KeepsCalls, needed_lem, Loaded, load_auth_lem, configure_server_lem,
}

tls_server_calls-Serves :
    (port : ℕ) → Serves port (on_tls_init ∷ on_validate ∷ connection_calls) (tls_server_calls port)
tls_server_calls-Serves port = record {
  before =
      set_reuse_addr ∷ clear_access_channels ∷ init_asio ∷ start_perpetual ∷ on_message ∷ on_close
      ∷ on_open ∷ on_fail ∷ on_tls_init ∷ on_validate ∷ [];
  in_order = refl;
  quiet = (tt, (tt, (tt, (tt, (tt, (tt, (tt, (tt, (tt, (tt, tt))))))))));
  complete = (
    inr (inr (inr (inr (inr (inr (inr (inr (inl refl)))))))),
    (
      inr (inr (inr (inr (inr (inr (inr (inr (inr (inl refl))))))))),
      (
        inr (inr (inl refl)),
        (
          inr (inr (inr (inl refl))),
          (
            inr (inr (inr (inr (inl refl)))),
            (
              inr (inr (inr (inr (inr (inl refl))))),
              (
                inr (inr (inr (inr (inr (inr (inl refl)))))),
                (inr (inr (inr (inr (inr (inr (inr (inl refl))))))), tt),
              ),
            ),
          ),
        ),
      ),
    ),
  );
}

tcp_server_calls-Serves :
    (port : ℕ) → Serves port (on_tcp_init ∷ on_validate ∷ connection_calls) (tcp_server_calls port)
tcp_server_calls-Serves port = record {
  before =
      set_reuse_addr ∷ clear_access_channels ∷ init_asio ∷ start_perpetual ∷ on_message ∷ on_close
      ∷ on_open ∷ on_fail ∷ on_tcp_init ∷ on_validate ∷ [];
  in_order = refl;
  quiet = (tt, (tt, (tt, (tt, (tt, (tt, (tt, (tt, (tt, (tt, tt))))))))));
  complete = (
    inr (inr (inr (inr (inr (inr (inr (inr (inl refl)))))))),
    (
      inr (inr (inr (inr (inr (inr (inr (inr (inr (inl refl))))))))),
      (
        inr (inr (inl refl)),
        (
          inr (inr (inr (inl refl))),
          (
            inr (inr (inr (inr (inl refl)))),
            (
              inr (inr (inr (inr (inr (inl refl))))),
              (
                inr (inr (inr (inr (inr (inr (inl refl)))))),
                (inr (inr (inr (inr (inr (inr (inr (inl refl))))))), tt),
              ),
            ),
          ),
        ),
      ),
    ),
  );
}

module _ ⦃p : Platform⦄ where
  open p use {find_key_file, use_certificate_file, use_rsa_private_key_file}

  module _ ⦃j : Jwt⦄ where
    -- What a TLS server has that has been set up. It listens with all its handlers in place.
    pub record TlsReady (c : Configuration) (s t : ServerSetup) : Type 0 where
      pub port : ℕ
      pub cert_file : Text
      pub key_file : Text
      pub format : FileFormat
      pub parse_port_lem : parse_port c.port ≡ ok (pos port)
      pub cert_named : is_empty cert_file ≡ false
      pub key_named : is_empty key_file ≡ false
      pub cert_found : find_websocket_config_file c.cert ≡ ok cert_file
      pub key_found : find_websocket_config_file c.key ≡ ok key_file
      pub parse_format_lem : parse_format c.format ≡ ok format
      pub cert_loaded : use_certificate_file cert_file format ≡ true
      pub key_loaded : use_rsa_private_key_file key_file format ≡ true
      pub secured : t.use_security ≡ true
      pub certified : t.certificate ≡ some cert_file
      pub keyed : t.private_key ≡ some key_file
      pub validated : Loaded c.authentication s.jwt_validator t.jwt_validator
      pub called : t.calls ≡ s.calls ++ tls_server_calls (port % port_mod)
      pub serves :
          Serves
            (port % port_mod)
            (on_tls_init ∷ on_validate ∷ connection_calls)
            (tls_server_calls (port % port_mod))

    -- A TLS server that is set up has, as the last things that it asked of websocketpp, listened
    -- on the port of its configuration modulo 2^16 and then run; before that, when it did not
    -- listen or run yet, it has set each of its handlers, those of messages, closings, openings,
    -- failures, validation and the TLS context, and initialized asio. It has loaded its
    -- certificate, its private key and the policies of its authentication section, if it has one.
    -- If the set-up ends early, it does not listen.
    pub configure_tls_endpoint-TlsReady :
        (c : Configuration) (s : ServerSetup)
        → Ensures (λ _ t. TlsReady c s t) (KeepsCalls s) (configure_tls_endpoint c s)
    unfolding configure_tls_endpoint set_security configure_server initialize_server
    configure_tls_endpoint-TlsReady c s =
        let Ready = λ (_ : Unit {0}) (t : ServerSetup). TlsReady c s t in
        let Early = KeepsCalls s in
        let s1 = record s { use_security = true } in
        Ensures-lift Ready Early (parse_port c.port) _ s1 refl (λ port named.
          Ensures-lift Ready Early (to_uport port) _ s1 refl (λ uport cast.
            Ensures-lift Ready Early (needed (find_websocket_config_file c.cert)) _ s1 refl
              (λ cert found.
                Ensures-lift Ready Early (needed (find_websocket_config_file c.key)) _ s1 refl
                  (λ key known.
                    Ensures-lift Ready Early (parse_format c.format) _ s1 refl (λ format read.
                      Ensures-bind Ready Early _ (load_auth c.authentication) _ s1
                        (load_auth_lem c.authentication s1)
                        (λ _ s2 auth.
                          Ensures-weaken Ready Early _ (configure_server uport cert key format s2)
                            (configure_server_lem uport cert key format s s2
                              (needed_lem _ cert found).1 (needed_lem _ key known).1
                              (ap (λ u. u.calls) auth.1))
                            (λ _ t done.
                              let (n, number, modulo) = to_uport_lem port uport cast in
                              record {
                                port = n;
                                cert_file = cert;
                                key_file = key;
                                format = format;
                                parse_port_lem = named ∙ ap (λ m. ok m) number;
                                cert_named = (needed_lem _ cert found).1;
                                key_named = (needed_lem _ key known).1;
                                cert_found = (needed_lem _ cert found).0;
                                key_found = (needed_lem _ key known).0;
                                parse_format_lem = read;
                                cert_loaded = done.0;
                                key_loaded = done.1;
                                secured = ground arith;
                                certified = ground arith;
                                keyed = ground arith;
                                validated =
                                    let same : t.jwt_validator ≡ s2.jwt_validator = ground arith in
                                    subst (Loaded c.authentication s.jwt_validator) (sym same)
                                      auth.0;
                                called = ground arith;
                                serves = tls_server_calls-Serves (n % port_mod);
                              })))))))

    -- What a TCP server has that has been set up.
    pub record TcpReady (c : Configuration) (s t : ServerSetup) : Type 0 where
      pub port : ℕ
      pub parse_port_lem : parse_port c.port ≡ ok (pos port)
      pub unsecured : t.use_security ≡ false
      pub uncertified : t.certificate ≡ s.certificate
      pub validated : Loaded c.authentication s.jwt_validator t.jwt_validator
      pub called : t.calls ≡ s.calls ++ tcp_server_calls (port % port_mod)
      pub serves :
          Serves
            (port % port_mod)
            (on_tcp_init ∷ on_validate ∷ connection_calls)
            (tcp_server_calls (port % port_mod))

    -- A TCP server that is set up listens, with all its handlers in place, on the port of its
    -- configuration modulo 2^16, and has loaded the policies of its authentication section, if it
    -- has one; if the set-up ends early, it does not listen.
    pub configure_tcp_endpoint-TcpReady :
        (c : Configuration) (s : ServerSetup)
        → Ensures (λ _ t. TcpReady c s t) (KeepsCalls s) (configure_tcp_endpoint c s)
    unfolding configure_tcp_endpoint set_security initialize_server
    configure_tcp_endpoint-TcpReady c s =
        let Ready = λ (_ : Unit {0}) (t : ServerSetup). TcpReady c s t in
        let Early = KeepsCalls s in
        let s1 = record s { use_security = false } in
        Ensures-lift Ready Early (parse_port c.port) _ s1 refl (λ port named.
          Ensures-lift Ready Early (to_uport port) _ s1 refl (λ uport cast.
            Ensures-lift Ready Early (parse_format c.format) _ s1 refl (λ format read.
              Ensures-bind Ready Early _ (load_auth c.authentication) _ s1
                (load_auth_lem c.authentication s1)
                (λ _ s2 auth.
                  let (n, number, modulo) = to_uport_lem port uport cast in
                  let plain : initialize_server uport s2
                      ≡ record s2 { calls = s2.calls ++ tcp_server_calls uport } =
                    rw (ap (λ u. u.use_security) auth.1) refl in
                  record {
                    port = n;
                    parse_port_lem = named ∙ ap (λ m. ok m) number;
                    unsecured = ap (λ u. u.use_security) plain ∙ ap (λ u. u.use_security) auth.1;
                    uncertified = ap (λ u. u.certificate) plain ∙ ap (λ u. u.certificate) auth.1;
                    validated =
                        subst (Loaded c.authentication s.jwt_validator)
                          (sym (ap (λ u. u.jwt_validator) plain)) auth.0;
                    called =
                        ap (λ u. u.calls) plain
                        ∙ ap (λ u. u.calls ++ tcp_server_calls uport) auth.1
                        ∙ ap (λ m. s.calls ++ tcp_server_calls m) modulo;
                    serves = tcp_server_calls-Serves (n % port_mod);
                  }))))
