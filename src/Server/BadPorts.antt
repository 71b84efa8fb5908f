-- ===== src/Server/BadPorts.antt =====
-- What becomes of a server whose port is not usable (src/Endpoint.cpp, src/Server.cpp).
use web_socket_sh.Prelude.{
  ℕ, ◌≡◌, refl, Bool, true, false, not, Option, none, some, ◌⊎◌, inl, inr, negsuc,
}
use web_socket_sh.Text.{Text}
use web_socket_sh.Config.{
  Configuration, Setting, scalar, not_scalar, bad_conversion, ok, raised, Platform,
}
use web_socket_sh.Config.Parsing.{is_json, is_unsecured, parse_port, decoded, to_uport}
use web_socket_sh.Endpoint.Configure.{choose_endpoint, configure}
use web_socket_sh.Auth.Policy.{Jwt}
use web_socket_sh.Server.Configure.{
  ServerSetup, set_security, configure_tls_endpoint, configure_tcp_endpoint,
}

module _ ⦃p : Platform⦄ where
  open p use {decode_int}

  -- There is no port, or it is negative.
  abbrev pub HasNoPort : Option Setting → Type 0
  HasNoPort setting =
      (setting ≡ none)
      ⊎ ((text : Text) × (n : ℕ) × (setting ≡ some (scalar text))
          × (decode_int text ≡ some (negsuc n)))

  -- A port that is no int.
  abbrev pub HasBadPort : Setting → Type 0
  HasBadPort (scalar text) = decode_int text ≡ none
  HasBadPort not_scalar = Unit

  no_port :
      (setting : Option Setting)
      → HasNoPort setting
      → (n : ℕ) × (parse_port setting ≡ ok (negsuc n))
  unfolding parse_port decoded
  no_port setting (inl none_there) = (0, rw (none_there, parse_port))
  no_port setting (inr (text, n, there, negative)) = (n, rw (there, parse_port) (rw negative))

  bad_port :
      (setting : Setting) → HasBadPort setting → parse_port (some setting) ≡ raised bad_conversion
  unfolding parse_port
  bad_port (scalar text) h = rw h
  bad_port not_scalar h = refl

  module _ ⦃j : Jwt⦄ where
    -- A stage of either transport that ends early for its port.
    no_port_stage :
        (secure : Bool) (c : Configuration) (s : ServerSetup)
        → HasNoPort c.port
        → choose_endpoint configure_tls_endpoint configure_tcp_endpoint c secure s
          ≡ (ok true, set_security (not secure) s)
    unfolding choose_endpoint configure_tls_endpoint configure_tcp_endpoint to_uport
    no_port_stage true c s h = let (n, e) = no_port c.port h in rw e refl
    no_port_stage false c s h = let (n, e) = no_port c.port h in rw e refl

    bad_port_stage :
        (secure : Bool) (c : Configuration) (s : ServerSetup) (setting : Setting)
        → c.port ≡ some setting
        → HasBadPort setting
        → choose_endpoint configure_tls_endpoint configure_tcp_endpoint c secure s
          ≡ (raised bad_conversion, set_security (not secure) s)
    unfolding choose_endpoint configure_tls_endpoint configure_tcp_endpoint
    bad_port_stage true c s setting there bad = rw (there, bad_port setting bad) refl
    bad_port_stage false c s setting there bad = rw (there, bad_port setting bad) refl

    -- A server, of either transport, whose port is missing or negative is reported as configured
    -- though it asks nothing of websocketpp: it does not listen.
    pub configure_without_port :
        (c : Configuration) (s : ServerSetup) (unsecured : Bool)
        → is_json c.encoding ≡ true
        → is_unsecured c.security ≡ ok unsecured
        → HasNoPort c.port
        → let (result, after) = configure configure_tls_endpoint configure_tcp_endpoint c s in
          (result ≡ ok true) × (after.calls ≡ s.calls)
    unfolding configure set_security
    configure_without_port c s unsecured json chosen h =
        rw (json, chosen) (rw (no_port_stage unsecured c s h) (refl, refl))

    -- A port that is no int makes the configuration of a server throw, and the server does not
    -- listen.
    pub configure_bad_port :
        (c : Configuration) (s : ServerSetup) (unsecured : Bool) (setting : Setting)
        → is_json c.encoding ≡ true
        → is_unsecured c.security ≡ ok unsecured
        → c.port ≡ some setting
        → HasBadPort setting
        → let (result, after) = configure configure_tls_endpoint configure_tcp_endpoint c s in
          (result ≡ raised bad_conversion) × (after.calls ≡ s.calls)
    unfolding configure set_security
    configure_bad_port c s unsecured setting json chosen there bad =
        rw (json, chosen) (rw (bad_port_stage unsecured c s setting there bad) (refl, refl))
