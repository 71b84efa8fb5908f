-- ===== src/Endpoint/Configure.antt =====
-- `Endpoint::configure` (src/Endpoint.cpp). The endpoint of the server or the client, which the two
-- virtual functions set up, is copied into a new object: a null pointer makes one as well.
use web_socket_sh.Prelude.{Bool, true, false, if◌then◌else◌}
use web_socket_sh.Config.{Configuration, Result, ok, stopped, raised, Setup, ◌>>=◌, lift}
use web_socket_sh.Config.Parsing.{is_json, is_unsecured}

-- `std::make_shared<TcpEndpoint>(configure_tcp_endpoint(...)) != nullptr`
unfoldable pub make_shared : {S : Type 0} → Result (Unit {0}) × S → Result Bool × S
make_shared (ok _, s) = (ok true, s)
make_shared (stopped, s) = (ok true, s)
make_shared (raised exception, s) = (raised exception, s)

module _ {S : Type 0}
    (configure_tls_endpoint configure_tcp_endpoint : Configuration → Setup S (Unit {0})) where
  unfoldable pub choose_endpoint : Configuration → Bool → Setup S Bool
  unfolding make_shared
  choose_endpoint c true s = make_shared (configure_tcp_endpoint c s)
  choose_endpoint c false s = make_shared (configure_tls_endpoint c s)

  unfoldable pub configure : Configuration → Setup S Bool
  unfolding choose_endpoint
  configure c s =
      if is_json c.encoding
      then (lift (is_unsecured c.security) >>= choose_endpoint c) s
      else (ok false, s)
