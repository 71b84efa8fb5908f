-- ===== src/Config/Agreement.antt =====
-- A server and a client that are set up from the same port setting (src/Server.cpp, src/Client.cpp).
use web_socket_sh.Prelude.{ℕ, ◌%◌, ◌<◌, ◌≡◌, ◌↔◌, ◌∙◌, ap, sym, ◌++◌, ◌∷◌, pos, ℤ, arith}
use web_socket_sh.Text.{bytes}
use web_socket_sh.Decimal.{to_string, value_from, value-to_string}
use web_socket_sh.Config.{Configuration, Result, ok, Platform}
use web_socket_sh.Config.Parsing.{port_mod, parse_port, parse_hostname}
use web_socket_sh.Config.Ensures.{Ensures-ok}
use web_socket_sh.Auth.Policy.{Jwt}
use web_socket_sh.Server.Configure.{
  ServerSetup, tls_server_calls, configure_tls_endpoint as configure_tls_server,
}
use web_socket_sh.Server.Listening.{configure_tls_endpoint-TlsReady}
use web_socket_sh.Client.Configure.{ClientSetup, configure_tls_endpoint as configure_tls_client}
use web_socket_sh.Client.Trust.{tls_client-TlsReady}

pos-injective : (m n : ℕ) → ◌≡◌ {A = Result ℤ} (ok (pos m)) (ok (pos n)) → m ≡ n
pos-injective m n h = ground (arith, h)

port_range : (n : ℕ) → (n % port_mod < port_mod) × ((n % port_mod ≡ n) ↔ (n < port_mod))
port_range n = (omega arith, (λ h. omega arith, λ h. omega arith))

module _ ⦃p : Platform⦄ ⦃j : Jwt⦄ where
  -- A TLS server and a TLS client that are set up from the same port setting agree: the server
  -- listens on a port below 2^16, which ends the address of the client in decimal digits and reads
  -- back from them; it is the number of the setting exactly if that is below 2^16.
  pub port_agreed :
      (c d : Configuration) (s s' : ServerSetup) (t t' : ClientSetup)
      → c.port ≡ d.port
      → configure_tls_server c s ≡ (ok tt, s')
      → configure_tls_client d t ≡ (ok tt, t')
      → (n port : ℕ) × (parse_port c.port ≡ ok (pos n))
        × (port < port_mod)
        × ((port ≡ n) ↔ (n < port_mod))
        × (s'.calls ≡ s.calls ++ tls_server_calls port)
        × (t'.host_uri ≡ bytes "wss://" ++ (parse_hostname d.host ++ (b':' ∷ to_string port)))
        × (value_from 0 (to_string port) ≡ port)
  port_agreed c d s s' t t' same served connected =
      let server = Ensures-ok _ _ _ tt s' (configure_tls_endpoint-TlsReady c s) served in
      let client = Ensures-ok _ _ _ tt t' (tls_client-TlsReady d t) connected in
      let equal =
        pos-injective client.port server.port
          (sym client.parse_port_lem ∙ ap parse_port (sym same) ∙ server.parse_port_lem) in
      let n = server.port in
      (
        n,
        n % port_mod,
        server.parse_port_lem,
        (port_range n).0,
        (port_range n).1,
        server.called,
        client.addressed
            ∙ ap
                (λ k.
                  bytes "wss://" ++ (parse_hostname d.host ++ (b':' ∷ to_string (k % port_mod))))
                equal,
        value-to_string (n % port_mod),
      )
