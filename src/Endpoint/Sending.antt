-- ===== src/Endpoint/Sending.antt =====
-- What `send` does, in one equation for both transports.
use web_socket_sh.Prelude.{◌≡◌, if◌then◌else◌, if-ap}
use web_socket_sh.Text.{Text}
use web_socket_sh.External.{Externals}
use web_socket_sh.Endpoint.{Endpoint, Connection, Transport, tls, tcp, sent, emit, send}

module _ ⦃x : Externals⦄ where
  abbrev pub transport : Endpoint → Transport
  transport e = if e.use_security then tls else tcp

  pub send_lem :
      (c : Connection) (msg : Text) (e : Endpoint)
      → send c msg e ≡ emit (sent (transport e) c msg) e
  unfolding send
  send_lem c msg e = if-ap (λ t. emit (sent t c msg) e) e.use_security tls tcp
