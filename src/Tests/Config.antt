-- ===== src/Tests/Config.antt =====
-- Configurations of servers and clients, and the waits of their destructors.
use web_socket_sh.Prelude.{
  ℕ, ◌+◌, ◌*◌, ◌<◌, ◌≡◌, ◌↔◌, refl, true, false, none, some, inl, [], ◌∷◌, ◌++◌, pos, if◌then◌else◌,
}
use web_socket_sh.Text.{bytes, text_beq}
use web_socket_sh.Decimal.{to_string, value_from}
use web_socket_sh.Config.{Configuration, scalar, Platform, ok, raised, bad_conversion}
use web_socket_sh.Config.Parsing.{
  port_mod, parse_port, parse_hostname, parse_format, find_websocket_config_file, needed, to_uport,
  is_json, is_unsecured, as_strings, tolower, decoded,
}
use web_socket_sh.Config.Agreement.{port_agreed}
use web_socket_sh.Endpoint.Configure.{configure}
use web_socket_sh.Auth.Config.{not_found}
use web_socket_sh.Server.Configure.{
  ServerSetup, new_server, tls_server_calls, configure_tls_endpoint, configure_tcp_endpoint,
}
use web_socket_sh.Server.Listening.{TlsReady, configure_tls_endpoint-TlsReady}
use web_socket_sh.Server.BadPorts.{configure_without_port, configure_bad_port}
use web_socket_sh.Client.Configure.{
  ClientSetup, new_client, configure_tls_endpoint as configure_tls_client,
}
use web_socket_sh.Client.Trust.{tls_client-TlsReady}
use web_socket_sh.Client.Trust
use web_socket_sh.Server.Starting.{Startable, tls_server-Startable}
use web_socket_sh.Client.Starting.{tls_client-Startable}
use web_socket_sh.Client.Starting
use web_socket_sh.Waiting.{timed_out, all_closed, wait_loop, wait_for_clients, check_interval}
use web_socket_sh.Tests.Sample.{world}
use web_socket_sh.Tests.Auth.{jwt}

-- A platform that knows two numbers, finds every file under /etc and loads it.
instance abbrev pub platform : Platform
platform = record {
  decode_int = λ text.
      if text_beq text (bytes "8443")
      then some (pos 8443)
      else if text_beq text (bytes "73979")
      then some (pos 73979)
      else none;
  find_file = λ name. bytes "/etc/" ++ name;
  find_key_file = λ name. not_found;
  use_certificate_file = λ path format. true;
  use_rsa_private_key_file = λ path format. true;
  set_default_verify_paths = true;
  load_verify_file = λ path. true;
  set_verify_mode = true;
  set_verify_callback = λ hostname. true;
}

abbrev pub configuration : Configuration
configuration = record {
  encoding = some (scalar (bytes "JSON"));
  security = none;
  port = some (scalar (bytes "8443"));
  host = none;
  cert = some (scalar (bytes "server.crt"));
  key = some (scalar (bytes "server.key"));
  format = none;
  cert_authorities = scalar (bytes "ca.crt") ∷ [];
  authentication = none;
}

abbrev server : ServerSetup
server = (configure_tls_endpoint configuration new_server).1

abbrev client : ClientSetup
client = (configure_tls_client configuration new_client).1

configure_tls_endpoint-TlsReady_example : TlsReady configuration new_server server
unfolding configure_tls_endpoint parse_port decoded to_uport needed find_websocket_config_file
    parse_format text_beq
configure_tls_endpoint-TlsReady_example = configure_tls_endpoint-TlsReady configuration new_server

tls_client-TlsReady_example : Trust.TlsReady configuration new_client client
unfolding configure_tls_client parse_port decoded to_uport as_strings text_beq
tls_client-TlsReady_example = tls_client-TlsReady configuration new_client

tls_server-Startable_example :
    ((t : ServerSetup) × (configure_tls_endpoint configuration new_server ≡ (ok tt, t)))
    ↔ Startable configuration
tls_server-Startable_example = tls_server-Startable configuration new_server

tls_client-Startable_example :
    ((t : ClientSetup) × (configure_tls_client configuration new_client ≡ (ok tt, t)))
    ↔ Starting.Startable configuration
tls_client-Startable_example = tls_client-Startable configuration new_client

configure_without_port_example :
    let unnamed = record configuration { port = none } in
    let (result, after) =
      configure configure_tls_endpoint configure_tcp_endpoint unnamed new_server in
    (result ≡ ok true) × (after.calls ≡ [])
unfolding is_json is_unsecured text_beq tolower
configure_without_port_example =
    configure_without_port (record configuration { port = none }) new_server false refl refl
      (inl refl)

configure_bad_port_example :
    let named = record configuration { port = some (scalar (bytes "https")) } in
    let (result, after) =
      configure configure_tls_endpoint configure_tcp_endpoint named new_server in
    (result ≡ raised bad_conversion) × (after.calls ≡ [])
unfolding is_json is_unsecured text_beq tolower
configure_bad_port_example =
    configure_bad_port (record configuration { port = some (scalar (bytes "https")) }) new_server
      false (scalar (bytes "https")) refl refl refl refl

port_agreed_example :
    (n port : ℕ) × (parse_port configuration.port ≡ ok (pos n))
    × (port < port_mod)
    × ((port ≡ n) ↔ (n < port_mod))
    × (server.calls ≡ tls_server_calls port)
    × (client.host_uri
        ≡ bytes "wss://" ++ (parse_hostname configuration.host ++ (b':' ∷ to_string port)))
    × (value_from 0 (to_string port) ≡ port)
unfolding configure_tls_endpoint configure_tls_client parse_port decoded to_uport needed
    find_websocket_config_file parse_format as_strings text_beq
port_agreed_example =
    port_agreed configuration configuration new_server server new_client client refl refl refl

-- A connection that never closes, on a clock that keeps the time of the sleeps.
still_open :
    wait_for_clients 51 (λ k c. false) (λ k. (k + 1) * check_interval) 0 (7 ∷ [])
    ≡ some (timed_out 51)
unfolding wait_for_clients wait_loop all_closed
still_open = refl
