-- ===== src/Server/Admitting.antt =====
-- From the configuration of a server to the connections that it accepts (src/Server.cpp).
use web_socket_sh.Prelude.{
  ◌≡◌, ◌≢◌, subst, Bool, true, false, Option, none, some, List, [], ◌∷◌, All, if◌then◌else◌,
}
use web_socket_sh.Text.{Text}
use web_socket_sh.Json.{Json}
use web_socket_sh.External.{Externals}
use web_socket_sh.Config.{Authentication, Configuration, ok, Platform}
use web_socket_sh.Config.Ensures.{Ensures-ok}
use web_socket_sh.Endpoint.{Endpoint, Connection}
use web_socket_sh.Auth.Policy.{Jwt, passes, escapes, VerificationPolicy}
use web_socket_sh.Auth.Validator.{Any}
use web_socket_sh.Auth.Accepting.{Satisfies-verify}
use web_socket_sh.Auth.Satisfying.{Satisfies}
use web_socket_sh.Auth.Admission.{nodes_of, IsClear, accepted-Satisfies}
use web_socket_sh.Server.{make_server, handle_validate}
use web_socket_sh.Server.Validation.{handle_validate-Presents}
use web_socket_sh.Server.Stages.{Loaded}
use web_socket_sh.Server.Configure.{
  ServerSetup, new_server, configure_tls_endpoint, configure_tcp_endpoint,
}
use web_socket_sh.Server.Listening.{
  configure_tls_endpoint-TlsReady, configure_tcp_endpoint-TcpReady,
}

module _ ⦃x : Externals⦄ ⦃p : Platform⦄ ⦃j : Jwt⦄ where
  open p use {find_key_file}
  open j use {parts, parse_part, decode}

  -- The one subprotocol is a token that satisfies one of the policies.
  abbrev pub IsAdmitted : Authentication → List Text → Type 0
  IsAdmitted auth protos =
      (token : Text) × (header : Json) × (payload : Json) × (protos ≡ token ∷ [])
      × (parse_part (parts token).0 ≡ some header)
      × (parse_part (parts token).1 ≡ some payload)
      × Any (Satisfies find_key_file token header payload) (nodes_of auth.policies)

  Loaded-IsAdmitted :
      (auth : Authentication) (validator : Option (List VerificationPolicy)) (e : Endpoint)
      (c : Connection) (protos : List Text)
      → All IsClear (nodes_of auth.policies)
      → Loaded (some auth) none validator
      → (handle_validate c protos (make_server validator e)).0 ≡ passes
      → IsAdmitted auth protos
  unfolding make_server
  Loaded-IsAdmitted auth validator e c protos clear loaded accepted =
      let (policies, from_nodes, same) = loaded in
      let (token, (presented, verified)) =
        (handle_validate-Presents c policies protos (make_server validator e) same).0 accepted in
      let (header, payload, parsed_header, parsed_payload, satisfies) =
        accepted-Satisfies find_key_file auth.policies policies token clear from_nodes verified in
      (token, header, payload, presented, parsed_header, parsed_payload, satisfies)

  -- A server that was set up with an authentication section, for TLS or for TCP, accepts no
  -- connection but one that names exactly one subprotocol, a token whose header and payload parse
  -- and that satisfies some policy of that section: it decodes under the key of the policy and the
  -- algorithm that its header names; the glob of the algorithm, if the policy has one, stands for
  -- that name; and for each rule of the policy it has a claim that is a string and that the glob
  -- of the rule stands for. The rules of a policy name different claims, and the globs have no
  -- other special character.
  pub accepted-IsAdmitted :
      (secure : Bool) (config : Configuration) (auth : Authentication) (s : ServerSetup)
      (e : Endpoint) (c : Connection) (protos : List Text)
      → All IsClear (nodes_of auth.policies)
      → config.authentication ≡ some auth
      → (if secure
          then configure_tls_endpoint config new_server
          else configure_tcp_endpoint config new_server)
        ≡ (ok tt, s)
      → (handle_validate c protos (make_server s.jwt_validator e)).0 ≡ passes
      → IsAdmitted auth protos
  accepted-IsAdmitted true config auth s e c protos clear section done =
      let ready = Ensures-ok _ _ _ tt s (configure_tls_endpoint-TlsReady config new_server) done in
      Loaded-IsAdmitted auth s.jwt_validator e c protos clear
        (subst (λ a. Loaded a none s.jwt_validator) section ready.validated)
  accepted-IsAdmitted false config auth s e c protos clear section done =
      let ready = Ensures-ok _ _ _ tt s (configure_tcp_endpoint-TcpReady config new_server) done in
      Loaded-IsAdmitted auth s.jwt_validator e c protos clear
        (subst (λ a. Loaded a none s.jwt_validator) section ready.validated)

  Loaded-accepted :
      (auth : Authentication) (validator : Option (List VerificationPolicy)) (e : Endpoint)
      (c : Connection) (protos : List Text)
      → All IsClear (nodes_of auth.policies)
      → ((token algo key : Text) → protos ≡ token ∷ [] → decode token algo key ≢ escapes)
      → Loaded (some auth) none validator
      → IsAdmitted auth protos
      → (handle_validate c protos (make_server validator e)).0 ≡ passes
  unfolding make_server
  Loaded-accepted auth validator e c protos clear safe loaded admitted =
      let (policies, from_nodes, same) = loaded in
      let (token, header, payload, presented, parsed_header, parsed_payload, satisfies) =
        admitted in
      (handle_validate-Presents c policies protos (make_server validator e) same).1 (
        token,
        (
          presented,
          Satisfies-verify find_key_file auth.policies policies token header payload clear
              from_nodes parsed_header parsed_payload (λ algo key. safe token algo key presented)
              satisfies,
        ),
      )

  -- A server that was set up with an authentication section, for TLS or for TCP, accepts a
  -- connection that names exactly one subprotocol, a token whose header and payload parse and that
  -- satisfies some policy of that section, if cpp-jwt lets no exception escape when it decodes the
  -- token. The rules of a policy name different claims, and the globs have no other special
  -- character. The rules of a policy include the one on the algorithm of the header only where the
  -- policy has an algo; without one, every algorithm that the header names is taken.
  pub IsAdmitted-accepted :
      (secure : Bool) (config : Configuration) (auth : Authentication) (s : ServerSetup)
      (e : Endpoint) (c : Connection) (protos : List Text)
      → All IsClear (nodes_of auth.policies)
      → ((token algo key : Text) → protos ≡ token ∷ [] → decode token algo key ≢ escapes)
      → config.authentication ≡ some auth
      → (if secure
          then configure_tls_endpoint config new_server
          else configure_tcp_endpoint config new_server)
        ≡ (ok tt, s)
      → IsAdmitted auth protos
      → (handle_validate c protos (make_server s.jwt_validator e)).0 ≡ passes
  IsAdmitted-accepted true config auth s e c protos clear safe section done =
      let ready = Ensures-ok _ _ _ tt s (configure_tls_endpoint-TlsReady config new_server) done in
      Loaded-accepted auth s.jwt_validator e c protos clear safe
        (subst (λ a. Loaded a none s.jwt_validator) section ready.validated)
  IsAdmitted-accepted false config auth s e c protos clear safe section done =
      let ready = Ensures-ok _ _ _ tt s (configure_tcp_endpoint-TcpReady config new_server) done in
      Loaded-accepted auth s.jwt_validator e c protos clear safe
        (subst (λ a. Loaded a none s.jwt_validator) section ready.validated)
