-- ===== src/Tests/Admitting.antt =====
-- A server with policies, and a token that it accepts.
use web_socket_sh.Prelude.{
  ◌≡◌, refl, true, false, none, some, inl, inr, [], ◌∷◌, if◌then◌else◌, Bool, All, ◌≢◌, arith,
}
use web_socket_sh.Text.{Text, bytes, text_beq}
use web_socket_sh.Config.{Configuration}
use web_socket_sh.Config.Parsing.{
  parse_port, parse_format, find_websocket_config_file, needed, to_uport, decoded,
}
use web_socket_sh.Auth.Config.{not_found}
use web_socket_sh.Server.Configure.{ServerSetup, new_server, configure_tls_endpoint}
use web_socket_sh.Server.{make_server, handle_validate}
use web_socket_sh.Server.Admitting.{accepted-IsAdmitted, IsAdmitted-accepted}
use web_socket_sh.Auth.Admission.{IsClear}
use web_socket_sh.Endpoint.{make_endpoint}
use web_socket_sh.Dict.{find, assign}
use web_socket_sh.Dict.HashSet.{contains}
use web_socket_sh.Json.{Json, str, obj}
use web_socket_sh.Json
use web_socket_sh.Encoding.Reader.{as_string}
use web_socket_sh.Auth.Regex.{parses, match_pieces, is_dot}
use web_socket_sh.Auth.Glob.{glob_to_regex}
use web_socket_sh.Auth.Policy.{
  add_verification_policy, make_policy, make_matchers, make_regex, check, verify_loop, check_rules,
  check_rule, verify, decode_by, algorithm, passes, refused, escapes,
}
use web_socket_sh.Auth.Validator.{Any}
use web_socket_sh.Auth.Config.{parse_policy, load_auth_policy, load_policies}
use web_socket_sh.Auth.Satisfying.{Satisfies}
use web_socket_sh.Tests.Sample.{world, busy}
use web_socket_sh.Tests.Auth.{header, payload, jwt, policy_node, configured}
use web_socket_sh.Auth.Glob.{GlobMatches, done, same, star_end, star_more, question_one}
use web_socket_sh.Auth.Config.{secret_or_pubkey}
use web_socket_sh.Tests.Config.{platform, configuration}

abbrev guarded : Configuration
guarded = record configuration {
  authentication = some (record { policies = configured; token = none });
}

abbrev guarded_server : ServerSetup
guarded_server = (configure_tls_endpoint guarded new_server).1

policy_node-IsClear : All IsClear (policy_node ∷ [])
unfolding contains
policy_node-IsClear = (
  (
    ((inr (inr refl), (inr (inl refl), (inr (inr refl), (inr (inr refl), (inl refl, tt))))), tt),
    (refl, tt),
    ((inr (inr refl), (inr (inr refl), (inl refl, tt))), tt),
  ),
  tt,
)

accepted-IsAdmitted_example :
    (token : Text) × (header : Json) × (payload : Json) × ((bytes "h.p.s" ∷ []) ≡ token ∷ [])
    × (jwt.parse_part (jwt.parts token).0 ≡ some header)
    × (jwt.parse_part (jwt.parts token).1 ≡ some payload)
    × Any (Satisfies (λ name. not_found) token header payload) (policy_node ∷ [])
unfolding configure_tls_endpoint parse_port decoded to_uport needed find_websocket_config_file
    parse_format make_server make_endpoint handle_validate contains load_auth_policy load_policies
    add_verification_policy verify verify_loop parse_policy make_policy make_matchers make_regex
    parses glob_to_regex assign text_beq check check_rules check_rule decode_by algorithm Json.find
    find match_pieces as_string is_dot
accepted-IsAdmitted_example =
    accepted-IsAdmitted true guarded (record { policies = configured; token = none }) guarded_server
      busy 7 (bytes "h.p.s" ∷ []) policy_node-IsClear refl refl refl

-- What `*` and `?` stand for here.
algo-GlobMatches : GlobMatches (bytes "HS*") (bytes "HS256")
unfolding is_dot
algo-GlobMatches = same b'H' (omega arith) (omega arith) (
    same b'S' (omega arith) (omega arith)
      (star_more b'2' refl (star_more b'5' refl (star_more b'6' refl (star_end _ _ done)))))

issuer-GlobMatches : GlobMatches (bytes "j?e.*") (bytes "joe.net")
unfolding is_dot
issuer-GlobMatches = same b'j' (omega arith) (omega arith) (
    question_one b'o' refl (
      same b'e' (omega arith) (omega arith) (
        same b'.' (omega arith) (omega arith)
          (star_more b'n' refl (star_more b'e' refl (star_more b't' refl (star_end _ _ done)))))))

decoding_is_safe : (b : Bool) → (if b then passes else refused) ≢ escapes
decoding_is_safe true h = ground (arith, h)
decoding_is_safe false h = ground (arith, h)

token-Satisfies : Satisfies (λ name. not_found) (bytes "h.p.s") header payload policy_node
unfolding algorithm text_beq Json.find as_string secret_or_pubkey is_dot
token-Satisfies = record {
  key = bytes "s3cret";
  key_found = refl;
  decodes = (bytes "HS256", refl, refl);
  names_algo = ((bytes "HS256", (refl, algo-GlobMatches)), tt);
  claims = ((bytes "joe.net", (refl, issuer-GlobMatches)), tt);
}

IsAdmitted-accepted_example :
    (handle_validate 7 (bytes "h.p.s" ∷ []) (make_server guarded_server.jwt_validator busy)).0
    ≡ passes
unfolding configure_tls_endpoint parse_port decoded to_uport needed find_websocket_config_file
    parse_format text_beq load_auth_policy load_policies parse_policy make_policy make_matchers
    make_regex parses glob_to_regex contains
IsAdmitted-accepted_example =
    IsAdmitted-accepted true guarded (record { policies = configured; token = none }) guarded_server
      busy 7 (bytes "h.p.s" ∷ []) policy_node-IsClear
      (λ token algo key presented. decoding_is_safe (text_beq key (bytes "s3cret"))) refl refl
      (bytes "h.p.s", header, payload, refl, refl, refl, inl token-Satisfies)
