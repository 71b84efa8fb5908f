-- ===== src/Tests/Auth.antt =====
-- Tokens, policies and globs on concrete inputs.
use web_socket_sh.Prelude.{
  if◌then◌else◌, ◌≡◌, ◌↔◌, refl, true, none, some, inl, inr, List, [], ◌∷◌, All,
}
use web_socket_sh.Text.{Text, bytes, text_beq, text_eq}
use web_socket_sh.Dict.{find, assign}
use web_socket_sh.Dict.HashSet.{contains}
use web_socket_sh.Json.{Json, str, obj, field, end}
use web_socket_sh.Json
use web_socket_sh.Encoding.Reader.{as_string}
use web_socket_sh.Auth.Regex.{Piece, literal, any_optional, any_many, parses, match_pieces, is_dot}
use web_socket_sh.Auth.Glob.{glob_to_regex, GlobMatches, glob_to_regex-GlobMatches}
use web_socket_sh.Auth.Policy.{
  Jwt, Rule, passes, refused, VerificationPolicy, make_policy, make_matchers, make_regex, check,
  verify_loop, check_rules, check_rule, verify, decode_by, algorithm,
}
use web_socket_sh.Auth.Patterns.{PatternMatches, check-matches}
use web_socket_sh.Auth.Config.{
  PolicyNode, KeyFile, not_found, parsed, parse_policy, AuthNode, policies,
}

abbrev pub header : Json
header = obj (field (bytes "alg") (str (bytes "HS256")) end)

abbrev pub payload : Json
payload = obj (field (bytes "iss") (str (bytes "joe.net")) end)

-- A library that reads these two from every token, and accepts one secret.
instance abbrev pub jwt : Jwt
jwt = record {
  parts = λ token. (bytes "h", bytes "p");
  parse_part = λ part. if text_beq part (bytes "h") then some header else some payload;
  decode = λ token algorithm key. if text_beq key (bytes "s3cret") then passes else refused;
  other_regex = λ pattern. none;
}

abbrev pub policy_node : PolicyNode
policy_node = record {
  secret = some (bytes "s3cret");
  pubkey = none;
  algo = some (bytes "HS*");
  rules = (bytes "iss", bytes "j?e.*") ∷ [];
}

abbrev no_files : Text → KeyFile
no_files _ = not_found

abbrev door : VerificationPolicy
door = record {
  secret_or_pubkey = bytes "s3cret";
  rules = (bytes "iss", bytes "j.?e\\..*") ∷ [];
  header_rules = (bytes "alg", bytes "HS.*") ∷ [];
  matchers =
      (
        bytes "iss",
        match_pieces (literal b'j' ∷ any_optional ∷ literal b'e' ∷ literal b'.' ∷ any_many ∷ []),
      )
      ∷ [];
  header_matchers = (bytes "alg", match_pieces (literal b'H' ∷ literal b'S' ∷ any_many ∷ [])) ∷ [];
}

parse_door : parse_policy no_files policy_node ≡ parsed door
unfolding parse_policy make_policy make_matchers make_regex parses glob_to_regex contains assign
parse_door = refl

check-door : check door (bytes "h.p.s") header payload ≡ passes
unfolding check check_rules check_rule decode_by algorithm Json.find text_beq find match_pieces
    as_string is_dot
check-door = refl

-- A glob pattern of a policy is matched against the whole claim.
glob_to_regex-GlobMatches_example :
    (pieces : List Piece) × ((parses (glob_to_regex (bytes "a*c"))).start ≡ some pieces)
    × ((match_pieces pieces (bytes "abbc") ≡ true) ↔ GlobMatches (bytes "a*c") (bytes "abbc"))
unfolding contains
glob_to_regex-GlobMatches_example =
    glob_to_regex-GlobMatches (bytes "a*c") (bytes "abbc")
      (inr (inr refl), (inl refl, (inr (inr refl), tt)))

abbrev door_rules : List Rule
door_rules = (bytes "iss", bytes "j.?e\\..*") ∷ []

abbrev door_header_rules : List Rule
door_header_rules = (bytes "alg", bytes "HS.*") ∷ []

check-matches_example : (check door (bytes "h.p.s") header payload ≡ passes) ↔ (
    (decode_by (algorithm header) (bytes "h.p.s") (bytes "s3cret") ≡ passes)
    × (All (PatternMatches header) door_header_rules × All (PatternMatches payload) door_rules))
unfolding make_policy make_matchers make_regex parses assign contains
check-matches_example =
    check-matches door_rules door_header_rules (bytes "s3cret") door (bytes "h.p.s") header payload
      refl (refl, tt) (refl, tt)

abbrev pub doors : List VerificationPolicy
doors = record door { secret_or_pubkey = bytes "other" } ∷ door ∷ []

verify-doors : verify doors (bytes "h.p.s") ≡ passes
unfolding verify verify_loop text_beq check check_rules check_rule decode_by algorithm Json.find
    find match_pieces as_string is_dot
verify-doors = refl

abbrev pub configured : AuthNode
configured = policies (policy_node ∷ [])
