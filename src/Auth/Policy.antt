-- ===== src/Auth/Policy.antt =====
-- `VerificationPolicy` and `JwtValidator` (src/JwtValidator.cpp). The cpp-jwt library is a parameter,
-- and so are the patterns outside the modelled part of the grammar of regular expressions.
use web_socket_sh.Prelude.{Bool, Option, none, some, List, [], ◌∷◌, ◌++◌, if◌then◌else◌}
use web_socket_sh.Text.{Text, bytes, text_eq}
use web_socket_sh.Dict.{Dict, find, assign}
use web_socket_sh.Json.{Json}
use web_socket_sh.Json
use web_socket_sh.Encoding.Reader.{as_string}
use web_socket_sh.Auth.Regex.{parses, match_pieces}

-- How a check ends: it returns, it throws `jwt::VerificationError`, or another exception escapes.
pub data Verdict : Type 0 where
  passes refused escapes : Verdict

pub record Jwt : Type 0 where
  -- the header and the payload of a token as text: `three_parts` and `base64_uri_decode`
  pub parts : Text → Text × Text
  -- `json_t::parse(text, nullptr, false)`; `none` is a discarded value.
  pub parse_part : Text → Option Json
  -- `jwt::decode(token, algorithms({algorithm}), secret(key))`
  pub decode : Text → Text → Text → Verdict
  -- `std::regex` on a pattern outside the part of the grammar that is modelled; `none` is a thrown
  -- `std::regex_error`.
  pub other_regex : Text → Option (Text → Bool)

abbrev pub Rule : Type 0
Rule = Text × Text

abbrev pub Matcher : Type 0
Matcher = Text → Bool

pub record VerificationPolicy : Type 0 where
  pub secret_or_pubkey : Text
  pub rules : List Rule
  pub header_rules : List Rule
  pub matchers : Dict Text Matcher
  pub header_matchers : Dict Text Matcher

-- One rule: its field is there, is a string, and matches.
unfoldable pub check_matcher : Option Matcher → Text → Verdict
check_matcher none s = escapes
check_matcher (some m) s = if m s then passes else refused

unfoldable pub check_value : Option Matcher → Option Text → Verdict
unfolding check_matcher
check_value m none = refused
check_value m (some s) = check_matcher m s

unfoldable pub check_rule : Text → Dict Text Matcher → Json → Verdict
unfolding check_value
check_rule key matchers object = elim (Json.find object key) [
  | none ↦ refused
  | some v ↦ check_value (find key matchers) (as_string v)
]

unfoldable pub and_then : Verdict → Verdict → Verdict
and_then passes next = next
and_then refused next = refused
and_then escapes next = escapes

unfoldable pub check_rules : List Rule → Dict Text Matcher → Json → Verdict
unfolding check_rule and_then
check_rules [] matchers object = passes
check_rules ((key, pattern) ∷ rules) matchers object =
    and_then (check_rule key matchers object) (check_rules rules matchers object)

module _ ⦃j : Jwt⦄ where
  open j use {parts, parse_part, decode, other_regex}

  -- `std::regex{pattern}`
  unfoldable pub make_regex : Text → Option Matcher
  make_regex pattern = elim (parses pattern).start [
    | some pieces ↦ some (match_pieces pieces)
    | none ↦ other_regex pattern
  ]

  -- `matchers[rule.first] = std::regex{rule.second}` for each rule; `none` is a thrown exception.
  unfoldable pub make_matchers : List Rule → Dict Text Matcher → Option (Dict Text Matcher)
  make_matchers [] matchers = some matchers
  make_matchers ((key, pattern) ∷ rules) matchers = elim (make_regex pattern) [
    | none ↦ none
    | some m ↦ make_matchers rules (assign key m matchers)
  ]

  unfoldable pub make_policy : List Rule → List Rule → Text → Option VerificationPolicy
  make_policy rules header_rules secret_or_pubkey = elim (make_matchers rules []) [
    | none ↦ none
    | some matchers ↦ elim (make_matchers header_rules []) [
      | none ↦ none
      | some header_matchers ↦ some (record {
        secret_or_pubkey = secret_or_pubkey;
        rules = rules;
        header_rules = header_rules;
        matchers = matchers;
        header_matchers = header_matchers;
      })
    ]
  ]

  -- `jwt::decode` under the algorithm that the header names. A header without the name of one does
  -- not get that far.
  unfoldable pub decode_by : Option Text → Text → Text → Verdict
  decode_by none token key = escapes
  decode_by (some algorithm) token key = decode token algorithm key

  unfoldable pub algorithm : Json → Option Text
  algorithm header = elim (Json.find header (bytes "alg")) [ none ↦ none | some v ↦ as_string v ]

  unfoldable pub check : VerificationPolicy → Text → Json → Json → Verdict
  unfolding decode_by algorithm and_then
  check policy token header payload =
      and_then (decode_by (algorithm header) token policy.secret_or_pubkey) (
        and_then (check_rules policy.header_rules policy.header_matchers header)
          (check_rules policy.rules policy.matchers payload))

  -- The loop over the policies: the first that passes, or an exception that is no
  -- `VerificationError`, ends it.
  unfoldable pub or_else : Verdict → Verdict → Verdict
  or_else passes next = passes
  or_else refused next = next
  or_else escapes next = escapes

  unfoldable pub verify_loop : List VerificationPolicy → Text → Json → Json → Verdict
  unfolding or_else
  verify_loop [] token header payload = refused
  verify_loop (policy ∷ policies) token header payload =
      or_else (check policy token header payload) (verify_loop policies token header payload)

  unfoldable pub verify : List VerificationPolicy → Text → Verdict
  verify policies token = elim (parse_part (parts token).0) [
    | none ↦ refused
    | some header ↦ elim (parse_part (parts token).1) [
      | none ↦ refused
      | some payload ↦ verify_loop policies token header payload
    ]
  ]

-- `add_verification_policy`
unfoldable pub add_verification_policy :
    VerificationPolicy → List VerificationPolicy → List VerificationPolicy
add_verification_policy policy policies = policies ++ policy ∷ []
