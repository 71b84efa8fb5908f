-- ===== src/Auth/Rules.antt =====
-- What the rules of a policy ask of a token.
use web_socket_sh.Prelude.{
  ◌≡◌, ◌↔◌, refl, ap, ◌∙◌, sym, true, Option, none, some, inl, inr, List, [], ◌∷◌, arith, All,
  Option-cases,
}
use web_socket_sh.Text.{Text, text_eq}
use web_socket_sh.Dict.{Dict, find}
use web_socket_sh.Json.{Json, str}
use web_socket_sh.Json
use web_socket_sh.Encoding.Reader.{as_string}
use web_socket_sh.Auth.Policy.{
  Verdict, passes, refused, escapes, Jwt, Rule, Matcher, VerificationPolicy, check_rules,
  check_rule, check_value, check_matcher, and_then, check, algorithm, decode_by,
}

-- The field is there, is a string, and its matcher takes the string.
abbrev pub Holds : Text → Dict Text Matcher → Json → Type 0
Holds key matchers object =
    (s : Text) × ((m : Matcher) × ((Json.find object key ≡ some (str s))
        × ((find key matchers ≡ some m) × (m s ≡ true))))

as_string-some : (v : Json) (s : Text) → as_string v ≡ some s → v ≡ str s
unfolding as_string
as_string-some (str t) s h = ground (arith, h)
as_string-some Json.null s h = absurd (ground (arith, h))
as_string-some (Json.boolean b) s h = absurd (ground (arith, h))
as_string-some (Json.number n) s h = absurd (ground (arith, h))
as_string-some (Json.arr vs) s h = absurd (ground (arith, h))
as_string-some (Json.obj fs) s h = absurd (ground (arith, h))

matcher-passes :
    (m : Option Matcher) (s : Text)
    → check_matcher m s ≡ passes
    → (k : Matcher) × ((m ≡ some k) × (k s ≡ true))
unfolding check_matcher
matcher-passes none s h = absurd (ground (arith, h))
matcher-passes (some k) s h = (k, (refl, ground (arith, h)))

value-passes :
    (m : Option Matcher) (o : Option Text)
    → check_value m o ≡ passes
    → (s : Text) × ((o ≡ some s) × (check_matcher m s ≡ passes))
unfolding check_value
value-passes m none h = absurd (ground (arith, h))
value-passes m (some s) h = (s, (refl, h))

check_rule-Holds :
    (key : Text) (matchers : Dict Text Matcher) (object : Json)
    → check_rule key matchers object ≡ passes
    → Holds key matchers object
unfolding check_rule
check_rule-Holds key matchers object h = elim (Option-cases (Json.find object key)) [
  | inl p ↦
      let opened : check_rule key matchers object ≡ refused = rw (p, check_rule) in
      absurd (ground (arith, sym opened ∙ h))
  | inr (v, p) ↦
      let opened : check_rule key matchers object ≡ check_value (find key matchers) (as_string v) =
        rw (p, check_rule) in
      let (s, (q, matched)) = value-passes (find key matchers) (as_string v) (sym opened ∙ h) in
      let (m, (r, t)) = matcher-passes (find key matchers) s matched in
      (s, (m, (p ∙ ap some (as_string-some v s q), (r, t))))
]

Holds-check_rule :
    (key : Text) (matchers : Dict Text Matcher) (object : Json)
    → Holds key matchers object
    → check_rule key matchers object ≡ passes
unfolding check_rule check_value check_matcher as_string
Holds-check_rule key matchers object (s, (m, (p, (q, r)))) = rw (p, check_rule) (rw q (rw r))

pub and_then-passes : (a b : Verdict) → (and_then a b ≡ passes) ↔ ((a ≡ passes) × (b ≡ passes))
unfolding and_then
and_then-passes passes b = (λ h. (refl, h), λ h. h.1)
and_then-passes refused b = (λ h. absurd (ground (arith, h)), λ h. h.0)
and_then-passes escapes b = (λ h. absurd (ground (arith, h)), λ h. h.0)

-- The rules pass exactly if each of them holds.
pub check_rules-Holds :
    (rules : List Rule) (matchers : Dict Text Matcher) (object : Json)
    → (check_rules rules matchers object ≡ passes)
      ↔ All (λ rule. Holds rule.0 matchers object) rules
unfolding check_rules
check_rules-Holds [] matchers object = (λ h. tt, λ h. refl)
check_rules-Holds ((key, pattern) ∷ rules) matchers object =
    let (split, join) =
      and_then-passes (check_rule key matchers object) (check_rules rules matchers object) in
    let (all, each) = check_rules-Holds rules matchers object in
    (
      λ h. (check_rule-Holds key matchers object (split h).0, all (split h).1),
      λ h. join (Holds-check_rule key matchers object h.0, each h.1),
    )

module _ ⦃j : Jwt⦄ where
  open j use {decode}

  -- A token passes a policy exactly if it decodes under the key of the policy and the algorithm
  -- that its header names, and every rule on the header and on the payload finds a string that its
  -- pattern matches.
  pub check-passes :
      (policy : VerificationPolicy) (token : Text) (header payload : Json)
      → (check policy token header payload ≡ passes) ↔ (
          (decode_by (algorithm header) token policy.secret_or_pubkey ≡ passes)
          × (All (λ rule. Holds rule.0 policy.header_matchers header) policy.header_rules
              × All (λ rule. Holds rule.0 policy.matchers payload) policy.rules))
  unfolding check
  check-passes policy token header payload =
      let decoded = decode_by (algorithm header) token policy.secret_or_pubkey in
      let on_header = check_rules policy.header_rules policy.header_matchers header in
      let on_payload = check_rules policy.rules policy.matchers payload in
      let outer = and_then-passes decoded (and_then on_header on_payload) in
      let inner = and_then-passes on_header on_payload in
      let headers = check_rules-Holds policy.header_rules policy.header_matchers header in
      let payloads = check_rules-Holds policy.rules policy.matchers payload in
      (
        λ h. let (d, r) = outer.0 h in (d, (headers.0 (inner.0 r).0, payloads.0 (inner.0 r).1)),
        λ h. outer.1 (h.0, inner.1 (headers.1 h.1.0, payloads.1 h.1.1)),
      )
