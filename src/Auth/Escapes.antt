-- ===== src/Auth/Escapes.antt =====
-- The checks of the policies that were loaded from a configuration (src/ServerConfig.cpp,
-- src/JwtValidator.cpp) let no exception escape but those of cpp-jwt.
use web_socket_sh.Prelude.{
  ◌≡◌, ◌≢◌, ap, sym, ◌∙◌, subst, true, false, Bool, Option, none, some, inl, inr, List, [], ◌∷◌,
  ◌++◌, arith, All, Option-cases, Bool-cases, All-append,
}
use web_socket_sh.Text.{Text, text_eq}
use web_socket_sh.Dict.{Dict, find}
use web_socket_sh.Dict.Unique.{IsUnique}
use web_socket_sh.Json.{Json}
use web_socket_sh.Json
use web_socket_sh.Encoding.Reader.{as_string}
use web_socket_sh.Auth.Glob.{IsGlob}
use web_socket_sh.Auth.Policy.{
  Verdict, passes, refused, escapes, Jwt, Rule, Matcher, VerificationPolicy, make_matchers,
  add_verification_policy, check_rules, check_rule, check_value, check_matcher, and_then, decode_by,
  algorithm, check,
}
use web_socket_sh.Auth.Config.{
  PolicyNode, KeyFile, Parsed, parsed, uncaught, Parsed-cases, glob_rules, algo_rules, parse_policy,
  load_policies,
}
use web_socket_sh.Auth.Loading.{
  FindsGlob, make_matchers-FindsGlob, make_policy_lem, parsed-make_policy,
}
use web_socket_sh.Auth.Satisfying.{algo_globs, algo_rules_lem, algo_globs-IsUnique}
use web_socket_sh.Auth.Admission.{IsClear}

passes_only : passes ≢ escapes
passes_only h = ground (arith, h)

refused_only : refused ≢ escapes
refused_only h = ground (arith, h)

and_then-caught : (a b : Verdict) → a ≢ escapes → b ≢ escapes → and_then a b ≢ escapes
unfolding and_then
and_then-caught passes b h k = k
and_then-caught refused b h k = refused_only
and_then-caught escapes b h k = h

value-caught : (m : Matcher) (o : Option Text) → check_value (some m) o ≢ escapes
unfolding check_value check_matcher
value-caught m none = refused_only
value-caught m (some s) = elim (Bool-cases (m s)) [
  | inl p ↦ rw p passes_only
  | inr p ↦ rw p refused_only
]

rule-caught :
    (key : Text) (ms : Dict Text Matcher) (object : Json) (m : Matcher)
    → find key ms ≡ some m
    → check_rule key ms object ≢ escapes
unfolding check_rule
rule-caught key ms object m found = elim (Option-cases (Json.find object key)) [
  | inl p ↦ rw (p, check_rule) refused_only
  | inr (v, p) ↦ rw (p, check_rule) (rw found (value-caught m (as_string v)))
]

module _ ⦃j : Jwt⦄ where
  open j use {decode}

  rules-caught :
      (globs : List (Text × Text)) (ms : Dict Text Matcher) (object : Json)
      → All (FindsGlob ms) globs
      → check_rules (glob_rules globs) ms object ≢ escapes
  unfolding check_rules glob_rules
  rules-caught [] ms object finds = passes_only
  rules-caught ((key, glob) ∷ globs) ms object finds =
      and_then-caught (check_rule key ms object) (check_rules (glob_rules globs) ms object)
        (rule-caught key ms object finds.0.0 finds.0.1.0) (rules-caught globs ms object finds.1)

  globs-caught :
      (globs : List (Text × Text)) (rules : List Rule) (ms : Dict Text Matcher) (object : Json)
      → All (λ rule. IsGlob rule.1) globs
      → IsUnique globs
      → rules ≡ glob_rules globs
      → make_matchers (glob_rules globs) [] ≡ some ms
      → check_rules rules ms object ≢ escapes
  globs-caught globs rules ms object clear u same made =
      subst (λ l. check_rules l ms object ≢ escapes) (sym same)
        (rules-caught globs ms object (make_matchers-FindsGlob globs [] ms clear u made))

  -- cpp-jwt lets no exception escape when it decodes the token, whose header names an algorithm.
  abbrev pub DecodesSafely : Text → Json → Type 0
  DecodesSafely token header =
      (algo : Text) × (algorithm header ≡ some algo)
      × ((key : Text) → decode token algo key ≢ escapes)

  parsed-caught :
      (find_key_file : Text → KeyFile) (node : PolicyNode) (policy : VerificationPolicy)
      (token : Text) (header payload : Json)
      → IsClear node
      → parse_policy find_key_file node ≡ parsed policy
      → DecodesSafely token header
      → check policy token header payload ≢ escapes
  unfolding check
  parsed-caught find_key_file node policy token header payload clear p (algo, named, safe) =
      let (key, found, made) = parsed-make_policy find_key_file node policy p in
      let (matchers, rules, header_matchers, header_rules, same_key) =
        make_policy_lem (glob_rules node.rules) (algo_rules node.algo) key policy made in
      let as_globs = algo_rules_lem node.algo in
      let decoded : decode_by (algorithm header) token policy.secret_or_pubkey ≢ escapes =
        rw named (unfold decode_by in safe policy.secret_or_pubkey) in
      and_then-caught (decode_by (algorithm header) token policy.secret_or_pubkey) _ decoded (
        and_then-caught (check_rules policy.header_rules policy.header_matchers header)
          (check_rules policy.rules policy.matchers payload)
          (globs-caught (algo_globs node.algo) policy.header_rules policy.header_matchers header
            clear.2 (algo_globs-IsUnique node.algo) (header_rules ∙ as_globs)
            (ap (λ l. make_matchers l []) (sym as_globs) ∙ header_matchers))
          (globs-caught node.rules policy.rules policy.matchers payload clear.0 clear.1 rules
            matchers))

  -- No check of a policy that was loaded lets an exception escape.
  pub load_policies-caught :
      (find_key_file : Text → KeyFile) (token : Text) (header payload : Json)
      (nodes : List PolicyNode) (added loaded : List VerificationPolicy)
      → All IsClear nodes
      → load_policies find_key_file nodes added ≡ (parsed true, loaded)
      → DecodesSafely token header
      → All (λ p. check p token header payload ≢ escapes) added
      → All (λ p. check p token header payload ≢ escapes) loaded
  unfolding load_policies add_verification_policy
  load_policies-caught find_key_file token header payload [] added loaded clear p safe h =
      subst (All (λ k. check k token header payload ≢ escapes)) (ap (λ r. r.1) p) h
  load_policies-caught find_key_file token header payload (node ∷ nodes) added loaded clear p safe
        h =
      elim (Parsed-cases (parse_policy find_key_file node)) [
        | inl (policy, q) ↦
            let opened : load_policies find_key_file (node ∷ nodes) added
                ≡ load_policies find_key_file nodes (added ++ policy ∷ []) =
              rw (q, load_policies) in
            let caught =
              parsed-caught find_key_file node policy token header payload clear.0 q safe in
            load_policies-caught find_key_file token header payload nodes (added ++ policy ∷ [])
              loaded clear.1 (sym opened ∙ p) safe
              (All-append (λ k. check k token header payload ≢ escapes) added (policy ∷ []) h
                (caught, tt))
        | inr (inl q) ↦
            let opened : load_policies find_key_file (node ∷ nodes) added ≡ (parsed false, added) =
              rw (q, load_policies) in
            absurd (not_true (ap (λ r. r.0) (sym opened ∙ p)))
        | inr (inr q) ↦
            let opened : load_policies find_key_file (node ∷ nodes) added ≡ (uncaught, added) =
              rw (q, load_policies) in
            absurd (not_caught (ap (λ r. r.0) (sym opened ∙ p)))
      ]
    where
      not_true : ¬ (◌≡◌ {A = Parsed Bool} (parsed false) (parsed true))
      not_true h = ground (arith, h)

      not_caught : ¬ (◌≡◌ {A = Parsed Bool} uncaught (parsed true))
      not_caught h = ground (arith, h)
