-- ===== src/Auth/Satisfying.antt =====
-- What a policy of the configuration (src/ServerConfig.cpp) asks of a token: its key, its algorithms
-- and its rules.
use web_socket_sh.Prelude.{
  ◌≡◌, refl, ap, ◌∙◌, sym, subst, Option, none, some, inl, inr, List, [], ◌∷◌, arith, All,
  Option-cases,
}
use web_socket_sh.Text.{Text, bytes, text_eq}
use web_socket_sh.Dict.{Dict}
use web_socket_sh.Dict.HashSet.{contains}
use web_socket_sh.Dict.Unique.{IsUnique}
use web_socket_sh.Json.{Json}
use web_socket_sh.Auth.Glob.{IsGlob}
use web_socket_sh.Auth.Policy.{
  passes, escapes, Jwt, Rule, Matcher, VerificationPolicy, make_matchers, decode_by, algorithm,
  check,
}
use web_socket_sh.Auth.Rules.{Holds, check-passes}
use web_socket_sh.Auth.Config.{
  PolicyNode, KeyFile, parsed, glob_rules, algo_rules, secret_or_pubkey, parse_policy,
}
use web_socket_sh.Auth.Loading.{
  ClaimMatches, Holds-ClaimMatches, make_matchers-FindsGlob, make_policy_lem, parsed-make_policy,
}

module _ ⦃j : Jwt⦄ where
  open j use {decode}

  -- The field of the header that a policy has a glob for, if it names algorithms.
  abbrev pub algo_globs : Option Text → List (Text × Text)
  algo_globs none = []
  algo_globs (some algo) = (bytes "alg", algo) ∷ []

  pub algo_rules_lem : (algo : Option Text) → algo_rules algo ≡ glob_rules (algo_globs algo)
  unfolding algo_rules glob_rules
  algo_rules_lem none = refl
  algo_rules_lem (some algo) = refl

  pub algo_globs-IsUnique : (algo : Option Text) → IsUnique (algo_globs algo)
  unfolding contains
  algo_globs-IsUnique none = tt
  algo_globs-IsUnique (some algo) = (refl, tt)

  -- The rules of a policy, as they hold of a part of a token, are what the globs ask.
  rules-ClaimMatches :
      (globs : List (Text × Text)) (rules : List Rule) (ms : Dict Text Matcher) (object : Json)
      → All (λ rule. IsGlob rule.1) globs
      → IsUnique globs
      → rules ≡ glob_rules globs
      → make_matchers (glob_rules globs) [] ≡ some ms
      → All (λ rule. Holds rule.0 ms object) rules
      → All (ClaimMatches object) globs
  rules-ClaimMatches globs rules ms object clear u same made holds =
      Holds-ClaimMatches ms object globs (make_matchers-FindsGlob globs [] ms clear u made)
        (subst (λ l. All (λ rule. Holds rule.0 ms object) l) same holds)

  -- The token decodes under the key and the algorithm.
  abbrev pub Decodes : Text → Json → Text → Type 0
  Decodes token header key =
      (algo : Text) × (algorithm header ≡ some algo) × (decode token algo key ≡ passes)

  decode_by-Decodes :
      (token key : Text) (header : Json)
      → decode_by (algorithm header) token key ≡ passes
      → Decodes token header key
  decode_by-Decodes token key header h = elim (Option-cases (algorithm header)) [
    | inl p ↦
        let opened : decode_by (algorithm header) token key ≡ escapes =
          rw p (unfold decode_by in refl) in
        absurd (ground (arith, sym opened ∙ h))
    | inr (algo, p) ↦
        let opened : decode_by (algorithm header) token key ≡ decode token algo key =
          rw p (unfold decode_by in refl) in
        (algo, p, sym opened ∙ h)
  ]

  -- What a policy of the configuration asks of a token: that it decodes under the key of the policy
  -- and the algorithm that its header names, that this is one of those that the policy names, and
  -- that each rule has a claim that is a string and that its glob stands for.
  pub record Satisfies (find_key_file : Text → KeyFile) (token : Text) (header payload : Json)
      (node : PolicyNode) : Type 0 where
    pub key : Text
    pub key_found : secret_or_pubkey find_key_file node.secret node.pubkey ≡ parsed key
    pub decodes : Decodes token header key
    pub names_algo : All (ClaimMatches header) (algo_globs node.algo)
    pub claims : All (ClaimMatches payload) node.rules

  -- A token that passes a policy that was parsed from the configuration satisfies the policy; the
  -- rules name different claims and their globs have no other special character.
  pub check-Satisfies :
      (find_key_file : Text → KeyFile) (node : PolicyNode) (policy : VerificationPolicy)
      (token : Text) (header payload : Json)
      → All (λ rule. IsGlob rule.1) node.rules
      → IsUnique node.rules
      → All (λ rule. IsGlob rule.1) (algo_globs node.algo)
      → parse_policy find_key_file node ≡ parsed policy
      → check policy token header payload ≡ passes
      → Satisfies find_key_file token header payload node
  check-Satisfies find_key_file node policy token header payload globs u algo_glob p h =
      let (key, found, made) = parsed-make_policy find_key_file node policy p in
      let (matchers, rules, header_matchers, header_rules, same_key) =
        make_policy_lem (glob_rules node.rules) (algo_rules node.algo) key policy made in
      let (decoded, (on_header, on_payload)) = (check-passes policy token header payload).0 h in
      let as_globs = algo_rules_lem node.algo in
      record {
        key = key;
        key_found = found;
        decodes =
            decode_by-Decodes token key header
              (ap (λ k. decode_by (algorithm header) token k) (sym same_key) ∙ decoded);
        names_algo =
            rules-ClaimMatches (algo_globs node.algo) policy.header_rules policy.header_matchers
              header algo_glob (algo_globs-IsUnique node.algo) (header_rules ∙ as_globs)
              (ap (λ l. make_matchers l []) (sym as_globs) ∙ header_matchers) on_header;
        claims =
            rules-ClaimMatches node.rules policy.rules policy.matchers payload globs u rules
              matchers on_payload;
      }
