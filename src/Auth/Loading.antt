-- ===== src/Auth/Loading.antt =====
-- What the policies of a configuration ask of a token: the globs of its rules.
use web_socket_sh.Prelude.{
  ◌≡◌, ◌↔◌, ap, ◌∙◌, sym, true, false, Option, none, some, inl, inr, List, [], ◌∷◌, arith, All,
  ◌==◌, ==-refl, Option-cases,
}
use web_socket_sh.Text.{Text, text_eq}
use web_socket_sh.Dict.{Dict, find, assign, find-assign, keys}
use web_socket_sh.Dict.HashSet.{contains}
use web_socket_sh.Dict.Unique.{IsUnique}
use web_socket_sh.Json.{Json, str}
use web_socket_sh.Json
use web_socket_sh.Auth.Regex.{match_pieces}
use web_socket_sh.Auth.Glob.{glob_to_regex, IsGlob, GlobMatches, glob_lem}
use web_socket_sh.Auth.Policy.{
  Jwt, Rule, Matcher, VerificationPolicy, make_regex, make_matchers, make_policy,
}
use web_socket_sh.Auth.Rules.{Holds}
use web_socket_sh.Auth.Config.{
  PolicyNode, KeyFile, Parsed-cases, parsed, parse_error, uncaught, glob_rules, algo_rules,
  secret_or_pubkey, built, parse_policy,
}

some-injective {ℓ} : {A : Type ℓ} {a b : A} → some a ≡ some b → a ≡ b
some-injective p = cc

module _ ⦃j : Jwt⦄ where
  -- The matcher of a glob.
  make_regex-glob :
      (g : Text)
      → IsGlob g
      → (m : Matcher) × ((make_regex (glob_to_regex g) ≡ some m)
          × ((s : Text) → (m s ≡ true) ↔ GlobMatches g s))
  unfolding make_regex
  make_regex-glob g h =
      let (pieces, (p, q)) = glob_lem g h in (match_pieces pieces, (rw (p, make_regex), q))

  pub make_matchers_step :
      (key pattern : Text) (rules : List Rule) (m : Matcher) (acc : Dict Text Matcher)
      → make_regex pattern ≡ some m
      → make_matchers ((key, pattern) ∷ rules) acc ≡ make_matchers rules (assign key m acc)
  unfolding make_matchers
  make_matchers_step key pattern rules m acc q = rw (q, make_matchers)

  -- Rules of other keys leave the matcher of a key alone.
  find-make_matchers :
      (rules : List (Text × Text)) (key : Text) (acc ms : Dict Text Matcher)
      → All (λ rule. IsGlob rule.1) rules
      → contains key (keys rules) ≡ false
      → make_matchers (glob_rules rules) acc ≡ some ms
      → find key ms ≡ find key acc
  unfolding make_matchers glob_rules contains
  find-make_matchers [] key acc ms globs h p = cc
  find-make_matchers ((k, glob) ∷ rules) key acc ms globs h p =
      let (m, (q, _)) = make_regex-glob glob globs.0 in
      let step = make_matchers_step k (glob_to_regex glob) (glob_rules rules) m acc q in
      let (other, rest) : ((k == key) ≡ false) × (contains key (keys rules) ≡ false) =
        ground (arith, h) in
      find-make_matchers rules key (assign k m acc) ms globs.1 rest (sym step ∙ p)
      ∙ find-assign k key m acc
      ∙ rw other

  -- The matcher of a key is the one of its glob.
  abbrev pub FindsGlob : Dict Text Matcher → Text × Text → Type 0
  FindsGlob ms rule =
      (m : Matcher) × ((find rule.0 ms ≡ some m)
        × ((s : Text) → (m s ≡ true) ↔ GlobMatches rule.1 s))

  pub make_matchers-FindsGlob :
      (rules : List (Text × Text)) (acc ms : Dict Text Matcher)
      → All (λ rule. IsGlob rule.1) rules
      → IsUnique rules
      → make_matchers (glob_rules rules) acc ≡ some ms
      → All (FindsGlob ms) rules
  unfolding glob_rules
  make_matchers-FindsGlob [] acc ms globs u p = tt
  make_matchers-FindsGlob ((k, glob) ∷ rules) acc ms globs u p =
      let (m, (q, matches)) = make_regex-glob glob globs.0 in
      let rest = sym (make_matchers_step k (glob_to_regex glob) (glob_rules rules) m acc q) ∙ p in
      let found : find k ms ≡ some m =
        find-make_matchers rules k (assign k m acc) ms globs.1 u.0 rest
        ∙ find-assign k k m acc
        ∙ rw (==-refl k) in
      ((m, (found, matches)), make_matchers-FindsGlob rules (assign k m acc) ms globs.1 u.1 rest)

  -- The claim is there, is a string, and is one of those that the glob stands for.
  abbrev pub ClaimMatches : Json → Text × Text → Type 0
  ClaimMatches payload rule =
      (s : Text) × ((Json.find payload rule.0 ≡ some (str s)) × GlobMatches rule.1 s)

  pub Holds-ClaimMatches :
      (ms : Dict Text Matcher) (payload : Json) (rules : List (Text × Text))
      → All (FindsGlob ms) rules
      → All (λ rule. Holds rule.0 ms payload) (glob_rules rules)
      → All (ClaimMatches payload) rules
  unfolding glob_rules
  Holds-ClaimMatches ms payload [] finds holds = tt
  Holds-ClaimMatches ms payload ((k, glob) ∷ rules) finds holds =
      let (m, (found, matches)) = finds.0 in
      let (s, (n, (field, (same, matched)))) = holds.0 in
      let matcher : m ≡ n = some-injective (sym found ∙ same) in
      (
        (s, (field, (matches s).0 (ap (λ f. f s) matcher ∙ matched))),
        Holds-ClaimMatches ms payload rules finds.1 holds.1,
      )

  -- A policy keeps what it is made from.
  pub make_policy_lem :
      (rules header_rules : List Rule) (key : Text) (policy : VerificationPolicy)
      → make_policy rules header_rules key ≡ some policy
      → (make_matchers rules [] ≡ some policy.matchers)
        × (policy.rules ≡ rules)
        × (make_matchers header_rules [] ≡ some policy.header_matchers)
        × (policy.header_rules ≡ header_rules)
        × (policy.secret_or_pubkey ≡ key)
  unfolding make_policy
  make_policy_lem rules header_rules key policy p = elim (Option-cases (make_matchers rules [])) [
    | inl q ↦
        let opened : make_policy rules header_rules key ≡ none = rw (q, make_policy) in
        absurd (ground (arith, sym opened ∙ p))
    | inr (ms, q) ↦ elim (Option-cases (make_matchers header_rules [])) [
      | inl r ↦
          let opened : make_policy rules header_rules key ≡ none = rw (q, make_policy) (rw r) in
          absurd (ground (arith, sym opened ∙ p))
      | inr (header_ms, r) ↦
          let made : VerificationPolicy = record {
            secret_or_pubkey = key;
            rules = rules;
            header_rules = header_rules;
            matchers = ms;
            header_matchers = header_ms;
          } in
          let opened : make_policy rules header_rules key ≡ some made =
            rw (q, make_policy) (rw r) in
          let same : made ≡ policy = some-injective (sym opened ∙ p) in
          (
            q ∙ ap (λ k. some k.matchers) same,
            sym (ap (λ k. k.rules) same),
            r ∙ ap (λ k. some k.header_matchers) same,
            sym (ap (λ k. k.header_rules) same),
            sym (ap (λ k. k.secret_or_pubkey) same),
          )
    ]
  ]

  built-parsed :
      (find_key_file : Text → KeyFile) (o : Option VerificationPolicy) (policy : VerificationPolicy)
      → built find_key_file o ≡ parsed policy
      → o ≡ some policy
  unfolding built
  built-parsed find_key_file none policy p = absurd (ground (arith, p))
  built-parsed find_key_file (some made) policy p = cc

  -- A policy that was parsed was made from its rules and its key.
  pub parsed-make_policy :
      (find_key_file : Text → KeyFile) (node : PolicyNode) (policy : VerificationPolicy)
      → parse_policy find_key_file node ≡ parsed policy
      → (key : Text) × (secret_or_pubkey find_key_file node.secret node.pubkey ≡ parsed key)
        × (make_policy (glob_rules node.rules) (algo_rules node.algo) key ≡ some policy)
  unfolding parse_policy
  parsed-make_policy find_key_file node policy p =
      elim (Parsed-cases (secret_or_pubkey find_key_file node.secret node.pubkey)) [
        | inl (key, q) ↦
            let made = make_policy (glob_rules node.rules) (algo_rules node.algo) key in
            let opened : parse_policy find_key_file node ≡ built find_key_file made =
              rw (q, parse_policy) in
            (key, q, built-parsed find_key_file made policy (sym opened ∙ p))
        | inr (inl q) ↦
            let opened : parse_policy find_key_file node ≡ parse_error = rw (q, parse_policy) in
            absurd (ground (arith, sym opened ∙ p))
        | inr (inr q) ↦
            let opened : parse_policy find_key_file node ≡ uncaught = rw (q, parse_policy) in
            absurd (ground (arith, sym opened ∙ p))
      ]
