-- ===== src/Auth/Patterns.antt =====
-- What a policy that `make_policy` has made asks of a token (src/JwtValidator.cpp): the patterns of
-- its rules.
use web_socket_sh.Prelude.{
  ◌≡◌, ◌↔◌, ap, ◌∙◌, sym, true, false, Option, none, some, inl, inr, List, [], ◌∷◌, arith, All,
  ◌==◌, ==-refl, Option-cases, subst,
}
use web_socket_sh.Text.{Text, text_eq}
use web_socket_sh.Dict.{Dict, find, assign, find-assign, keys}
use web_socket_sh.Dict.HashSet.{contains}
use web_socket_sh.Dict.Unique.{IsUnique}
use web_socket_sh.Json.{Json, str}
use web_socket_sh.Json
use web_socket_sh.Auth.Policy.{
  passes, Jwt, Rule, Matcher, VerificationPolicy, make_regex, make_matchers, make_policy, check,
  decode_by, algorithm,
}
use web_socket_sh.Auth.Rules.{Holds, check-passes}
use web_socket_sh.Auth.Loading.{make_matchers_step, make_policy_lem}

module _ ⦃j : Jwt⦄ where
  -- A pattern that does not compile makes no matchers.
  make_regex-made :
      (key pattern : Text) (rules : List Rule) (acc ms : Dict Text Matcher)
      → make_matchers ((key, pattern) ∷ rules) acc ≡ some ms
      → (m : Matcher) × (make_regex pattern ≡ some m)
        × (make_matchers rules (assign key m acc) ≡ some ms)
  unfolding make_matchers
  make_regex-made key pattern rules acc ms p = elim (Option-cases (make_regex pattern)) [
    | inl q ↦
        let opened : make_matchers ((key, pattern) ∷ rules) acc ≡ none = rw (q, make_matchers) in
        absurd (ground (arith, sym opened ∙ p))
    | inr (m, q) ↦ (m, q, sym (make_matchers_step key pattern rules m acc q) ∙ p)
  ]

  -- Rules of other keys leave the matcher of a key alone.
  find-make_matchers :
      (rules : List Rule) (key : Text) (acc ms : Dict Text Matcher)
      → contains key (keys rules) ≡ false
      → make_matchers rules acc ≡ some ms
      → find key ms ≡ find key acc
  unfolding make_matchers contains
  find-make_matchers [] key acc ms h p = cc
  find-make_matchers ((k, pattern) ∷ rules) key acc ms h p =
      let (m, q, rest) = make_regex-made k pattern rules acc ms p in
      let (other, absent) : ((k == key) ≡ false) × (contains key (keys rules) ≡ false) =
        ground (arith, h) in
      find-make_matchers rules key (assign k m acc) ms absent rest
      ∙ find-assign k key m acc
      ∙ rw other

  -- The matcher of a key is the one of the pattern of its rule.
  abbrev FindsPattern : Dict Text Matcher → Rule → Type 0
  FindsPattern ms rule = (m : Matcher) × ((find rule.0 ms ≡ some m) × (make_regex rule.1 ≡ some m))

  make_matchers-FindsPattern :
      (rules : List Rule) (acc ms : Dict Text Matcher)
      → IsUnique rules
      → make_matchers rules acc ≡ some ms
      → All (FindsPattern ms) rules
  make_matchers-FindsPattern [] acc ms u p = tt
  make_matchers-FindsPattern ((k, pattern) ∷ rules) acc ms u p =
      let (m, q, rest) = make_regex-made k pattern rules acc ms p in
      let found : find k ms ≡ some m =
        find-make_matchers rules k (assign k m acc) ms u.0 rest
        ∙ find-assign k k m acc
        ∙ rw (==-refl k) in
      ((m, (found, q)), make_matchers-FindsPattern rules (assign k m acc) ms u.1 rest)

  -- The claim is there, is a string, and the pattern of the rule matches the string.
  abbrev pub PatternMatches : Json → Rule → Type 0
  PatternMatches object rule =
      (s : Text) × ((m : Matcher) × ((Json.find object rule.0 ≡ some (str s))
          × ((make_regex rule.1 ≡ some m) × (m s ≡ true))))

  same_matcher :
      (o : Option Matcher) (m n : Matcher) (s : Text)
      → o ≡ some m
      → o ≡ some n
      → m s ≡ true
      → n s ≡ true
  same_matcher o m n s p q t =
      let same : some m ≡ some n = sym p ∙ q in
      let equal : m ≡ n = cc in ap (λ f. f s) (sym equal) ∙ t

  Holds-PatternMatches :
      (rules : List Rule) (ms : Dict Text Matcher) (object : Json)
      → All (FindsPattern ms) rules
      → All (λ rule. Holds rule.0 ms object) rules ↔ All (PatternMatches object) rules
  Holds-PatternMatches [] ms object finds = (λ h. tt, λ h. tt)
  Holds-PatternMatches (rule ∷ rules) ms object finds =
      let (m, (found, made)) = finds.0 in
      let rest = Holds-PatternMatches rules ms object finds.1 in
      (
        λ h.
            let (s, (n, (field, (same, matched)))) = h.0 in
            (
              (s, (m, (field, (made, same_matcher (find rule.0 ms) n m s same found matched)))),
              rest.0 h.1,
            ),
        λ h.
            let (s, (n, (field, (same, matched)))) = h.0 in
            (
              (s, (m, (field, (found, same_matcher (make_regex rule.1) n m s same made matched)))),
              rest.1 h.1,
            ),
      )

  -- A policy made from rules and header rules, each of which name different fields, and from a key
  -- accepts a token exactly if the token decodes under that key and the algorithm that its header
  -- names, and for every header rule the header, and for every rule the payload, has the field of
  -- the rule, a string that the pattern of the rule matches.
  pub check-matches :
      (rules header_rules : List Rule) (key : Text) (policy : VerificationPolicy) (token : Text)
      (header payload : Json)
      → make_policy rules header_rules key ≡ some policy
      → IsUnique rules
      → IsUnique header_rules
      → (check policy token header payload ≡ passes) ↔ (
          (decode_by (algorithm header) token key ≡ passes)
          × (All (PatternMatches header) header_rules × All (PatternMatches payload) rules))
  check-matches rules header_rules key policy token header payload made u v =
      let (ms, kept, header_ms, header_kept, named) =
        make_policy_lem rules header_rules key policy made in
      let payloads =
        Holds-PatternMatches rules policy.matchers payload
          (make_matchers-FindsPattern rules [] policy.matchers u ms) in
      let headers =
        Holds-PatternMatches header_rules policy.header_matchers header
          (make_matchers-FindsPattern header_rules [] policy.header_matchers v header_ms) in
      let (split, join) = check-passes policy token header payload in
      let holds = λ (rs : List Rule). All (λ rule. Holds rule.0 policy.matchers payload) rs in
      let header_holds =
        λ (rs : List Rule). All (λ rule. Holds rule.0 policy.header_matchers header) rs in
      let decodes = λ (k : Text). decode_by (algorithm header) token k ≡ passes in
      (
        λ h.
            let (d, (hs, ps)) = split h in
            (
              subst decodes named d,
              (headers.0 (subst header_holds header_kept hs), payloads.0 (subst holds kept ps)),
            ),
        λ h. join (
          subst decodes (sym named) h.0,
          (
            subst header_holds (sym header_kept) (headers.1 h.1.0),
            subst holds (sym kept) (payloads.1 h.1.1),
          ),
        ),
      )
