-- ===== src/Auth/Accepting.antt =====
-- Which tokens a server cannot refuse whose policies were loaded from its configuration
-- (src/ServerConfig.cpp, src/JwtValidator.cpp).
use web_socket_sh.Prelude.{
  ◌≡◌, ◌≢◌, ap, sym, ◌∙◌, subst, true, false, Bool, some, ◌⊎◌, inl, inr, List, [], ◌∷◌, ◌++◌, arith,
  All,
}
use web_socket_sh.Text.{Text, text_eq}
use web_socket_sh.Dict.{Dict}
use web_socket_sh.Dict.Unique.{IsUnique}
use web_socket_sh.Json.{Json}
use web_socket_sh.Auth.Glob.{IsGlob}
use web_socket_sh.Auth.Policy.{
  Jwt, passes, escapes, Rule, Matcher, VerificationPolicy, make_matchers, add_verification_policy,
  decode_by, algorithm, check, verify,
}
use web_socket_sh.Auth.Rules.{Holds, check-passes}
use web_socket_sh.Auth.Validator.{Any, Any-verify}
use web_socket_sh.Auth.Config.{
  PolicyNode, AuthNode, KeyFile, Parsed, parsed, uncaught, Parsed-cases, glob_rules, algo_rules,
  parse_policy, load_policies, load_auth_policy,
}
use web_socket_sh.Auth.Loading.{
  ClaimMatches, FindsGlob, make_matchers-FindsGlob, make_policy_lem, parsed-make_policy,
}
use web_socket_sh.Auth.Satisfying.{algo_globs, algo_rules_lem, algo_globs-IsUnique, Satisfies}
use web_socket_sh.Auth.Escapes.{load_policies-caught}
use web_socket_sh.Auth.Admission.{IsClear, nodes_of, loaded_by_nodes}

parsed-injective {ℓ} : {A : Type ℓ} {a b : A} → parsed a ≡ parsed b → a ≡ b
parsed-injective p = cc

module _ ⦃j : Jwt⦄ where
  open j use {parts, parse_part, decode}

  ClaimMatches-Holds :
      (ms : Dict Text Matcher) (object : Json) (globs : List (Text × Text))
      → All (FindsGlob ms) globs
      → All (ClaimMatches object) globs
      → All (λ rule. Holds rule.0 ms object) (glob_rules globs)
  unfolding glob_rules
  ClaimMatches-Holds ms object [] finds claims = tt
  ClaimMatches-Holds ms object ((k, glob) ∷ globs) finds claims =
      let (m, (found, matches)) = finds.0 in
      let (s, (field, stands)) = claims.0 in
      (
        (s, (m, (field, (found, (matches s).1 stands)))),
        ClaimMatches-Holds ms object globs finds.1 claims.1,
      )

  globs-Holds :
      (globs : List (Text × Text)) (rules : List Rule) (ms : Dict Text Matcher) (object : Json)
      → All (λ rule. IsGlob rule.1) globs
      → IsUnique globs
      → rules ≡ glob_rules globs
      → make_matchers (glob_rules globs) [] ≡ some ms
      → All (ClaimMatches object) globs
      → All (λ rule. Holds rule.0 ms object) rules
  globs-Holds globs rules ms object clear u same made claims =
      subst (λ l. All (λ rule. Holds rule.0 ms object) l) (sym same)
        (ClaimMatches-Holds ms object globs (make_matchers-FindsGlob globs [] ms clear u made)
          claims)

  -- A token that satisfies a policy of the configuration passes the policy that was parsed from it.
  Satisfies-check :
      (find_key_file : Text → KeyFile) (node : PolicyNode) (policy : VerificationPolicy)
      (token : Text) (header payload : Json)
      → IsClear node
      → parse_policy find_key_file node ≡ parsed policy
      → Satisfies find_key_file token header payload node
      → check policy token header payload ≡ passes
  Satisfies-check find_key_file node policy token header payload clear p h =
      let (key, found, made) = parsed-make_policy find_key_file node policy p in
      let (matchers, rules, header_matchers, header_rules, same_key) =
        make_policy_lem (glob_rules node.rules) (algo_rules node.algo) key policy made in
      let as_globs = algo_rules_lem node.algo in
      let (algo, named, decoded) = h.decodes in
      let key_is : policy.secret_or_pubkey ≡ h.key =
        same_key ∙ parsed-injective (sym found ∙ h.key_found) in
      (check-passes policy token header payload).1 (
        rw (named, key_is) (unfold decode_by in decoded),
        (
          globs-Holds (algo_globs node.algo) policy.header_rules policy.header_matchers header
              clear.2 (algo_globs-IsUnique node.algo) (header_rules ∙ as_globs)
              (ap (λ l. make_matchers l []) (sym as_globs) ∙ header_matchers) h.names_algo,
          globs-Holds node.rules policy.rules policy.matchers payload clear.0 clear.1 rules matchers
              h.claims,
        ),
      )

  append-Any :
      (P : VerificationPolicy → Type 0) (l : List VerificationPolicy) (p : VerificationPolicy)
      → Any P l ⊎ P p
      → Any P (l ++ p ∷ [])
  append-Any P [] p (inl h) = absurd h
  append-Any P [] p (inr h) = inl h
  append-Any P (q ∷ l) p (inl (inl h)) = inl h
  append-Any P (q ∷ l) p (inl (inr h)) = inr (append-Any P l p (inl h))
  append-Any P (q ∷ l) p (inr h) = inr (append-Any P l p (inr h))

  -- Once the policies have loaded, a token that satisfies one passes one that was loaded.
  Satisfies-load_policies :
      (find_key_file : Text → KeyFile) (token : Text) (header payload : Json)
      (nodes : List PolicyNode) (added loaded : List VerificationPolicy)
      → All IsClear nodes
      → load_policies find_key_file nodes added ≡ (parsed true, loaded)
      → Any (λ p. check p token header payload ≡ passes) added
        ⊎ Any (Satisfies find_key_file token header payload) nodes
      → Any (λ p. check p token header payload ≡ passes) loaded
  unfolding load_policies add_verification_policy
  Satisfies-load_policies find_key_file token header payload [] added loaded clear p (inl h) =
      subst (Any (λ k. check k token header payload ≡ passes)) (ap (λ r. r.1) p) h
  Satisfies-load_policies find_key_file token header payload [] added loaded clear p (inr h) =
      absurd h
  Satisfies-load_policies find_key_file token header payload (node ∷ nodes) added loaded clear p
        any =
      elim (Parsed-cases (parse_policy find_key_file node)) [
        | inl (policy, q) ↦
            let opened : load_policies find_key_file (node ∷ nodes) added
                ≡ load_policies find_key_file nodes (added ++ policy ∷ []) =
              rw (q, load_policies) in
            Satisfies-load_policies find_key_file token header payload nodes (added ++ policy ∷ [])
              loaded clear.1 (sym opened ∙ p) (moved policy q any)
        | inr (inl q) ↦
            let opened : load_policies find_key_file (node ∷ nodes) added ≡ (parsed false, added) =
              rw (q, load_policies) in
            absurd (not_true (ap (λ r. r.0) (sym opened ∙ p)))
        | inr (inr q) ↦
            let opened : load_policies find_key_file (node ∷ nodes) added ≡ (uncaught, added) =
              rw (q, load_policies) in
            absurd (not_caught (ap (λ r. r.0) (sym opened ∙ p)))
      ]
    where
      Passing : VerificationPolicy → Type 0
      Passing k = check k token header payload ≡ passes

      moved :
          (policy : VerificationPolicy)
          → parse_policy find_key_file node ≡ parsed policy
          → Any (λ k. check k token header payload ≡ passes) added
            ⊎ Any (Satisfies find_key_file token header payload) (node ∷ nodes)
          → Any (λ k. check k token header payload ≡ passes) (added ++ policy ∷ [])
            ⊎ Any (Satisfies find_key_file token header payload) nodes
      moved policy q (inl old) = inl (append-Any _ added policy (inl old))
      moved policy q (inr (inl now)) = inl (
          append-Any _ added policy
            (inr (Satisfies-check find_key_file node policy token header payload clear.0 q now)))
      moved policy q (inr (inr later)) = inr later

      not_true : ¬ (◌≡◌ {A = Parsed Bool} (parsed false) (parsed true))
      not_true h = ground (arith, h)

      not_caught : ¬ (◌≡◌ {A = Parsed Bool} uncaught (parsed true))
      not_caught h = ground (arith, h)

  -- The header of a token that satisfies a policy names an algorithm.
  names_algorithm :
      (find_key_file : Text → KeyFile) (token : Text) (header payload : Json)
      (nodes : List PolicyNode)
      → Any (Satisfies find_key_file token header payload) nodes
      → (algo : Text) × (algorithm header ≡ some algo)
  names_algorithm find_key_file token header payload [] any = absurd any
  names_algorithm find_key_file token header payload (node ∷ nodes) (inl now) =
      (now.decodes.0, now.decodes.1)
  names_algorithm find_key_file token header payload (node ∷ nodes) (inr later) =
      names_algorithm find_key_file token header payload nodes later

  -- A token whose header and payload parse, and that satisfies some policy of the configuration, is
  -- accepted under the policies loaded from it, if cpp-jwt lets no exception escape when it decodes
  -- the token.
  pub Satisfies-verify :
      (find_key_file : Text → KeyFile) (auth : AuthNode) (loaded : List VerificationPolicy)
      (token : Text) (header payload : Json)
      → All IsClear (nodes_of auth)
      → load_auth_policy find_key_file auth [] ≡ (parsed true, loaded)
      → parse_part (parts token).0 ≡ some header
      → parse_part (parts token).1 ≡ some payload
      → ((algo key : Text) → decode token algo key ≢ escapes)
      → Any (Satisfies find_key_file token header payload) (nodes_of auth)
      → verify loaded token ≡ passes
  Satisfies-verify find_key_file auth loaded token header payload clear p header_parsed
        payload_parsed safe any =
      let nodes = nodes_of auth in
      let loading = sym (loaded_by_nodes find_key_file auth []) ∙ p in
      let (algo, named) = names_algorithm find_key_file token header payload nodes any in
      Any-verify loaded token header payload header_parsed payload_parsed
        (load_policies-caught find_key_file token header payload nodes [] loaded clear loading
          (algo, named, safe algo) tt)
        (Satisfies-load_policies find_key_file token header payload nodes [] loaded clear loading
          (inr any))
