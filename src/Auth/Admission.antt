-- ===== src/Auth/Admission.antt =====
-- Which tokens a server lets in whose policies were loaded from its configuration
-- (src/ServerConfig.cpp, src/JwtValidator.cpp).
use web_socket_sh.Prelude.{
  ◌≡◌, refl, ap, sym, ◌∙◌, subst, true, false, Bool, some, ◌⊎◌, inl, inr, List, [], ◌∷◌, ◌++◌,
  arith, All,
}
use web_socket_sh.Text.{Text, text_eq}
use web_socket_sh.Dict.Unique.{IsUnique}
use web_socket_sh.Json.{Json}
use web_socket_sh.Auth.Glob.{IsGlob}
use web_socket_sh.Auth.Policy.{
  Jwt, passes, VerificationPolicy, add_verification_policy, check, verify,
}
use web_socket_sh.Auth.Validator.{Any, verify-Any}
use web_socket_sh.Auth.Config.{
  PolicyNode, AuthNode, policies, default_policy, KeyFile, Parsed, parsed, uncaught, Parsed-cases,
  parse_policy, load_policies, load_auth_policy,
}
use web_socket_sh.Auth.Satisfying.{algo_globs, Satisfies, check-Satisfies}

module _ ⦃j : Jwt⦄ where
  open j use {parts, parse_part}

  Any-append :
      (P : VerificationPolicy → Type 0) (l : List VerificationPolicy) (p : VerificationPolicy)
      → Any P (l ++ p ∷ [])
      → Any P l ⊎ P p
  Any-append P [] p (inl h) = inr h
  Any-append P [] p (inr h) = inl h
  Any-append P (q ∷ l) p (inl h) = inl (inl h)
  Any-append P (q ∷ l) p (inr h) = elim (Any-append P l p h) [
    | inl old ↦ inl (inr old)
    | inr new ↦ inr new
  ]

  -- The node is that of a policy that has the property.
  abbrev FromNode : (Text → KeyFile) → (VerificationPolicy → Type 0) → PolicyNode → Type 0
  FromNode find_key_file P node =
      (policy : VerificationPolicy) × ((parse_policy find_key_file node ≡ parsed policy) × P policy)

  -- A policy that was loaded was there before, or comes from a node.
  load_policies-Any :
      (find_key_file : Text → KeyFile) (P : VerificationPolicy → Type 0) (nodes : List PolicyNode)
      (added loaded : List VerificationPolicy)
      → load_policies find_key_file nodes added ≡ (parsed true, loaded)
      → Any P loaded
      → Any P added ⊎ Any (FromNode find_key_file P) nodes
  unfolding load_policies add_verification_policy
  load_policies-Any find_key_file P [] added loaded p any =
      inl (subst (Any P) (sym (ap (λ r. r.1) p)) any)
  load_policies-Any find_key_file P (node ∷ nodes) added loaded p any =
      elim (Parsed-cases (parse_policy find_key_file node)) [
        | inl (policy, q) ↦
            let opened : load_policies find_key_file (node ∷ nodes) added
                ≡ load_policies find_key_file nodes (added ++ policy ∷ []) =
              rw (q, load_policies) in
            elim (load_policies-Any find_key_file P nodes _ loaded (sym opened ∙ p) any) [
              | inl before ↦ elim (Any-append P added policy before) [
                | inl old ↦ inl old
                | inr new ↦ inr (inl (policy, (q, new)))
              ]
              | inr later ↦ inr (inr later)
            ]
        | inr (inl q) ↦
            let opened : load_policies find_key_file (node ∷ nodes) added ≡ (parsed false, added) =
              rw (q, load_policies) in
            absurd (not_true (ap (λ r. r.0) (sym opened ∙ p)))
        | inr (inr q) ↦
            let opened : load_policies find_key_file (node ∷ nodes) added ≡ (uncaught, added) =
              rw (q, load_policies) in
            absurd (not_caught (ap (λ r. r.0) (sym opened ∙ p)))
      ]
    where
      not_true : ¬ (◌≡◌ {A = Parsed Bool} (parsed false) (parsed true))
      not_true h = ground (arith, h)

      not_caught : ¬ (◌≡◌ {A = Parsed Bool} uncaught (parsed true))
      not_caught h = ground (arith, h)

  abbrev pub nodes_of : AuthNode → List PolicyNode
  nodes_of (policies nodes) = nodes
  nodes_of (default_policy node) = node ∷ []

  -- The rules name different claims, and their globs, and that of the algorithm, have no other
  -- special character.
  abbrev pub IsClear : PolicyNode → Type 0
  IsClear node =
      All (λ rule. IsGlob rule.1) node.rules
      × IsUnique node.rules
      × All (λ rule. IsGlob rule.1) (algo_globs node.algo)

  -- A node whose policy accepts a token is satisfied by its payload.
  satisfied :
      (find_key_file : Text → KeyFile) (token : Text) (header payload : Json)
      (nodes : List PolicyNode)
      → All IsClear nodes
      → Any (FromNode find_key_file (λ p. check p token header payload ≡ passes)) nodes
      → Any (Satisfies find_key_file token header payload) nodes
  satisfied find_key_file token header payload [] clear any = any
  satisfied find_key_file token header payload (node ∷ nodes) clear (inl (policy, (p, h))) = inl (
      check-Satisfies find_key_file node policy token header payload clear.0.0 clear.0.1 clear.0.2 p
        h)
  satisfied find_key_file token header payload (node ∷ nodes) clear (inr later) =
      inr (satisfied find_key_file token header payload nodes clear.1 later)

  pub loaded_by_nodes :
      (find_key_file : Text → KeyFile) (auth : AuthNode) (added : List VerificationPolicy)
      → load_auth_policy find_key_file auth added
        ≡ load_policies find_key_file (nodes_of auth) added
  unfolding load_auth_policy
  loaded_by_nodes find_key_file (policies nodes) added = refl
  loaded_by_nodes find_key_file (default_policy node) added = refl

  -- A token that is accepted under the policies loaded from a configuration has a header and a
  -- payload that parse, and satisfies some policy of the configuration; the rules of a policy name
  -- different claims and their globs have no other special character.
  pub accepted-Satisfies :
      (find_key_file : Text → KeyFile) (auth : AuthNode) (loaded : List VerificationPolicy)
      (token : Text)
      → All IsClear (nodes_of auth)
      → load_auth_policy find_key_file auth [] ≡ (parsed true, loaded)
      → verify loaded token ≡ passes
      → (header : Json) × (payload : Json) × (parse_part (parts token).0 ≡ some header)
        × (parse_part (parts token).1 ≡ some payload)
        × Any (Satisfies find_key_file token header payload) (nodes_of auth)
  accepted-Satisfies find_key_file auth loaded token clear p h =
      let (header, payload, q0, q, any) = verify-Any loaded token h in
      let by_nodes = sym (loaded_by_nodes find_key_file auth []) ∙ p in
      (
        header,
        payload,
        q0,
        q,
        elim (load_policies-Any find_key_file (λ k. check k token header payload ≡ passes)
            (nodes_of auth) [] loaded by_nodes any) [
              | inl none_before ↦ absurd none_before
              | inr from_nodes ↦
                  satisfied find_key_file token header payload (nodes_of auth) clear from_nodes
            ],
      )
