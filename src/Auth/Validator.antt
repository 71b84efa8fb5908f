-- ===== src/Auth/Validator.antt =====
-- Which tokens `JwtValidator::verify` (src/JwtValidator.cpp) lets in.
use web_socket_sh.Prelude.{
  ◌≡◌, ◌≢◌, refl, sym, ◌∙◌, some, ◌⊎◌, inl, inr, List, [], ◌∷◌, arith, All, Option-cases,
}
use web_socket_sh.Text.{Text}
use web_socket_sh.Json.{Json}
use web_socket_sh.Auth.Policy.{
  Verdict, passes, refused, escapes, Jwt, VerificationPolicy, check, or_else, verify_loop, verify,
}

-- Some entry of the list has the property.
abbrev pub Any {ℓ} : {A : Type ℓ} → (A → Type 0) → List A → Type 0
Any P [] = ⊥
Any P (a ∷ l) = P a ⊎ Any P l

module _ ⦃j : Jwt⦄ where
  open j use {parts, parse_part}

  or_else-passes : (a b : Verdict) → or_else a b ≡ passes → (a ≡ passes) ⊎ (b ≡ passes)
  unfolding or_else
  or_else-passes passes b h = inl refl
  or_else-passes refused b h = inr h
  or_else-passes escapes b h = inl h

  or_else-no_escape : (a b : Verdict) → a ≢ escapes → b ≡ passes → or_else a b ≡ passes
  unfolding or_else
  or_else-no_escape passes b h p = refl
  or_else-no_escape refused b h p = p
  or_else-no_escape escapes b h p = absurd (h refl)

  or_else-now : (a b : Verdict) → a ≡ passes → or_else a b ≡ passes
  unfolding or_else
  or_else-now passes b h = refl
  or_else-now refused b h = absurd (ground (arith, h))
  or_else-now escapes b h = h

  verify_loop-Any :
      (policies : List VerificationPolicy) (token : Text) (header payload : Json)
      → verify_loop policies token header payload ≡ passes
      → Any (λ p. check p token header payload ≡ passes) policies
  unfolding verify_loop
  verify_loop-Any [] token header payload h = absurd (ground (arith, h))
  verify_loop-Any (policy ∷ policies) token header payload h =
      elim (or_else-passes (check policy token header payload)
        (verify_loop policies token header payload) h) [
          | inl now ↦ inl now
          | inr later ↦ inr (verify_loop-Any policies token header payload later)
        ]

  Any-verify_loop :
      (policies : List VerificationPolicy) (token : Text) (header payload : Json)
      → All (λ p. check p token header payload ≢ escapes) policies
      → Any (λ p. check p token header payload ≡ passes) policies
      → verify_loop policies token header payload ≡ passes
  unfolding verify_loop
  Any-verify_loop [] token header payload h a = absurd a
  Any-verify_loop (policy ∷ policies) token header payload h (inl now) =
      or_else-now (check policy token header payload) _ now
  Any-verify_loop (policy ∷ policies) token header payload h (inr later) =
      or_else-no_escape (check policy token header payload) _ h.0
        (Any-verify_loop policies token header payload h.1 later)

  -- A token that the validator accepts has a header and a payload that parse, and some policy
  -- accepts it.
  pub verify-Any :
      (policies : List VerificationPolicy) (token : Text)
      → verify policies token ≡ passes
      → (header : Json) × (payload : Json) × (parse_part (parts token).0 ≡ some header)
        × (parse_part (parts token).1 ≡ some payload)
        × Any (λ p. check p token header payload ≡ passes) policies
  unfolding verify
  verify-Any policies token h = elim (Option-cases (parse_part (parts token).0)) [
    | inl p ↦
        let opened : verify policies token ≡ refused = rw (p, verify) in
        absurd (ground (arith, sym opened ∙ h))
    | inr (header, p) ↦ elim (Option-cases (parse_part (parts token).1)) [
      | inl q ↦
          let opened : verify policies token ≡ refused = rw (p, verify) (rw q) in
          absurd (ground (arith, sym opened ∙ h))
      | inr (payload, q) ↦
          let opened : verify policies token ≡ verify_loop policies token header payload =
            rw (p, verify) (rw q) in
          (header, payload, p, q, verify_loop-Any policies token header payload (sym opened ∙ h))
    ]
  ]

  -- A token whose header and payload parse is accepted when some policy accepts it and no policy
  -- lets an exception escape.
  pub Any-verify :
      (policies : List VerificationPolicy) (token : Text) (header payload : Json)
      → parse_part (parts token).0 ≡ some header
      → parse_part (parts token).1 ≡ some payload
      → All (λ p. check p token header payload ≢ escapes) policies
      → Any (λ p. check p token header payload ≡ passes) policies
      → verify policies token ≡ passes
  unfolding verify
  Any-verify policies token header payload p q h any =
      rw (p, verify) (rw q (Any-verify_loop policies token header payload h any))
