-- ===== src/Server/Validation.antt =====
-- Who may connect to a server (src/Server.cpp).
use web_socket_sh.Prelude.{◌≡◌, ◌↔◌, refl, sym, ap, ◌∙◌, some, List, [], ◌∷◌, arith}
use web_socket_sh.Text.{Text}
use web_socket_sh.External.{Externals}
use web_socket_sh.Endpoint.{Connection}
use web_socket_sh.Auth.Policy.{Jwt, Verdict, passes, refused, escapes, VerificationPolicy, verify}
use web_socket_sh.Server.{Server, answer_token, validate_token, handle_validate}

cons-head : {a b : Text} {k l : List Text} → a ∷ k ≡ b ∷ l → a ≡ b
cons-head p = cc

module _ ⦃x : Externals⦄ where
  answer_token-verdict :
      (c : Connection) (token : Text) (v : Verdict) (s : Server) → (answer_token c token v s).0 ≡ v
  unfolding answer_token
  answer_token-verdict c token passes s = refl
  answer_token-verdict c token refused s = refl
  answer_token-verdict c token escapes s = refl

  module _ ⦃j : Jwt⦄ where
    -- A token passes: it is the only subprotocol, and the validator accepts it.
    abbrev pub Presents : List VerificationPolicy → List Text → Type 0
    Presents policies protos =
        (token : Text) × ((protos ≡ token ∷ []) × (verify policies token ≡ passes))

    validate_token-Presents :
        (c : Connection) (policies : List VerificationPolicy) (protos : List Text) (s : Server)
        → ((validate_token c policies protos s).0 ≡ passes) ↔ Presents policies protos
    unfolding validate_token
    validate_token-Presents c policies [] s =
        (λ h. absurd (ground (arith, h)), λ (t, (p, q)). absurd (ground (arith, p)))
    validate_token-Presents c policies (token ∷ []) s =
        let verdict = answer_token-verdict c token (verify policies token) s in
        (
          λ h. (token, (refl, sym verdict ∙ h)),
          λ (t, (p, q)). verdict ∙ ap (λ k. verify policies k) (cons-head p) ∙ q,
        )
    validate_token-Presents c policies (token ∷ other ∷ more) s =
        (λ h. absurd (ground (arith, h)), λ (t, (p, q)). absurd (ground (arith, p)))

    -- A server with a validator accepts a connection exactly if it names one subprotocol, and that
    -- is a token that the validator accepts.
    pub handle_validate-Presents :
        (c : Connection) (policies : List VerificationPolicy) (protos : List Text) (s : Server)
        → s.jwt_validator ≡ some policies
        → ((handle_validate c protos s).0 ≡ passes) ↔ Presents policies protos
    unfolding handle_validate
    handle_validate-Presents c policies protos s p =
        rw (p, handle_validate) (validate_token-Presents c policies protos s)
