-- ===== src/Server/Stages.antt =====
-- What the stages of the set-up of a server do (src/Server.cpp).
use web_socket_sh.Prelude.{
  ℕ, ◌≡◌, refl, ◌∙◌, ap, Bool, true, false, Option, none, some, List, [], ◌∷◌, inl, inr, Bool-cases,
  arith,
}
use web_socket_sh.Text.{Text, is_empty}
use web_socket_sh.Config.{Authentication, FileFormat, Result, ok, stopped, raised, Platform}
use web_socket_sh.Config.Parsing.{needed}
use web_socket_sh.Config.Ensures.{Ensures, Ensures-bind}
use web_socket_sh.Auth.Policy.{Jwt, VerificationPolicy}
use web_socket_sh.Auth.Config.{Parsed, parsed, parse_error, uncaught, load_auth_policy}
use web_socket_sh.Server.Configure.{
  ServerSetup, set_validator, use_certificate, use_private_key, initialize_server, configure_server,
  load_auth,
}

-- A path that is needed is there.
pub needed_lem :
    (r : Result Text) (path : Text) → needed r ≡ ok path → (r ≡ ok path) × (is_empty path ≡ false)
unfolding needed
needed_lem (ok []) path h = absurd (ground (arith, h))
needed_lem (ok (c ∷ rest)) path h = ground (arith, h)
needed_lem stopped path h = absurd (ground (arith, h))
needed_lem (raised exception) path h = absurd (ground (arith, h))

module _ ⦃p : Platform⦄ where
  open p use {find_key_file, use_certificate_file, use_rsa_private_key_file}

  -- A stage keeps the calls and what a list of other fields of the state says.
  abbrev pub KeepsCalls : ServerSetup → ServerSetup → Type 0
  KeepsCalls s t = t.calls ≡ s.calls

  use_certificate_lem :
      (path : Text) (format : FileFormat) (base s : ServerSetup)
      → is_empty path ≡ false
      → KeepsCalls base s
      → Ensures
          (λ _ t.
            (use_certificate_file path format ≡ true) × (t ≡ record s { certificate = some path }))
          (KeepsCalls base)
          (use_certificate path format s)
  unfolding use_certificate
  use_certificate_lem path format base s h kept =
      elim (Bool-cases (use_certificate_file path format)) [
        | inl loaded ↦ rw (h, loaded) (refl, refl)
        | inr failed ↦ rw (h, failed) kept
      ]

  use_private_key_lem :
      (path : Text) (format : FileFormat) (base s : ServerSetup)
      → is_empty path ≡ false
      → KeepsCalls base s
      → Ensures
          (λ _ t.
            (use_rsa_private_key_file path format ≡ true)
            × (t ≡ record s { private_key = some path }))
          (KeepsCalls base)
          (use_private_key path format s)
  unfolding use_private_key
  use_private_key_lem path format base s h kept =
      elim (Bool-cases (use_rsa_private_key_file path format)) [
        | inl loaded ↦ rw (h, loaded) (refl, refl)
        | inr failed ↦ rw (h, failed) kept
      ]

  pub configure_server_lem :
      (port : ℕ) (cert_file key_file : Text) (format : FileFormat) (base s : ServerSetup)
      → is_empty cert_file ≡ false
      → is_empty key_file ≡ false
      → KeepsCalls base s
      → Ensures
          (λ _ t.
            (use_certificate_file cert_file format ≡ true)
            × (use_rsa_private_key_file key_file format ≡ true)
            × (t
                ≡ initialize_server port
                    (record s { certificate = some cert_file; private_key = some key_file })))
          (KeepsCalls base)
          (configure_server port cert_file key_file format s)
  unfolding configure_server
  configure_server_lem port cert_file key_file format base s cert key kept =
      Ensures-bind _ (KeepsCalls base) _ (use_certificate cert_file format) _ s
        (use_certificate_lem cert_file format base s cert kept)
        (λ _ t certified.
          Ensures-bind _ (KeepsCalls base) _ (use_private_key key_file format) _ t
            (use_private_key_lem key_file format base t key (ap (λ u. u.calls) certified.1 ∙ kept))
            (λ _ u keyed. (
              certified.0,
              keyed.0,
              ap (initialize_server port) (
                  keyed.1
                  ∙ ap
                      (λ (v : ServerSetup).
                        let w : ServerSetup = record v { private_key = some key_file } in w)
                      certified.1),
            )))

  module _ ⦃j : Jwt⦄ where
    -- The validator that the authentication section gives: its policies, all loaded.
    abbrev pub Loaded :
        Option Authentication
        → Option (List VerificationPolicy)
        → Option (List VerificationPolicy)
        → Type 0
    Loaded none old validator = validator ≡ old
    Loaded (some auth) old validator =
        (policies : List VerificationPolicy) × (load_auth_policy find_key_file auth.policies []
          ≡ (parsed true, policies))
        × (validator ≡ some policies)

    set_validator_lem :
        (loading : Parsed Bool × List VerificationPolicy) (s : ServerSetup)
        → Ensures
            (λ _ t.
              ((policies : List VerificationPolicy) × (loading ≡ (parsed true, policies))
                × (t.jwt_validator ≡ some policies))
              × (t ≡ record s { jwt_validator = t.jwt_validator }))
            (KeepsCalls s)
            (set_validator loading s)
    unfolding set_validator
    set_validator_lem (parsed true, loaded) s = ((loaded, refl, refl), refl)
    set_validator_lem (parsed false, loaded) s = refl
    set_validator_lem (parse_error, loaded) s = refl
    set_validator_lem (uncaught, loaded) s = refl

    pub load_auth_lem :
        (auth : Option Authentication) (s : ServerSetup)
        → Ensures
            (λ _ t.
              Loaded auth s.jwt_validator t.jwt_validator
              × (t ≡ record s { jwt_validator = t.jwt_validator }))
            (KeepsCalls s)
            (load_auth auth s)
    unfolding load_auth
    load_auth_lem none s = (refl, refl)
    load_auth_lem (some auth) s =
        set_validator_lem (load_auth_policy find_key_file auth.policies []) s
