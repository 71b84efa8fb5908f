-- ===== src/Client/Stages.antt =====
-- What the stages of the set-up of a client do (src/Client.cpp).
use web_socket_sh.Prelude.{
  ℕ, ◌≡◌, refl, ◌∙◌, ap, sym, true, false, Option, none, some, List, [], ◌∷◌, ◌++◌, map, inl, inr,
  All, Bool-cases, arith,
}
use mathlib.Core.List.{append-nil, append_assoc}
use web_socket_sh.Text.{Text, is_empty}
use web_socket_sh.Decimal.{to_string}
use web_socket_sh.Config.{Setting, Authentication, Result, ok, stopped, raised, Platform}
use web_socket_sh.Config.Parsing.{as_string}
use web_socket_sh.Config.Ensures.{Ensures, Ensures-bind, Ensures-weaken}
use web_socket_sh.Client.Configure.{
  ClientSetup, uri_prefix, set_host_uri, set_token, load_token, load_auth_config,
  use_default_authorities, load_authority, load_authorities, verify_peers, initialize_client,
  configure_client,
}

abbrev pub KeepsCalls : ClientSetup → ClientSetup → Type 0
KeepsCalls s t = t.calls ≡ s.calls

abbrev with_authorities : List Text → ClientSetup → ClientSetup
with_authorities authorities s = record s { authorities = authorities }

-- The token of the authentication section, if it has one.
abbrev pub TakesToken : Option Authentication → Option Text → Option Text → Type 0
TakesToken none old token = token ≡ old
TakesToken (some auth) old token = elim auth.token [
  | none ↦ token ≡ old
  | some setting ↦ (text : Text) × (as_string setting ≡ ok text) × (token ≡ some text)
]

set_token_lem :
    (r : Result Text) (s : ClientSetup)
    → Ensures
        (λ _ t.
          ((text : Text) × (r ≡ ok text) × (t.jwt_token ≡ some text))
          × (t ≡ record s { jwt_token = t.jwt_token }))
        (KeepsCalls s)
        (set_token r s)
unfolding set_token
set_token_lem (ok text) s = ((text, refl, refl), refl)
set_token_lem stopped s = refl
set_token_lem (raised exception) s = refl

pub load_auth_config_lem :
    (auth : Option Authentication) (s : ClientSetup)
    → Ensures
        (λ _ t.
          TakesToken auth s.jwt_token t.jwt_token × (t ≡ record s { jwt_token = t.jwt_token }))
        (KeepsCalls s)
        (load_auth_config auth s)
unfolding load_auth_config
load_auth_config_lem none s = (refl, refl)
load_auth_config_lem (some auth) s = load_token_lem auth.token
  where
    load_token_lem :
        (token : Option Setting)
        → Ensures
            (λ _ t.
              TakesToken
                (some (record { policies = auth.policies; token = token }))
                s.jwt_token
                t.jwt_token
              × (t ≡ record s { jwt_token = t.jwt_token }))
            (KeepsCalls s)
            (load_token token s)
    load_token_lem none = (refl, refl)
    load_token_lem (some setting) = set_token_lem (as_string setting) s

module _ ⦃p : Platform⦄ where
  open p use {
    find_file, set_default_verify_paths, load_verify_file, set_verify_mode, set_verify_callback,
  }

  -- A certificate authority that the client has found and loaded.
  abbrev pub IsLoaded : Text → Type 0
  IsLoaded name = (is_empty (find_file name) ≡ false) × (load_verify_file (find_file name) ≡ true)

  load_authority_lem :
      (name : Text) (base s : ClientSetup)
      → KeepsCalls base s
      → Ensures
          (λ _ t.
            IsLoaded name × (t ≡ record s { authorities = s.authorities ++ find_file name ∷ [] }))
          (KeepsCalls base)
          (load_authority name s)
  unfolding load_authority
  load_authority_lem name base s kept = elim (Bool-cases (is_empty (find_file name))) [
    | inl missing ↦ rw missing kept
    | inr there ↦ elim (Bool-cases (load_verify_file (find_file name))) [
      | inl loaded ↦ rw (there, loaded) ((refl, refl), refl)
      | inr failed ↦ rw (there, failed) kept
    ]
  ]

  load_authorities_lem :
      (names : List Text) (base s : ClientSetup)
      → KeepsCalls base s
      → Ensures
          (λ _ t.
            All IsLoaded names
            × (t ≡ record s { authorities = s.authorities ++ map find_file names }))
          (KeepsCalls base)
          (load_authorities names s)
  unfolding load_authorities
  load_authorities_lem [] base s kept =
      (tt, ap (λ l. with_authorities l s) (sym (append-nil s.authorities)))
  load_authorities_lem (name ∷ names) base s kept =
      Ensures-bind _ (KeepsCalls base) _ (load_authority name) _ s
        (load_authority_lem name base s kept)
        (λ _ t loaded.
          Ensures-weaken _ (KeepsCalls base) _ (load_authorities names t)
            (load_authorities_lem names base t (ap (λ u. u.calls) loaded.1 ∙ kept))
            (λ _ u rest. (
              (loaded.0, rest.0),
              rest.1
                  ∙ ap (λ v. with_authorities (v.authorities ++ map find_file names) v) loaded.1
                  ∙ ap (λ l. with_authorities l s)
                      (append_assoc s.authorities (find_file name ∷ []) (map find_file names)),
            )))

  use_default_authorities_lem :
      (base s : ClientSetup)
      → KeepsCalls base s
      → Ensures
          (λ _ t.
            (set_default_verify_paths ≡ true) × (t ≡ record s { default_verify_paths = true }))
          (KeepsCalls base)
          (use_default_authorities s)
  unfolding use_default_authorities
  use_default_authorities_lem base s kept = elim (Bool-cases set_default_verify_paths) [
    | inl loaded ↦ rw loaded (refl, refl)
    | inr failed ↦ rw failed kept
  ]

  verify_peers_lem :
      (hostname : Text) (base s : ClientSetup)
      → KeepsCalls base s
      → Ensures
          (λ _ t.
            (set_verify_mode ≡ true)
            × (set_verify_callback hostname ≡ true)
            × (t ≡ record s { verify_peer = true; verified_host = some hostname }))
          (KeepsCalls base)
          (verify_peers hostname s)
  unfolding verify_peers
  verify_peers_lem hostname base s kept = elim (Bool-cases set_verify_mode) [
    | inl mode ↦ elim (Bool-cases (set_verify_callback hostname)) [
      | inl callback ↦ rw (mode, callback) (refl, refl, refl)
      | inr failed ↦ rw (mode, failed) kept
    ]
    | inr failed ↦ rw failed kept
  ]

  -- What `configure_client` sets before it initializes the client.
  abbrev pub connectable : Text → ℕ → List Text → ClientSetup → ClientSetup
  connectable hostname port names s = record s {
    host_uri = uri_prefix s.use_security ++ (hostname ++ (b':' ∷ to_string port));
    default_verify_paths = true;
    authorities = s.authorities ++ map find_file names;
    verify_peer = true;
    verified_host = some hostname;
  }

  -- What a client has that `configure_client` has set up.
  pub record IsConnectable (hostname : Text) (port : ℕ) (names : List Text) (s t : ClientSetup)
      : Type 0 where
    pub defaults : set_default_verify_paths ≡ true
    pub extras : All IsLoaded names
    pub mode : set_verify_mode ≡ true
    pub callback : set_verify_callback hostname ≡ true
    pub after : t ≡ initialize_client (connectable hostname port names s)

  pub configure_client_lem :
      (hostname : Text) (port : ℕ) (names : List Text) (base s : ClientSetup)
      → KeepsCalls base s
      → Ensures
          (λ _ t. IsConnectable hostname port names s t)
          (KeepsCalls base)
          (configure_client hostname port names s)
  unfolding configure_client set_host_uri
  configure_client_lem hostname port names base s kept =
      let s1 = set_host_uri hostname port s in
      Ensures-bind _ (KeepsCalls base) _ use_default_authorities _ s1
        (use_default_authorities_lem base s1 kept)
        (λ _ s2 a.
          Ensures-bind _ (KeepsCalls base) _ (load_authorities names) _ s2
            (load_authorities_lem names base s2 (ap (λ u. u.calls) a.1 ∙ kept))
            (λ _ s3 b.
              Ensures-bind _ (KeepsCalls base) _ (verify_peers hostname) _ s3
                (verify_peers_lem hostname base s3
                  (ap (λ u. u.calls) b.1 ∙ ap (λ u. u.calls) a.1 ∙ kept))
                (λ _ s4 c. record {
                  defaults = a.0;
                  extras = b.0;
                  mode = c.0;
                  callback = c.1;
                  after =
                      let same : s4 ≡ connectable hostname port names s = ground arith in
                      ap initialize_client same;
                })))
