-- ===== src/Auth/Config.antt =====
-- `ServerConfig` (src/ServerConfig.cpp): the policies in the configuration of a server. The nodes of
-- yaml-cpp are records of what the source looks up in them, and the search for a file is a
-- parameter.
use web_socket_sh.Prelude.{
  ◌≡◌, refl, ◌⊎◌, inl, inr, Option, none, some, List, [], ◌∷◌, Bool, true, false,
}
use web_socket_sh.Text.{Text, bytes}
use web_socket_sh.Auth.Policy.{Jwt, Rule, VerificationPolicy, make_policy, add_verification_policy}
use web_socket_sh.Auth.Glob.{glob_to_regex}

pub record PolicyNode : Type 0 where
  pub secret : Option Text
  pub pubkey : Option Text
  pub algo : Option Text
  pub rules : List (Text × Text)

-- `auth[policies]`, or the node itself as the one policy.
pub data AuthNode : Type 0 where
  policies : List PolicyNode → AuthNode
  default_policy : PolicyNode → AuthNode

-- What the search for a file of a public key comes to.
pub data KeyFile : Type 0 where
  content : Text → KeyFile
  not_found unreadable : KeyFile

-- `ParseError` is caught by the caller, `std::runtime_error` and `std::regex_error` are not.
pub data Parsed {ℓ} (A : Type ℓ) : Type ℓ where
  parsed : A → Parsed A
  parse_error : Parsed A
  uncaught : Parsed A

-- To split on a computed result and keep the equation.
pub Parsed-cases {ℓ} :
    {A : Type ℓ} (r : Parsed A) → ((a : A) × (r ≡ parsed a)) ⊎ ((r ≡ parse_error) ⊎ (r ≡ uncaught))
Parsed-cases (parsed a) = inl (a, refl)
Parsed-cases parse_error = inr (inl refl)
Parsed-cases uncaught = inr (inr refl)

unfoldable pub algo_rules : Option Text → List Rule
algo_rules none = []
algo_rules (some algo) = (bytes "alg", glob_to_regex algo) ∷ []

unfoldable pub glob_rules : List (Text × Text) → List Rule
glob_rules [] = []
glob_rules ((key, glob) ∷ rules) = (key, glob_to_regex glob) ∷ glob_rules rules

module _ ⦃j : Jwt⦄ (find_key_file : Text → KeyFile) where
  unfoldable pub key_of_file : KeyFile → Parsed Text
  key_of_file (content key) = parsed key
  key_of_file not_found = parse_error
  key_of_file unreadable = uncaught

  -- Exactly one of the two keys must be there.
  unfoldable pub secret_or_pubkey : Option Text → Option Text → Parsed Text
  unfolding key_of_file
  secret_or_pubkey none none = parse_error
  secret_or_pubkey (some secret) (some pubkey) = parse_error
  secret_or_pubkey (some secret) none = parsed secret
  secret_or_pubkey none (some pubkey) = key_of_file (find_key_file pubkey)

  unfoldable pub built : Option VerificationPolicy → Parsed VerificationPolicy
  built none = uncaught
  built (some policy) = parsed policy

  unfoldable pub parse_policy : PolicyNode → Parsed VerificationPolicy
  unfolding secret_or_pubkey built algo_rules glob_rules
  parse_policy node = elim (secret_or_pubkey node.secret node.pubkey) [
    | parsed key ↦ built (make_policy (glob_rules node.rules) (algo_rules node.algo) key)
    | parse_error ↦ parse_error
    | uncaught ↦ uncaught
  ]

  -- The loop over the policies; what was added before a failure stays.
  unfoldable pub load_policies :
      List PolicyNode → List VerificationPolicy → Parsed Bool × List VerificationPolicy
  load_policies [] added = (parsed true, added)
  load_policies (node ∷ nodes) added = elim (parse_policy node) [
    | parsed policy ↦ load_policies nodes (add_verification_policy policy added)
    | parse_error ↦ (parsed false, added)
    | uncaught ↦ (uncaught, added)
  ]

  unfoldable pub load_auth_policy :
      AuthNode → List VerificationPolicy → Parsed Bool × List VerificationPolicy
  load_auth_policy (policies nodes) added = load_policies nodes added
  load_auth_policy (default_policy node) added = load_policies (node ∷ []) added
