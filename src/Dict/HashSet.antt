-- ===== src/Dict/HashSet.antt =====
-- `std::unordered_set` as a list without repetitions.
use web_socket_sh.Prelude.{
  ◌≡◌, Bool, true, false, ◌||◌, List, [], ◌∷◌, arith, Eq, ◌==◌, if◌then◌else◌,
}

abbrev pub HashSet {ℓ} : Type ℓ → Type ℓ
HashSet A = List A

module _ {ℓ} {A : Type ℓ} ⦃e : Eq A⦄ where
  -- `s.count(a) > 0`
  unfoldable pub contains : A → HashSet A → Bool
  contains a [] = false
  contains a (b ∷ s) = b == a || contains a s

  -- `s.insert(a)`
  unfoldable pub insert : A → HashSet A → HashSet A
  unfolding contains
  insert a s = if contains a s then s else a ∷ s

  -- `s.erase(a)`
  unfoldable pub remove : A → HashSet A → HashSet A
  remove a [] = []
  remove a (b ∷ s) = let rest = remove a s in if b == a then rest else b ∷ rest

  pub contains-insert :
      (a b : A) (s : HashSet A) → contains b (insert a s) ≡ (if a == b then true else contains b s)
  unfolding insert
  contains-insert a b s = ground (arith, e.beq_iff a b)

  pub contains-remove :
      (a b : A) (s : HashSet A) → contains b (remove a s) ≡ (if a == b then false else contains b s)
  unfolding contains remove
  contains-remove a b [] = ground arith
  contains-remove a b (c ∷ s) =
      ground (arith, e.beq_iff c a, e.beq_iff c b, e.beq_iff a b, contains-remove a b s)
