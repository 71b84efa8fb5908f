-- ===== src/Dict.antt =====
-- `std::map` and `std::unordered_map` as association lists. The order of the entries is that of
-- insertion; the program relies on no order.
pub mod HashSet
pub mod Unique
use HashSet.{contains}
use web_socket_sh.Prelude.{
  ◌≡◌, refl, Option, none, some, List, [], ◌∷◌, arith, Eq, ◌==◌, Bool, if◌then◌else◌,
}

abbrev pub Dict {ℓ κ} : Type ℓ → Type κ → Type (ℓ ⊔ κ)
Dict K V = List (K × V)

module _ {ℓ κ} {K : Type ℓ} {V : Type κ} ⦃e : Eq K⦄ where
  -- `m.find(k)`; `none` is `m.end()`.
  unfoldable pub find : K → Dict K V → Option V
  find k [] = none
  find k ((j, v) ∷ m) = if j == k then some v else find k m

  -- `m[k] = v`
  unfoldable pub assign : K → V → Dict K V → Dict K V
  assign k v [] = (k, v) ∷ []
  assign k v ((j, w) ∷ m) = if j == k then (k, v) ∷ m else (j, w) ∷ assign k v m

  -- `m.erase(k)`
  unfoldable pub erase : K → Dict K V → Dict K V
  erase k [] = []
  erase k ((j, w) ∷ m) = let rest = erase k m in if j == k then rest else (j, w) ∷ rest

  pub find-assign :
      (k j : K) (v : V) (m : Dict K V)
      → find j (assign k v m) ≡ (if k == j then some v else find j m)
  unfolding find assign
  find-assign k j v [] = refl
  find-assign k j v ((i, w) ∷ m) =
      ground (arith, e.beq_iff k j, e.beq_iff i k, e.beq_iff i j, find-assign k j v m)

  pub find-erase :
      (k j : K) (m : Dict K V) → find j (erase k m) ≡ (if k == j then none else find j m)
  unfolding find erase
  find-erase k j [] = ground arith
  find-erase k j ((i, w) ∷ m) =
      ground (arith, e.beq_iff k j, e.beq_iff i k, e.beq_iff i j, find-erase k j m)

module _ {ℓ κ} {K : Type ℓ} {V : Type κ} where
  -- `for (auto& entry : m) entry.second = f(entry.second)`
  unfoldable pub map_values : (V → V) → Dict K V → Dict K V
  map_values f [] = []
  map_values f ((j, w) ∷ m) = (j, f w) ∷ map_values f m

  -- The keys of the entries that pass a test, in the order of the iteration.
  unfoldable pub keys_where : (V → Bool) → Dict K V → List K
  keys_where p [] = []
  keys_where p ((j, w) ∷ m) = let rest = keys_where p m in if p w then j ∷ rest else rest

  abbrev pub keys : Dict K V → List K
  keys [] = []
  keys ((j, w) ∷ m) = j ∷ keys m

module _ {ℓ κ} {K : Type ℓ} {V : Type κ} ⦃e : Eq K⦄ where
  -- `for (k : ks) m.erase(k)`
  unfoldable pub erase_all : List K → Dict K V → Dict K V
  erase_all [] m = m
  erase_all (k ∷ ks) m = erase_all ks (erase k m)

  pub find-map_values :
      (f : V → V) (k : K) (m : Dict K V)
      → find k (map_values f m) ≡ elim (find k m) [ none ↦ none | some v ↦ some (f v) ]
  unfolding find map_values
  find-map_values f k [] = refl
  find-map_values f k ((j, w) ∷ m) = ground (arith, find-map_values f k m)

  pub find-erase_all :
      (ks : List K) (k : K) (m : Dict K V)
      → find k (erase_all ks m) ≡ (if contains k ks then none else find k m)
  unfolding erase_all contains
  find-erase_all [] k m = refl
  find-erase_all (j ∷ ks) k m = ground (arith, find-erase_all ks k (erase j m), find-erase j k m)
