-- ===== src/Dict/Unique.antt =====
-- A dictionary holds a key once. The operations keep that, and the keys that a loop collects are
-- those that `find` shows.
use web_socket_sh.Prelude.{
  ◌≡◌, refl, Bool, true, false, none, some, inl, inr, List, [], ◌∷◌, arith, Eq, ◌==◌, if◌then◌else◌,
  Bool-cases,
}
use web_socket_sh.Dict.{Dict, find, assign, erase, erase_all, keys, keys_where, map_values}
use web_socket_sh.Dict.HashSet.{contains}

module _ {ℓ κ} {K : Type ℓ} {V : Type κ} ⦃e : Eq K⦄ where
  abbrev pub IsUnique : Dict K V → Type 0
  IsUnique [] = Unit
  IsUnique ((j, w) ∷ m) = (contains j (keys m) ≡ false) × IsUnique m

  contains-keys-assign :
      (k i : K) (v : V) (m : Dict K V)
      → contains i (keys (assign k v m)) ≡ (if k == i then true else contains i (keys m))
  unfolding assign contains
  contains-keys-assign k i v [] = ground arith
  contains-keys-assign k i v ((j, w) ∷ m) =
      ground (arith, e.beq_iff k i, e.beq_iff j k, e.beq_iff j i, contains-keys-assign k i v m)

  contains-keys-erase :
      (k i : K) (m : Dict K V)
      → contains i (keys (erase k m)) ≡ (if k == i then false else contains i (keys m))
  unfolding erase contains
  contains-keys-erase k i [] = ground arith
  contains-keys-erase k i ((j, w) ∷ m) =
      ground (arith, e.beq_iff k i, e.beq_iff j k, e.beq_iff j i, contains-keys-erase k i m)

  keys-map_values : (f : V → V) (m : Dict K V) → keys (map_values f m) ≡ keys m
  unfolding map_values
  keys-map_values f [] = refl
  keys-map_values f ((j, w) ∷ m) = ground (arith, keys-map_values f m)

  pub assign-IsUnique : (k : K) (v : V) (m : Dict K V) → IsUnique m → IsUnique (assign k v m)
  unfolding assign contains
  assign-IsUnique k v [] h = (refl, tt)
  assign-IsUnique k v ((j, w) ∷ m) h = elim (Bool-cases (j == k)) [
    | inl p ↦ rw p (ground (arith, e.beq_iff j k))
    | inr p ↦ rw p (
      ground (arith, contains-keys-assign k j v m, e.beq_iff k j, e.beq_iff j k),
      assign-IsUnique k v m h.1,
    )
  ]

  pub erase-IsUnique : (k : K) (m : Dict K V) → IsUnique m → IsUnique (erase k m)
  unfolding erase
  erase-IsUnique k [] h = tt
  erase-IsUnique k ((j, w) ∷ m) h = elim (Bool-cases (j == k)) [
    | inl p ↦ rw p (erase-IsUnique k m h.1)
    | inr p ↦ rw p (ground (arith, contains-keys-erase k j m, h.0), erase-IsUnique k m h.1)
  ]

  pub erase_all-IsUnique : (ks : List K) (m : Dict K V) → IsUnique m → IsUnique (erase_all ks m)
  unfolding erase_all
  erase_all-IsUnique [] m h = h
  erase_all-IsUnique (k ∷ ks) m h = erase_all-IsUnique ks (erase k m) (erase-IsUnique k m h)

  pub map_values-IsUnique : (f : V → V) (m : Dict K V) → IsUnique m → IsUnique (map_values f m)
  unfolding map_values
  map_values-IsUnique f [] h = tt
  map_values-IsUnique f ((j, w) ∷ m) h = (rw (keys-map_values f m) h.0, map_values-IsUnique f m h.1)

  contains-keys_where-no_key :
      (p : V → Bool) (k : K) (m : Dict K V)
      → contains k (keys m) ≡ false
      → contains k (keys_where p m) ≡ false
  unfolding keys_where contains
  contains-keys_where-no_key p k [] h = refl
  contains-keys_where-no_key p k ((j, w) ∷ m) h = ground (arith, contains-keys_where-no_key p k m)

  pub contains-keys_where :
      (p : V → Bool) (k : K) (m : Dict K V)
      → IsUnique m
      → contains k (keys_where p m) ≡ elim (find k m) [ none ↦ false | some v ↦ p v ]
  unfolding keys_where contains find
  contains-keys_where p k [] h = refl
  contains-keys_where p k ((j, w) ∷ m) h =
      ground
        (arith, e.beq_iff j k, contains-keys_where p k m h.1, contains-keys_where-no_key p j m h.0)

  -- The key of a value that is found, and passes the test, is among those.
  pub contains-keys_where-found :
      (p : V → Bool) (k : K) (v : V) (m : Dict K V)
      → find k m ≡ some v
      → p v ≡ true
      → contains k (keys_where p m) ≡ true
  unfolding keys_where contains find
  contains-keys_where-found p k v [] h q = absurd (ground (arith, h))
  contains-keys_where-found p k v ((j, w) ∷ m) h q =
      ground (arith, e.beq_iff j k, h, q, contains-keys_where-found p k v m)
