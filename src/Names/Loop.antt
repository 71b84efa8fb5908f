-- ===== src/Names/Loop.antt =====
-- The loop of `transform_type` ends, and makes one pass of replacements.
use mathlib.Core.Option
use web_socket_sh.Prelude.{
  ℕ, zero, suc, ◌+◌, ◌≤◌, ◌<◌, ◌≡◌, ◌≢◌, refl, ap, ◌∙◌, true, false, some, inl, inr, [], ◌∷◌, arith,
  ◌==◌, nat_eq, if◌then◌else◌, length, All, Bool-cases, Option-cases,
}
use web_socket_sh.Text.{Text, bytes, is_empty}
use web_socket_sh.Names.{find_char, replace_at, transform_loop, transform_type}

-- Each '/' replaced, in one pass.
abbrev pub expand : Text → Text
expand [] = []
expand (c ∷ s) = if c == b'/' then b'_' ∷ b'_' ∷ expand s else c ∷ expand s

abbrev pub slashes : Text → ℕ
slashes [] = 0
slashes (c ∷ s) = (if c == b'/' then 1 else 0) + slashes s

slashes-le : (s : Text) → slashes s ≤ length s
slashes-le [] = omega arith
slashes-le (c ∷ s) = ground (arith, slashes-le s)

-- What stands before the position is left alone.
step_under :
    (f i c : ℕ) (s : Text)
    → transform_loop f (suc i) (c ∷ s) ≡ Option.map (λ (t : Text). c ∷ t) (transform_loop f i s)
unfolding transform_loop find_char replace_at
step_under zero i c s = refl
step_under (suc f) i c s = elim (Option-cases (find_char b'/' i s)) [
  | inl e ↦ rw (e, transform_loop)
  | inr (j, e) ↦ rw (e, transform_loop) (step_under f j c (replace_at j (bytes "__") s))
]

step_other :
    (f c : ℕ) (s : Text)
    → (c == b'/') ≡ false
    → transform_loop f 0 (c ∷ s) ≡ Option.map (λ (t : Text). c ∷ t) (transform_loop f 0 s)
unfolding transform_loop find_char replace_at
step_other zero c s h = refl
step_other (suc f) c s h = elim (Option-cases (find_char b'/' 0 s)) [
  | inl e ↦ rw (h, e, transform_loop) refl
  | inr (j, e) ↦ rw (h, e, transform_loop) (step_under f j c (replace_at j (bytes "__") s))
]

step_slash :
    (f c : ℕ) (s : Text)
    → (c == b'/') ≡ true
    → transform_loop (suc f) 0 (c ∷ s)
      ≡ Option.map (λ (t : Text). b'_' ∷ b'_' ∷ t) (transform_loop f 0 s)
unfolding transform_loop find_char replace_at
step_slash f c s h =
    rw (h, transform_loop)
      (step_other f b'_' (b'_' ∷ s) refl
        ∙ ap (Option.map (λ (t : Text). b'_' ∷ t)) (step_other f b'_' s refl)
        ∙ Option.map-map _ _ _)

loop_end : (f : ℕ) → transform_loop (suc f) 0 [] ≡ some []
unfolding transform_loop find_char
loop_end f = refl

-- One more round than there are slashes is enough, and the loop then makes one pass of
-- replacements.
pub transform_loop_lem : (f : ℕ) (s : Text) → slashes s < f → transform_loop f 0 s ≡ some (expand s)
transform_loop_lem zero s h = elim h [ ]
transform_loop_lem (suc f) [] h = loop_end f
transform_loop_lem (suc f) (c ∷ s) h = elim (Bool-cases (c == b'/')) [
  | inl e ↦ rw (step_slash f c s e, transform_loop_lem f s (ground arith)) (rw e)
  | inr e ↦ rw (step_other (suc f) c s e, transform_loop_lem (suc f) s (ground arith)) (rw e)
]

-- The loop that transforms the name of a type ends, and has replaced every slash by two
-- underscores and left every other byte.
pub transform_type-eq-expand : (s : Text) → transform_type s ≡ expand s
unfolding transform_type
transform_type-eq-expand s =
    rw (transform_loop_lem (suc (length s)) s (omega (arith, slashes-le s)))

abbrev pub HasNoSlash : Text → Type 0
HasNoSlash = All (λ c. c ≢ b'/')

expand-HasNoSlash : (s : Text) → HasNoSlash (expand s)
expand-HasNoSlash [] = tt
expand-HasNoSlash (c ∷ s) = elim (Bool-cases (c == b'/')) [
  | inl e ↦ rw e (omega arith, (omega arith, expand-HasNoSlash s))
  | inr e ↦ rw e (ground arith, expand-HasNoSlash s)
]

expand_fixed : (s : Text) → HasNoSlash s → expand s ≡ s
expand_fixed [] h = refl
expand_fixed (c ∷ s) h = ground (arith, expand_fixed s h.1)

pub transform_type-HasNoSlash : (s : Text) → HasNoSlash (transform_type s)
transform_type-HasNoSlash s = rw transform_type-eq-expand (expand-HasNoSlash s)

pub transform_type_fixed : (s : Text) → HasNoSlash s → transform_type s ≡ s
transform_type_fixed s h = transform_type-eq-expand s ∙ expand_fixed s h

-- A name that was transformed is not changed by a second transformation.
pub transform_type_twice : (s : Text) → transform_type (transform_type s) ≡ transform_type s
transform_type_twice s = transform_type_fixed (transform_type s) (transform_type-HasNoSlash s)

pub is_empty-transform_type : (s : Text) → is_empty (transform_type s) ≡ is_empty s
is_empty-transform_type s = rw transform_type-eq-expand (expand-empty s)
  where
    expand-empty : (s : Text) → is_empty (expand s) ≡ is_empty s
    expand-empty [] = refl
    expand-empty (c ∷ s) = ground arith
