-- ===== src/Config/Ensures.antt =====
-- What holds when a stage of a set-up goes on, and what holds when it ends early.
use web_socket_sh.Prelude.{◌≡◌, refl, subst}
use web_socket_sh.Config.{Result, ok, stopped, raised, Setup, ◌>>=◌, lift}

-- `P` of the value and the state of a stage that goes on, `Q` of the state that an early end leaves.
abbrev pub Ensures : {S A : Type 0} → (A → S → Type 0) → (S → Type 0) → Result A × S → Type 0
Ensures P Q (ok a, s) = P a s
Ensures P Q (stopped, s) = Q s
Ensures P Q (raised exception, s) = Q s

module _ {S A B : Type 0} (P : B → S → Type 0) (Q : S → Type 0) where
  Ensures-continue :
      (R : A → S → Type 0) (f : A → Setup S B) (r : Result A) (s : S)
      → Ensures R Q (r, s)
      → ((a : A) (t : S) → R a t → Ensures P Q (f a t))
      → Ensures P Q ((lift r >>= f) s)
  Ensures-continue R f (ok a) s h k = k a s h
  Ensures-continue R f stopped s h k = h
  Ensures-continue R f (raised exception) s h k = h

  -- The rule for two stages.
  pub Ensures-bind :
      (R : A → S → Type 0) (m : Setup S A) (f : A → Setup S B) (s : S)
      → Ensures R Q (m s)
      → ((a : A) (t : S) → R a t → Ensures P Q (f a t))
      → Ensures P Q ((m >>= f) s)
  Ensures-bind R m f s h k = Ensures-continue R f (m s).0 (m s).1 h k

  -- The rule for a stage that changes nothing.
  pub Ensures-lift :
      (r : Result A) (f : A → Setup S B) (s : S)
      → Q s
      → ((a : A) → r ≡ ok a → Ensures P Q (f a s))
      → Ensures P Q ((lift r >>= f) s)
  Ensures-lift (ok a) f s h k = k a refl
  Ensures-lift stopped f s h k = h
  Ensures-lift (raised exception) f s h k = h

-- A weaker claim on a stage that goes on.
pub Ensures-weaken :
    {S B : Type 0} (P : B → S → Type 0) (Q : S → Type 0) (R : B → S → Type 0) (r : Result B × S)
    → Ensures R Q r
    → ((b : B) (t : S) → R b t → P b t)
    → Ensures P Q r
Ensures-weaken P Q R (ok b, s) h k = k b s h
Ensures-weaken P Q R (stopped, s) h k = h
Ensures-weaken P Q R (raised exception, s) h k = h

-- What a stage ensures of a result that is known.
pub Ensures-ok :
    {S A : Type 0} (P : A → S → Type 0) (Q : S → Type 0) (r : Result A × S) (a : A) (s : S)
    → Ensures P Q r
    → r ≡ (ok a, s)
    → P a s
Ensures-ok P Q r a s h e = subst (Ensures P Q) e h
