-- ===== src/Config/Success.antt =====
-- What a set-up does after a stage that succeeds.
use web_socket_sh.Prelude.{◌≡◌, ap}
use web_socket_sh.Config.{Result, ok, Setup, continue, ◌>>=◌, lift}

module _ {S A B : Type 0} where
  -- The rule for a stage whose result is known.
  pub bind-ok :
      (m : Setup S A) (f : A → Setup S B) (s : S) (a : A) (t : S)
      → m s ≡ (ok a, t)
      → (m >>= f) s ≡ f a t
  bind-ok m f s a t h = ap (λ r. continue f r) h

  -- The rule for a stage that changes nothing.
  pub lift-ok :
      (r : Result A) (f : A → Setup S B) (s : S) (a : A) → r ≡ ok a → (lift r >>= f) s ≡ f a s
  lift-ok r f s a h = ap (λ q. continue f (q, s)) h
