-- ===== src/Decimal.antt =====
-- `std::to_string` of an unsigned number.
use web_socket_sh.Prelude.{
  ℕ, zero, suc, ◌+◌, ◌*◌, ◌/◌, ◌%◌, ◌-◌, ◌<◌, ◌≤◌, ◌≡◌, refl, ap, sym, ◌∙◌, inl, inr, [], ◌∷◌, ◌++◌,
  arith, ltb, All, All-append, Bool-cases, if◌then◌else◌,
}
use web_socket_sh.Text.{Text}

-- The digits, the most significant first; one round of fuel for each digit.
decimal_loop : ℕ → ℕ → Text
decimal_loop zero n = []
decimal_loop (suc f) n =
    let more = decimal_loop f (n / 10) ++ (n % 10 + b'0') ∷ [] in
    if ltb n 10 then (n + b'0') ∷ [] else more

unfoldable pub to_string : ℕ → Text
unfolding decimal_loop
to_string n = decimal_loop (suc n) n

-- The number that digits stand for.
pub value_from : ℕ → Text → ℕ
value_from acc [] = acc
value_from acc (c ∷ s) = value_from (acc * 10 + (c - b'0')) s

value_from-append :
    (acc c : ℕ) (s : Text) → value_from acc (s ++ c ∷ []) ≡ value_from acc s * 10 + (c - b'0')
unfolding value_from
value_from-append acc c [] = refl
value_from-append acc c (d ∷ s) = value_from-append (acc * 10 + (d - b'0')) c s

decimal_loop-value : (f n : ℕ) → n < f → value_from 0 (decimal_loop f n) ≡ n
unfolding decimal_loop
decimal_loop-value zero n h = elim h [ ]
decimal_loop-value (suc f) n h = elim (Bool-cases (ltb n 10)) [
  | inl e ↦ rw e (unfold value_from in omega arith)
  | inr e ↦
      rw (e, value_from-append 0 (n % 10 + b'0') (decimal_loop f (n / 10)))
        (omega (arith, decimal_loop-value f (n / 10) (ground arith)))
]

-- Every number is read back from its digits, so `to_string` gives different numbers different
-- texts.
pub value-to_string : (n : ℕ) → value_from 0 (to_string n) ≡ n
unfolding to_string
value-to_string n = decimal_loop-value (suc n) n (omega arith)

pub to_string-injective : (m n : ℕ) → to_string m ≡ to_string n → m ≡ n
to_string-injective m n h = sym (value-to_string m) ∙ ap (value_from 0) h ∙ value-to_string n

abbrev pub IsDigit : ℕ → Type 0
IsDigit c = (b'0' ≤ c) × (c ≤ b'9')

decimal_loop-IsDigit : (f n : ℕ) → All IsDigit (decimal_loop f n)
unfolding decimal_loop
decimal_loop-IsDigit zero n = tt
decimal_loop-IsDigit (suc f) n = elim (Bool-cases (ltb n 10)) [
  | inl e ↦ rw e ((omega arith, ground (arith, e)), tt)
  | inr e ↦ rw e (
      All-append IsDigit (decimal_loop f (n / 10)) _ (decimal_loop-IsDigit f (n / 10))
        ((omega arith, omega arith), tt))
]

pub to_string-IsDigit : (n : ℕ) → All IsDigit (to_string n)
unfolding to_string
to_string-IsDigit n = decimal_loop-IsDigit (suc n) n
