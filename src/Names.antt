-- ===== src/Names.antt =====
-- `transform_type` of src/json_encoding.cpp: type names may hold no '/', so each becomes "__".
-- `std::string::find` and `replace` are written out; the loop takes fuel.
pub mod Loop
use mathlib.Core.Option
use web_socket_sh.Prelude.{
  ℕ, zero, suc, Option, none, some, [], ◌∷◌, ◌++◌, ◌==◌, nat_eq, if◌then◌else◌, length,
}
use web_socket_sh.Text.{Text, bytes}

-- `s.find(c, i)`; `none` is `npos`.
unfoldable pub find_char : ℕ → ℕ → Text → Option ℕ
find_char c zero [] = none
find_char c zero (d ∷ s) = if d == c then some 0 else Option.map suc (find_char c zero s)
find_char c (suc i) [] = none
find_char c (suc i) (d ∷ s) = Option.map suc (find_char c i s)

-- `s.replace(i, 1, text)` at a position inside the string.
replace_at : ℕ → Text → Text → Text
replace_at i text [] = []
replace_at zero text (c ∷ s) = text ++ s
replace_at (suc i) text (c ∷ s) = c ∷ replace_at i text s

-- The `for` loop; `none` means that the fuel ran out.
pub transform_loop : ℕ → ℕ → Text → Option Text
transform_loop zero i s = none
transform_loop (suc f) i s = elim (find_char b'/' i s) [
  | none ↦ some s
  | some j ↦ transform_loop f j (replace_at j (bytes "__") s)
]

unfoldable pub transform_type : Text → Text
unfolding transform_loop find_char replace_at
transform_type s = Option.get_or (transform_loop (suc (length s)) 0 s) s
