-- ===== src/Auth/Glob.antt =====
-- `ServerConfig::_glob_to_regex` (src/ServerConfig.cpp), and what its patterns match.
use web_socket_sh.Prelude.{
  ℕ, ◌≡◌, ◌≢◌, ◌↔◌, ◌⊎◌, refl, sym, subst, Bool, true, false, ◌||◌, some, inl, inr, List, [], ◌∷◌,
  ◌++◌, ◌==◌, nat_eq, arith, All, if◌then◌else◌, Bool-cases,
}
use web_socket_sh.Text.{Text, bytes}
use web_socket_sh.Dict.HashSet.{contains}
use web_socket_sh.Auth.Regex.{
  Piece, literal, any_optional, any_many, is_meta, is_dot, parses, match_pieces, match_many,
  match_first,
}

-- What takes the place of one character.
unfoldable pub glob_char : ℕ → Text
glob_char c =
    if c == b'.'
    then bytes "\\."
    else if c == b'*'
    then bytes ".*"
    else if c == b'?'
    then bytes ".?"
    else if c == 92
    then bytes "\\\\"
    else c ∷ []

unfoldable pub glob_to_regex : Text → Text
unfolding glob_char
glob_to_regex [] = []
glob_to_regex (c ∷ s) = glob_char c ++ glob_to_regex s

-- No character that the grammar of regular expressions reads in a special way but the four that
-- `_glob_to_regex` replaces.
abbrev pub IsGlob : Text → Type 0
IsGlob = All (λ c. (c ≡ b'*') ⊎ ((c ≡ b'?') ⊎ (is_meta c ≡ false)))

-- The texts that a glob stands for: '*' for any characters of one line, '?' for at most one, and
-- any other character for itself.
pub data GlobMatches : Text → Text → Type 0 where
  done : GlobMatches [] []
  same : {g s : Text} (c : ℕ) → c ≢ b'*' → c ≢ b'?' → GlobMatches g s → GlobMatches (c ∷ g) (c ∷ s)
  star_end : (g s : Text) → GlobMatches g s → GlobMatches (b'*' ∷ g) s
  star_more :
      {g s : Text} (d : ℕ)
      → is_dot d ≡ true
      → GlobMatches (b'*' ∷ g) s
      → GlobMatches (b'*' ∷ g) (d ∷ s)
  question_none : {g s : Text} → GlobMatches g s → GlobMatches (b'?' ∷ g) s
  question_one :
      {g s : Text} (d : ℕ) → is_dot d ≡ true → GlobMatches g s → GlobMatches (b'?' ∷ g) (d ∷ s)

-- The pieces of the pattern of a glob.
abbrev glob_piece : ℕ → Piece
glob_piece c = if c == b'*' then any_many else if c == b'?' then any_optional else literal c

abbrev glob_pieces : Text → List Piece
glob_pieces [] = []
glob_pieces (c ∷ g) = glob_piece c ∷ glob_pieces g

parses-glob_char :
    (c : ℕ) (s : Text) (ps : List Piece)
    → (c ≡ b'*') ⊎ ((c ≡ b'?') ⊎ (is_meta c ≡ false))
    → (parses s).start ≡ some ps
    → (parses (glob_char c ++ s)).start ≡ some (glob_piece c ∷ ps)
unfolding parses glob_char contains
parses-glob_char c s ps (inl e) p = rw (e, p)
parses-glob_char c s ps (inr (inl e)) p = rw (e, p)
parses-glob_char c s ps (inr (inr e)) p = ground (arith, p, e)

parses-glob_to_regex :
    (g : Text) → IsGlob g → (parses (glob_to_regex g)).start ≡ some (glob_pieces g)
unfolding parses glob_to_regex
parses-glob_to_regex [] h = refl
parses-glob_to_regex (c ∷ g) h =
    parses-glob_char c (glob_to_regex g) (glob_pieces g) h.0 (parses-glob_to_regex g h.1)

-- A character is '*', or '?', or stands for itself.
glob_piece-cases :
    (c : ℕ) → (c ≡ b'*') ⊎ ((c ≡ b'?') ⊎ ((c ≢ b'*') × (c ≢ b'?') × (glob_piece c ≡ literal c)))
glob_piece-cases c = ground arith

match_many-GlobMatches :
    (g s : Text) (rest : Text → Bool)
    → ((t : Text) → rest t ≡ true → GlobMatches g t)
    → match_many rest s ≡ true
    → GlobMatches (b'*' ∷ g) s
unfolding match_many
match_many-GlobMatches g [] rest sound h = star_end g _ (sound [] h)
match_many-GlobMatches g (d ∷ s) rest sound h = elim (Bool-cases (rest (d ∷ s))) [
  | inl now ↦ star_end g _ (sound (d ∷ s) now)
  | inr later ↦
      let (dot, more) : (is_dot d ≡ true) × (match_many rest s ≡ true) = ground (arith, h, later) in
      star_more d dot (match_many-GlobMatches g s rest sound more)
]

match_optional-GlobMatches :
    (g s : Text) (rest : Text → Bool)
    → ((t : Text) → rest t ≡ true → GlobMatches g t)
    → (rest s || match_first is_dot rest s) ≡ true
    → GlobMatches (b'?' ∷ g) s
unfolding match_first
match_optional-GlobMatches g [] rest sound h = question_none (sound [] (ground (arith, h)))
match_optional-GlobMatches g (d ∷ s) rest sound h = elim (Bool-cases (rest (d ∷ s))) [
  | inl now ↦ question_none (sound (d ∷ s) now)
  | inr later ↦
      let (dot, more) : (is_dot d ≡ true) × (rest s ≡ true) = ground (arith, h, later) in
      question_one d dot (sound s more)
]

match_literal-GlobMatches :
    (c : ℕ) (g s : Text) (rest : Text → Bool)
    → c ≢ b'*'
    → c ≢ b'?'
    → ((t : Text) → rest t ≡ true → GlobMatches g t)
    → match_first (λ d. c == d) rest s ≡ true
    → GlobMatches (c ∷ g) s
unfolding match_first
match_literal-GlobMatches c g [] rest p q sound h = absurd (ground (arith, h))
match_literal-GlobMatches c g (d ∷ s) rest p q sound h =
    let (equal, more) : (c ≡ d) × (rest s ≡ true) = ground (arith, h) in
    subst (λ e. GlobMatches (c ∷ g) (e ∷ s)) equal (same c p q (sound s more))

match_pieces-GlobMatches : (g s : Text) → match_pieces (glob_pieces g) s ≡ true → GlobMatches g s
unfolding match_pieces
match_pieces-GlobMatches [] [] h = done
match_pieces-GlobMatches [] (d ∷ s) h = absurd (ground (arith, h))
match_pieces-GlobMatches (c ∷ g) s h =
    let rest = match_pieces (glob_pieces g) in
    elim (glob_piece-cases c) [
      | inl e ↦
          subst (λ k. match_pieces (glob_pieces (k ∷ g)) s ≡ true → GlobMatches (k ∷ g) s) (sym e)
            (match_many-GlobMatches g s rest (λ t. match_pieces-GlobMatches g t)) h
      | inr (inl e) ↦
          subst (λ k. match_pieces (glob_pieces (k ∷ g)) s ≡ true → GlobMatches (k ∷ g) s) (sym e)
            (match_optional-GlobMatches g s rest (λ t. match_pieces-GlobMatches g t)) h
      | inr (inr (p, q, e)) ↦
          match_literal-GlobMatches c g s rest p q (λ t. match_pieces-GlobMatches g t)
            (subst (λ k. match_pieces (k ∷ glob_pieces g) s ≡ true) e h)
    ]

match_many_now : (rest : Text → Bool) (s : Text) → rest s ≡ true → match_many rest s ≡ true
unfolding match_many
match_many_now rest [] h = h
match_many_now rest (d ∷ s) h = ground (arith, h)

GlobMatches-match_pieces : {g s : Text} → GlobMatches g s → match_pieces (glob_pieces g) s ≡ true
unfolding match_pieces match_many match_first
GlobMatches-match_pieces done = refl
GlobMatches-match_pieces (same c p q m) = ground (arith, p, q, GlobMatches-match_pieces m)
GlobMatches-match_pieces (star_end g s m) =
    match_many_now (match_pieces (glob_pieces g)) s (GlobMatches-match_pieces m)
GlobMatches-match_pieces (star_more d dot m) = ground (arith, dot, GlobMatches-match_pieces m)
GlobMatches-match_pieces (question_none m) = ground (arith, GlobMatches-match_pieces m)
GlobMatches-match_pieces (question_one d dot m) = ground (arith, dot, GlobMatches-match_pieces m)

-- The pieces of the pattern, with what they match.
pub glob_lem :
    (g : Text)
    → IsGlob g
    → (pieces : List Piece) × (((parses (glob_to_regex g)).start ≡ some pieces)
        × ((s : Text) → (match_pieces pieces s ≡ true) ↔ GlobMatches g s))
glob_lem g h = (
  glob_pieces g,
  (parses-glob_to_regex g h, λ s. (match_pieces-GlobMatches g s, GlobMatches-match_pieces)),
)

-- The pattern made of a glob whose only special characters are those of a glob matches a text
-- exactly if the glob stands for it.
pub glob_to_regex-GlobMatches :
    (g s : Text)
    → IsGlob g
    → (pieces : List Piece) × ((parses (glob_to_regex g)).start ≡ some pieces)
      × ((match_pieces pieces s ≡ true) ↔ GlobMatches g s)
glob_to_regex-GlobMatches g s h = let (pieces, (p, q)) = glob_lem g h in (pieces, p, q s)
