-- ===== src/Auth/Regex.antt =====
-- `std::regex` (the ECMAScript grammar) on the patterns that src/ServerConfig.cpp writes: escaped
-- characters, '.' alone or under '*' or '?', and characters that stand for themselves. A pattern
-- outside that part of the grammar is left to a parameter.
use web_socket_sh.Prelude.{
  ℕ, Bool, false, not, ◌&&◌, ◌||◌, Option, none, some, List, [], ◌∷◌, ◌==◌, nat_eq, if◌then◌else◌,
}
use web_socket_sh.Text.{Text, bytes, is_empty}
use web_socket_sh.Dict.HashSet.{contains}

pub data Piece : Type 0 where
  literal : ℕ → Piece
  any_one any_optional any_many : Piece

-- The characters that the grammar reads in a special way, '.' and '\' apart.
abbrev pub is_meta : ℕ → Bool
is_meta c = contains c (bytes "*?+()[]{}^$|")

-- '.' matches any character that ends no line.
unfoldable pub is_dot : ℕ → Bool
is_dot c = not (c == 10) && not (c == 13)

unfoldable pub put_piece : Piece → Option (List Piece) → Option (List Piece)
put_piece p none = none
put_piece p (some ps) = some (p ∷ ps)

-- What a text says as a pattern, after a '.', and after a '\'; `none` where it is outside this part
-- of the grammar.
pub record Parses : Type 0 where
  pub start : Option (List Piece)
  pub after_dot : Option (List Piece)
  pub after_escape : Option (List Piece)

unfoldable pub parse_start : ℕ → Parses → Option (List Piece)
unfolding put_piece
parse_start c rest =
    if c == 92
    then rest.after_escape
    else if c == b'.'
    then rest.after_dot
    else if is_meta c
    then none
    else put_piece (literal c) rest.start

-- '.' and '\' are the characters that are escaped here.
unfoldable pub parse_step : ℕ → Parses → Parses
unfolding parse_start
parse_step c rest = record {
  start = parse_start c rest;
  after_dot =
      if c == b'*'
      then put_piece any_many rest.start
      else if c == b'?'
      then put_piece any_optional rest.start
      else put_piece any_one (parse_start c rest);
  after_escape = if c == b'.' || c == 92 then put_piece (literal c) rest.start else none;
}

unfoldable pub parses : Text → Parses
unfolding parse_step
parses [] = record { start = some []; after_dot = some (any_one ∷ []); after_escape = none }
parses (c ∷ s) = parse_step c (parses s)

-- A match of the rest after any number of characters.
unfoldable pub match_many : (Text → Bool) → Text → Bool
match_many rest [] = rest []
match_many rest (d ∷ s) = let more = match_many rest s in rest (d ∷ s) || (is_dot d && more)

unfoldable pub match_first : (ℕ → Bool) → (Text → Bool) → Text → Bool
match_first fits rest [] = false
match_first fits rest (d ∷ s) = fits d && rest s

-- `std::regex_match`: the whole text.
unfoldable pub match_pieces : List Piece → Text → Bool
unfolding match_many match_first
match_pieces [] s = is_empty s
match_pieces (literal c ∷ ps) s = match_first (λ d. c == d) (match_pieces ps) s
match_pieces (any_one ∷ ps) s = match_first is_dot (match_pieces ps) s
match_pieces (any_optional ∷ ps) s = match_pieces ps s || match_first is_dot (match_pieces ps) s
match_pieces (any_many ∷ ps) s = match_many (match_pieces ps) s
