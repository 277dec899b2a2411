-- ===== src/Core/Text.antt =====
-- Texts as lists of code points: `str.lower`, `in`, and `int(...)` of a text.
-- Lower-casing is that of ASCII; the other two code points whose lower case is an ASCII letter
-- are the Kelvin sign and the dotted capital I. White space and digits are those of Latin-1.
use far_away.Prelude.{
  ℕ, zero, suc, ◌+◌, ◌-◌, ◌*◌, Bool, true, false, ◌&&◌, ◌||◌, Option, none, some, List, [], ◌∷◌,
  leb, ◌==◌, if◌then◌else◌,
}
use far_away.Prelude.Int.{ℤ, pos, negsuc}

abbrev lower_code : ℕ → ℕ
lower_code c = if leb b'A' c && leb c b'Z' then c + 32 else c

-- `s.lower()`
unfoldable pub lower : List ℕ → List ℕ
lower [] = []
lower (c ∷ s) = lower_code c ∷ lower s

-- `s.startswith(prefix)`
unfoldable pub starts_with : List ℕ → List ℕ → Bool
starts_with [] s = true
starts_with (p ∷ prefix) [] = false
starts_with (p ∷ prefix) (c ∷ s) = p == c && starts_with prefix s

-- `key in s`
unfoldable pub occurs_in : List ℕ → List ℕ → Bool
unfolding starts_with
occurs_in key [] = starts_with key []
occurs_in key (c ∷ s) = starts_with key (c ∷ s) || occurs_in key s

abbrev pub is_space : ℕ → Bool
is_space c = leb 9 c && leb c 13 || (leb 28 c && leb c 32) || (c == 133 || c == 160)

unfoldable pub strip_left : List ℕ → List ℕ
strip_left [] = []
strip_left (c ∷ s) = let rest = strip_left s in if is_space c then rest else c ∷ s

unfoldable pub reverse_onto : List ℕ → List ℕ → List ℕ
reverse_onto acc [] = acc
reverse_onto acc (c ∷ s) = reverse_onto (c ∷ acc) s

-- `s.strip()`
unfoldable pub strip : List ℕ → List ℕ
unfolding strip_left reverse_onto
strip s = reverse_onto [] (strip_left (reverse_onto [] (strip_left s)))

abbrev is_digit : ℕ → Bool
is_digit c = leb b'0' c && leb c b'9'

-- Digits with single underscores between them; `after_digit` says that a digit has just been read.
unfoldable pub parse_digits : Bool → ℕ → List ℕ → Option ℕ
parse_digits after_digit acc [] = if after_digit then some acc else none
parse_digits after_digit acc (c ∷ s) =
    let digit = parse_digits true (acc * 10 + (c - 48)) s in
    let underscore = parse_digits false acc s in
    if is_digit c then digit else if c == b'_' && after_digit then underscore else none

abbrev pub negate : ℕ → ℤ
negate zero = pos 0
negate (suc n) = negsuc n

abbrev signed : (ℕ → ℤ) → Option ℕ → Option ℤ
signed f none = none
signed f (some n) = some (f n)

unfoldable pub parse_signed : List ℕ → Option ℤ
unfolding parse_digits
parse_signed [] = none
parse_signed (c ∷ s) =
    if c == b'-'
    then signed negate (parse_digits false 0 s)
    else if c == b'+'
    then signed pos (parse_digits false 0 s)
    else signed pos (parse_digits false 0 (c ∷ s))

-- `int(s)`, `none` for its `ValueError`
unfoldable pub parse_int : List ℕ → Option ℤ
unfolding parse_signed strip
parse_int s = parse_signed (strip s)
