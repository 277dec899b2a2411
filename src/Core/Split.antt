-- ===== src/Core/Split.antt =====
-- `str.strip`, `str.replace`, `str.split`, `str.partition` and a prefix, on texts. White space is that
-- of Latin-1.
use Prim.Native.Char.{Char, code}
use far_away.Prelude.{ℕ, zero, suc, String, Bool, true, false, List, [], ◌∷◌, ◌==◌, if◌then◌else◌}
use far_away.Core.Text.{is_space}

unfoldable pub strip_start : String → String
strip_start String.[] = String.[]
strip_start (String.◌∷◌ c s) =
    let rest = strip_start s in if is_space (code c) then rest else String.◌∷◌ c s

unfoldable pub reversed_onto : String → String → String
reversed_onto acc String.[] = acc
reversed_onto acc (String.◌∷◌ c s) = reversed_onto (String.◌∷◌ c acc) s

-- `s.strip()`
unfoldable pub strip_text : String → String
unfolding strip_start reversed_onto
strip_text s = reversed_onto "" (strip_start (reversed_onto "" (strip_start s)))

-- `s.replace(old, new)` of one character
unfoldable pub replace : ℕ → Char → String → String
replace old new String.[] = String.[]
replace old new (String.◌∷◌ c s) = String.◌∷◌ (if code c == old then new else c) (replace old new s)

abbrev onto_first : Char → List String → List String
onto_first c [] = String.◌∷◌ c "" ∷ []
onto_first c (w ∷ ws) = String.◌∷◌ c w ∷ ws

-- `s.split(sep)` at one character
unfoldable pub split : ℕ → String → List String
split sep String.[] = "" ∷ []
split sep (String.◌∷◌ c s) =
    let rest = split sep s in if code c == sep then "" ∷ rest else onto_first c rest

-- `s.partition(sep)[0]`
unfoldable pub before : ℕ → String → String
before sep String.[] = ""
before sep (String.◌∷◌ c s) =
    let rest = before sep s in if code c == sep then "" else String.◌∷◌ c rest

-- `s.partition(sep)[2]`
unfoldable pub behind : ℕ → String → String
behind sep String.[] = ""
behind sep (String.◌∷◌ c s) = let rest = behind sep s in if code c == sep then s else rest

-- `sep in s`
unfoldable pub has_char : ℕ → String → Bool
has_char sep String.[] = false
has_char sep (String.◌∷◌ c s) = if code c == sep then true else has_char sep s

-- `s.startswith(prefix)`
unfoldable pub has_prefix : String → String → Bool
has_prefix String.[] s = true
has_prefix (String.◌∷◌ p prefix) String.[] = false
has_prefix (String.◌∷◌ p prefix) (String.◌∷◌ c s) =
    if code p == code c then has_prefix prefix s else false

-- `s.endswith(suffix)`
unfoldable pub has_suffix : String → String → Bool
unfolding has_prefix reversed_onto
has_suffix suffix s = has_prefix (reversed_onto "" suffix) (reversed_onto "" s)

-- `s[n:]`
unfoldable pub drop_text : ℕ → String → String
drop_text zero s = s
drop_text (suc n) String.[] = String.[]
drop_text (suc n) (String.◌∷◌ c s) = drop_text n s

-- `s[:n]`
unfoldable pub take_text : ℕ → String → String
take_text zero s = String.[]
take_text (suc n) String.[] = String.[]
take_text (suc n) (String.◌∷◌ c s) = String.◌∷◌ c (take_text n s)
