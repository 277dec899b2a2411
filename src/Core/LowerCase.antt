-- ===== src/Core/LowerCase.antt =====
-- `str.lower` on the letters of ASCII; the other two code points whose lower case is an ASCII letter
-- are the Kelvin sign and the dotted capital I.
use Prim.Native.Char.{Char, code}
use Prim.Native.String.{char_at}
use far_away.Prelude.{◌-◌, String, ◌&&◌, leb, if◌then◌else◌}

abbrev lower_char : Char → Char
lower_char c =
    if leb b'A' (code c) && leb (code c) b'Z'
    then char_at "abcdefghijklmnopqrstuvwxyz" (code c - b'A')
    else c

-- `s.lower()`
unfoldable pub lower_text : String → String
lower_text String.[] = String.[]
lower_text (String.◌∷◌ c s) = String.◌∷◌ (lower_char c) (lower_text s)
