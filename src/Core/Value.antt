-- ===== src/Core/Value.antt =====
-- The values that travel in a Python `dict[str, Any]`, with the parts of the language that the
-- agents use on them: `dict.get`, truth testing, `int(...)` and text search.
use Prim.Native.Char.{code}
use far_away.Prelude.{
  ℕ, String, Bool, true, false, not, Option, none, some, List, [], ◌∷◌, ◌==◌, str_eq, if◌then◌else◌,
}
use far_away.Prelude.Int.{ℤ, pos, negsuc}

-- A finite float is given by the shortest decimal that reads back as it: `float m k` is m / 10^k.
mutual
  pub data Value : Type 0 where
    null : Value
    bool : Bool → Value
    int : ℤ → Value
    float : ℤ → ℕ → Value
    text : String → Value
    list : Items → Value
    dict : Fields → Value

  pub data Items : Type 0 where
    nil : Items
    item : Value → Items → Items

  pub data Fields : Type 0 where
    end : Fields
    field : String → Value → Fields → Fields

-- `d.get(key)`: `none` when the key is missing
unfoldable pub get : String → Fields → Option Value
get key end = none
get key (field k v rest) = if str_eq k key then some v else get key rest

abbrev pub or_default : Option Value → Value → Value
or_default none d = d
or_default (some v) d = v

-- `d.get(key, default)`
unfoldable pub get_or : String → Value → Fields → Value
unfolding get
get_or key d fields = or_default (get key fields) d

abbrev pub is_zero : ℤ → Bool
is_zero (pos n) = n == 0
is_zero (negsuc n) = false

-- `bool(v)`
unfoldable pub truthy : Value → Bool
truthy null = false
truthy (bool b) = b
truthy (int n) = not (is_zero n)
truthy (float m k) = not (is_zero m)
truthy (text s) = not (str_eq s "")
truthy (list nil) = false
truthy (list (item v rest)) = true
truthy (dict end) = false
truthy (dict (field k v rest)) = true

-- `a or b`
unfoldable pub or_value : Value → Value → Value
unfolding truthy
or_value a b = if truthy a then a else b

-- The code points of a text.
abbrev pub codes : String → List ℕ
codes String.[] = []
codes (String.◌∷◌ c s) = code c ∷ codes s
