-- ===== src/Prelude/Texts.antt =====
-- Membership of texts in lists, by the Boolean test of equality.
use mathlib.Core.Path.{◌≡◌, refl}
use mathlib.Core.Bool.{Bool, true, false, not, ◌&&◌, ◌||◌}
use mathlib.Core.List.{List, [], ◌∷◌, ◌++◌}
use Prim.Native.String.{String}
use native.Mathlib.Omega.{arith}
use text.Mathlib.Text.{◌==◌ as str_eq}
use text.Mathlib.TextEquality.{eq_iff}
use far_away.Prelude.Lists.{any}

pub any-append :
    {A : Type 0} (test : A → Bool) (xs ys : List A)
    → any test (xs ++ ys) ≡ (any test xs || any test ys)
any-append test [] ys = refl
any-append test (x ∷ xs) ys = ground (arith, any-append test xs ys)

pub str_eq_sym : (a b : String) → str_eq a b ≡ str_eq b a
str_eq_sym a b = ground (arith, eq_iff a b, eq_iff b a)

pub any_sym : (t : String) (xs : List String) → any (λ k. str_eq k t) xs ≡ any (str_eq t) xs
any_sym t [] = refl
any_sym t (x ∷ xs) = ground (arith, str_eq_sym t x, any_sym t xs)

-- No text of the list occurs twice.
abbrev pub all_distinct : List String → Bool
all_distinct [] = true
all_distinct (h ∷ hs) = not (any (λ k. str_eq k h) hs) && all_distinct hs

pub all_distinct-snoc :
    (h : String) (hs : List String)
    → any (λ k. str_eq k h) hs ≡ false
    → all_distinct hs ≡ true
    → all_distinct (hs ++ h ∷ []) ≡ true
all_distinct-snoc h [] fresh d = refl
all_distinct-snoc h (x ∷ xs) fresh d =
    ground (arith, any-append (λ k. str_eq k x) xs (h ∷ []), str_eq_sym x h, all_distinct-snoc h xs)
