-- ===== src/Core/TextOrder.antt =====
-- The order of Python's `str`, by code points, and its laws.
use Prim.Native.Nat.{Ordering, compare as compare_ℕ}
use Prim.Native.Char.{Char, code}
use Prim.Native.String.compare
use Prim.Native.String.{compare as compare_text, then as before}
use text.Mathlib.TextPositions.{compare_refl}
use text.Mathlib.TextEquality.{codes_equal}
use far_away.Prelude.{
  String, ◌≡◌, refl, sym, ap, ◌∙◌, Bool, true, false, ◌&&◌, ◌||◌, ltb, ◌==◌, arith, Bool-cases, inl,
  inr,
}

-- `s < t`
abbrev pub text_lt : String → String → Bool
text_lt s t = elim (compare_text s t) [ Ordering.lt ↦ true | _ ↦ false ]

lt-then :
    (o p : Ordering)
    → (elim (before o p) as (λ _. Bool) [ Ordering.lt ↦ true | _ ↦ false ]) ≡ (
        (elim o as (λ _. Bool) [ Ordering.lt ↦ true | _ ↦ false ])
        || (elim o as (λ _. Bool) [ Ordering.eq ↦ true | _ ↦ false ])
          && (elim p as (λ _. Bool) [ Ordering.lt ↦ true | _ ↦ false ]))
lt-then Ordering.lt p = refl
lt-then Ordering.eq p = refl
lt-then Ordering.gt p = refl

abbrev is_lt : Ordering → Bool
is_lt o = elim o as (λ _. Bool) [ Ordering.lt ↦ true | _ ↦ false ]

text_lt-cons :
    (c d : Char) (s t : String)
    → text_lt (String.◌∷◌ c s) (String.◌∷◌ d t)
      ≡ (ltb (code c) (code d) || (code c == code d && text_lt s t))
text_lt-cons c d s t =
    ap is_lt (compare.cons-cons c d s t) ∙ lt-then (compare_ℕ (code c) (code d)) (compare_text s t)

text_lt-nil : (s : String) → text_lt s String.[] ≡ false
text_lt-nil String.[] = ap is_lt compare.nil-nil
text_lt-nil (String.◌∷◌ c s) = ap is_lt (compare.cons-nil c s)

pub text_lt_irrefl : (s : String) → text_lt s s ≡ false
text_lt_irrefl s = ap is_lt (compare_refl s)

pub text_lt_trans : (s t u : String) → text_lt s t ≡ true → text_lt t u ≡ true → text_lt s u ≡ true
text_lt_trans s t String.[] h k = cc (text_lt-nil t)
text_lt_trans String.[] t (String.◌∷◌ e u) h k = ap is_lt (compare.nil-cons e u)
text_lt_trans (String.◌∷◌ c s) String.[] (String.◌∷◌ e u) h k = cc (text_lt-nil (String.◌∷◌ c s))
text_lt_trans (String.◌∷◌ c s) (String.◌∷◌ d t) (String.◌∷◌ e u) h k =
    let h' = sym (text_lt-cons c d s t) ∙ h in
    let k' = sym (text_lt-cons d e t u) ∙ k in
    text_lt-cons c e s u ∙ ground (arith, text_lt_trans s t u)

pub text_lt_asym : (s t : String) → text_lt s t ≡ true → text_lt t s ≡ false
text_lt_asym s t h = elim (Bool-cases (text_lt t s)) [
  | inl e ↦ cc (text_lt_trans s t s h e, text_lt_irrefl s)
  | inr e ↦ e
]

-- Two texts of which neither is before the other are the same.
pub text_lt_total : (s t : String) → text_lt s t ≡ false → text_lt t s ≡ false → s ≡ t
text_lt_total String.[] String.[] h k = refl
text_lt_total String.[] (String.◌∷◌ d t) h k = cc (ap is_lt (compare.nil-cons d t))
text_lt_total (String.◌∷◌ c s) String.[] h k = cc (ap is_lt (compare.nil-cons c s))
text_lt_total (String.◌∷◌ c s) (String.◌∷◌ d t) h k =
    let h' = sym (text_lt-cons c d s t) ∙ h in
    let k' = sym (text_lt-cons d c t s) ∙ k in
    let first : compare_ℕ (code c) (code d) ≡ Ordering.eq = ground arith in
    cc (codes_equal c d first, text_lt_total s t (ground arith) (ground arith))

-- Every text is after the first of two ordered texts or before the second.
pub text_lt_cotrans : (s t u : String) → text_lt s u ≡ true → (text_lt s t || text_lt t u) ≡ true
text_lt_cotrans s t u h = elim (Bool-cases (text_lt s t)) [
  | inl e ↦ rw e
  | inr e ↦ elim (Bool-cases (text_lt t s)) [
    | inl k ↦ rw (e, text_lt_trans t s u k h)
    | inr k ↦ rw (e, sym (ap (λ x. text_lt x u) (text_lt_total s t e k)) ∙ h)
  ]
]
