-- ===== src/Audit/Lines.antt =====
-- What the readers of a log file make of lines with and without a broken one at the end.
use far_away.Prelude.{
  ℕ, suc, String, ◌≡◌, refl, ap, sym, ◌∙◌, none, some, List, [], ◌∷◌, ◌++◌, ◌⊎◌, inl, inr,
}
use mathlib.Core.Bool.{false≢true}
use far_away.Audit.Log.{
  Codec, Line, blank, broken, no_object, entry, Receipt, genesis, walk, parsed, walked, tip_from,
  keep, torn_from, spoil_last,
}
use far_away.Audit.Chain.{intact}
use far_away.Audit.Tamper.{walk_first}

module _ (c : Codec) where
  open c use {Body, canonical, reload}

  -- Lines without a broken one and without one that is no object.
  abbrev pub IsClean : List (Line c) → Type 0
  IsClean [] = Unit
  IsClean (blank ∷ rest) = IsClean rest
  IsClean (broken ∷ rest) = ⊥
  IsClean (no_object ∷ rest) = ⊥
  IsClean (entry b p s ∷ rest) = IsClean rest

  -- The tip of the lines of a chain that holds is its head.
  tip-walk :
      (i n m : ℕ) (prev head : String) (rs : List (Line c))
      → walk c i n prev rs ≡ intact c m head
      → tip_from c prev rs ≡ some head
  unfolding walk tip_from
  tip-walk i n m prev head [] h = ap (λ (r : Receipt c). some (r.head_hash)) h
  tip-walk i n m prev head (entry b (some p) (some s) ∷ rest) h =
      tip-walk (suc i) (suc n) m s head rest (walk_first c i n m prev head p s b rest h).1
  tip-walk i n m prev head (line ∷ rest) h = cc

  IsClean-walk :
      (i n m : ℕ) (prev head : String) (rs : List (Line c))
      → walk c i n prev rs ≡ intact c m head
      → IsClean rs
  unfolding walk
  IsClean-walk i n m prev head [] h = tt
  IsClean-walk i n m prev head (entry b (some p) (some s) ∷ rest) h =
      IsClean-walk (suc i) (suc n) m s head rest (walk_first c i n m prev head p s b rest h).1
  IsClean-walk i n m prev head (line ∷ rest) h =
      absurd (false≢true (ap (λ (r : Receipt c). r.valid) h))

  -- What parsing a file with no broken line leaves: the same tip, and lines as clean as its own.
  record Parses (xs rs : List (Line c)) : Type 0 where
    tips : (tip : String) → tip_from c tip xs ≡ tip_from c tip rs
    clean : IsClean rs → IsClean xs

  parsed-Parses :
      (xs : List (Line c))
      → (parsed c xs ≡ none) ⊎ ((rs : List (Line c)) × (parsed c xs ≡ some rs) × Parses xs rs)
  unfolding parsed tip_from
  parsed-Parses [] = inr ([], refl, record { tips = λ tip. refl; clean = λ h. h })
  parsed-Parses (blank ∷ xs) = elim (parsed-Parses xs) [
    | inl e ↦ inl e
    | inr t ↦ inr (t.0, t.1, record { tips = t.2.tips; clean = t.2.clean })
  ]
  parsed-Parses (broken ∷ xs) = inl refl
  parsed-Parses (no_object ∷ xs) = elim (parsed-Parses xs) [
    | inl e ↦ inl (rw e)
    | inr t ↦ inr (no_object ∷ t.0, rw (t.1), record { tips = λ tip. refl; clean = λ h. h })
  ]
  parsed-Parses (entry b p s ∷ xs) = elim (parsed-Parses xs) [
    | inl e ↦ inl (rw e)
    | inr t ↦
        inr (entry b p s ∷ t.0, rw (t.1), record { tips = λ tip. t.2.tips _; clean = t.2.clean })
  ]

  module _ (n : ℕ) (head : String) where
    -- Lines whose chain holds: their tip is the head, and none of them is broken.
    pub record IsIntact (xs : List (Line c)) : Type 0 where
      pub holds : walked c (parsed c xs) ≡ intact c n head
      pub tip : tip_from c genesis xs ≡ some head
      pub clean : IsClean xs

    pub intact_lines : (xs : List (Line c)) → walked c (parsed c xs) ≡ intact c n head → IsIntact xs
    intact_lines xs h = elim (parsed-Parses xs) [
      | inl e ↦ absurd (false≢true (ap (λ (r : Receipt c). r.valid) (sym (ap (walked c) e) ∙ h)))
      | inr t ↦
          let w = sym (ap (walked c) t.1) ∙ h in
          record {
            holds = h;
            tip = t.2.tips genesis ∙ tip-walk 1 0 n genesis head t.0 w;
            clean = t.2.clean (IsClean-walk 1 0 n genesis head t.0 w);
          }
    ]

  pub tip_from-torn :
      (xs : List (Line c)) (tip : String)
      → IsClean xs
      → tip_from c tip (xs ++ broken ∷ []) ≡ tip_from c tip xs
  unfolding tip_from
  tip_from-torn [] tip h = refl
  tip_from-torn (blank ∷ xs) tip h = tip_from-torn xs tip h
  tip_from-torn (broken ∷ xs) tip h = absurd h
  tip_from-torn (no_object ∷ xs) tip h = absurd h
  tip_from-torn (entry b p s ∷ xs) tip h = tip_from-torn xs _ h

  pub keep-torn : (xs : List (Line c)) → IsClean xs → keep c (xs ++ broken ∷ []) ≡ keep c xs
  unfolding keep
  keep-torn [] h = refl
  keep-torn (blank ∷ xs) h = keep-torn xs h
  keep-torn (broken ∷ xs) h = absurd h
  keep-torn (no_object ∷ xs) h = absurd h
  keep-torn (entry b p s ∷ xs) h = ap (λ r. entry b p s ∷ r) (keep-torn xs h)

  pub torn_from-torn : (xs : List (Line c)) → IsClean xs → torn_from c 0 (xs ++ broken ∷ []) ≡ 1
  unfolding torn_from
  torn_from-torn [] h = refl
  torn_from-torn (blank ∷ xs) h = torn_from-torn xs h
  torn_from-torn (broken ∷ xs) h = absurd h
  torn_from-torn (no_object ∷ xs) h = absurd h
  torn_from-torn (entry b p s ∷ xs) h = torn_from-torn xs h

  pub parsed-torn : (xs : List (Line c)) → IsClean xs → parsed c (xs ++ broken ∷ []) ≡ none
  unfolding parsed
  parsed-torn [] h = refl
  parsed-torn (blank ∷ xs) h = parsed-torn xs h
  parsed-torn (broken ∷ xs) h = absurd h
  parsed-torn (no_object ∷ xs) h = absurd h
  parsed-torn (entry b p s ∷ xs) h = rw (parsed-torn xs h)

  -- Keeping the lines of a clean file drops blank ones only.
  pub parsed-keep : (xs : List (Line c)) → IsClean xs → parsed c (keep c xs) ≡ parsed c xs
  unfolding parsed keep
  parsed-keep [] h = refl
  parsed-keep (blank ∷ xs) h = parsed-keep xs h
  parsed-keep (broken ∷ xs) h = absurd h
  parsed-keep (no_object ∷ xs) h = absurd h
  parsed-keep (entry b p s ∷ xs) h = rw (parsed-keep xs h)

  pub tip_from-keep :
      (xs : List (Line c)) (tip : String)
      → IsClean xs
      → tip_from c tip (keep c xs) ≡ tip_from c tip xs
  unfolding tip_from keep
  tip_from-keep [] tip h = refl
  tip_from-keep (blank ∷ xs) tip h = tip_from-keep xs tip h
  tip_from-keep (broken ∷ xs) tip h = absurd h
  tip_from-keep (no_object ∷ xs) tip h = absurd h
  tip_from-keep (entry b p s ∷ xs) tip h = tip_from-keep xs _ h

  pub spoil_last-torn : (xs : List (Line c)) → spoil_last c (xs ++ broken ∷ []) ≡ xs ++ broken ∷ []
  unfolding spoil_last
  spoil_last-torn [] = refl
  spoil_last-torn (x ∷ []) = refl
  spoil_last-torn (x ∷ y ∷ xs) = ap (λ r. x ∷ r) (spoil_last-torn (y ∷ xs))
