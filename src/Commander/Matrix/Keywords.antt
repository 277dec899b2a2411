-- ===== src/Commander/Matrix/Keywords.antt =====
-- What `_infer_trigger` makes of an order's scale and of its words.
use far_away.Prelude.{
  ℕ, String, ◌≡◌, refl, ◌∙◌, Bool, true, false, ◌&&◌, ◌||◌, ◌⊎◌, inl, inr, Option, none, some, List,
  [], ◌∷◌, arith, any, All,
}
use far_away.Prelude.Int.{ℤ, lt_int}
use far_away.Core.Value.{Value, null, Fields, get_or, or_value, codes}
use far_away.Core.Text.{lower, occurs_in}
use far_away.Core.Contracts.{EscalationTrigger, is_human_only, mass_evacuation}
use far_away.Commander.Autonomy.{build_matrix, mass_evacuation_threshold}
use far_away.Commander.Matrix.{
  classify, coerce_trigger, scale_of, words, haystack_of, block_trigger, infer_trigger,
  is_mass_evacuation, keyword_match, keyword_triggers, mentions,
}
use far_away.Commander.Matrix.Rules.{human_only_of, Decides, classify-Decides}

abbrev Row : Type 0
Row = EscalationTrigger × List String

-- A row of a human-only trigger that the text mentions.
abbrev pub hits_human_only : List ℕ → Row → Bool
unfolding is_human_only occurs_in
hits_human_only haystack row = is_human_only row.0 && mentions haystack row.1

-- The rows of human-only triggers stand before the others.
abbrev HumanFirst : List Row → Type 0
unfolding is_human_only
HumanFirst [] = Unit
HumanFirst (row ∷ rest) =
    ((is_human_only row.0 ≡ true) × HumanFirst rest)
    ⊎ All (λ (r : Row). is_human_only r.0 ≡ false) (row ∷ rest)

module _ (haystack : List ℕ) where
  none_human :
      (rows : List Row)
      → All (λ (r : Row). is_human_only r.0 ≡ false) rows
      → (human_only_of (keyword_match haystack rows) ≡ false)
        × (any (hits_human_only haystack) rows ≡ false)
  unfolding keyword_match is_human_only occurs_in
  none_human [] h = (refl, refl)
  none_human ((t, keywords) ∷ rest) h = ground (arith, none_human rest h.1)

  match-HumanFirst :
      (rows : List Row)
      → HumanFirst rows
      → human_only_of (keyword_match haystack rows) ≡ any (hits_human_only haystack) rows
  unfolding keyword_match is_human_only occurs_in
  match-HumanFirst [] h = refl
  match-HumanFirst ((t, keywords) ∷ rest) (inl h) = ground (arith, match-HumanFirst rest h.1)
  match-HumanFirst (row ∷ rest) (inr h) = ground (arith, none_human (row ∷ rest) h)

keyword_triggers-HumanFirst : HumanFirst keyword_triggers
unfolding keyword_triggers is_human_only
keyword_triggers-HumanFirst =
    inl (refl, inl (refl, inl (refl, inl (refl, inr (refl, (refl, (refl, (refl, tt))))))))

second_test : (b : Bool) → ((b && true) || (true && true)) ≡ true
second_test b = ground arith

module _ (render : Value → String) (order : Fields) (escalation : Option Fields)
    (default_timeout : ℕ) (no_block : block_trigger render escalation ≡ none)
    (no_trigger : coerce_trigger render
        (or_value (get_or "escalation_trigger" null order) (get_or "trigger" null order))
      ≡ none) where
  infer-small :
      is_mass_evacuation render order ≡ false
      → infer_trigger render order ≡ keyword_match (haystack_of render order) keyword_triggers
  unfolding infer_trigger
  infer-small small = rw (no_trigger, small)

  -- With no trigger declared by the payload's block or the order, and no mass evacuation, an order
  -- is human-only exactly when its words mention a keyword of a human-only trigger.
  pub classify_by_keywords :
      is_mass_evacuation render order ≡ false
      → (classify render order (build_matrix default_timeout) default_timeout escalation).human_only
        ≡ any (hits_human_only (haystack_of render order)) keyword_triggers
  classify_by_keywords small =
      (classify-Decides render order default_timeout escalation).human_only
      ∙ rw (no_block, infer-small small)
          (match-HumanFirst (haystack_of render order) keyword_triggers keyword_triggers-HumanFirst)

  is_mass :
      {n : ℤ}
      → scale_of render order ≡ some n
      → lt_int mass_evacuation_threshold n ≡ true
      → occurs_in (codes "evac") (lower (words render "reason" order)) ≡ true
      → is_mass_evacuation render order ≡ true
  unfolding is_mass_evacuation
  is_mass scale large evac = rw (scale, large, evac) (second_test _)

  infer-mass :
      is_mass_evacuation render order ≡ true → infer_trigger render order ≡ some mass_evacuation
  unfolding infer_trigger
  infer-mass large = rw (no_trigger, large)

  -- A reason that mentions "evac", with a scale over the threshold, makes a mass evacuation of an
  -- order that declares no trigger: it needs a human, and is not human-only whatever else it says.
  pub classify_mass_evacuation :
      {n : ℤ}
      → scale_of render order ≡ some n
      → lt_int mass_evacuation_threshold n ≡ true
      → occurs_in (codes "evac") (lower (words render "reason" order)) ≡ true
      → Decides
          (some mass_evacuation)
          default_timeout
          (classify render order (build_matrix default_timeout) default_timeout escalation)
  classify_mass_evacuation scale large evac =
      let d = classify-Decides render order default_timeout escalation in
      rw (no_block, infer-mass (is_mass scale large evac)) at d
