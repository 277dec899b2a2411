-- ===== src/Reconcile/Numbered.antt =====
-- models/reconcile.py: the shape of a history.
use far_away.Prelude.{
  ℕ, ◌+◌, String, ◌≡◌, refl, sym, ◌∙◌, Bool, true, false, List, [], ◌∷◌, ◌++◌, arith, length,
  length-append,
}
use mathlib.Core.Path.{subst}
use mathlib.Core.List.{append-nil, append_assoc}
use far_away.Reconcile.Policy.{Numbers}
use far_away.Reconcile.Observation.{Observation}
use far_away.Reconcile.History.{Change, minor, classify, diff}
use far_away.Reconcile.Fold.{CanonicalState, reconcile}
use far_away.Reconcile.Timeline.{
  Revision, late_correction, revisions_for, history_from, build_history,
}

module _ (num : Numbers) where
  open num use {Value, Real}

  -- A revision's classification is that of its changes and its recommendations, or it has no changes,
  -- and then it is a late correction and MINOR.
  pub data IsJustified (r : Revision num) : Type 0 where
    changed :
        r.classification ≡ classify num r.changes r.recommendation_before r.recommendation_after
        → IsJustified r
    corrected : r.changes ≡ [] → r.kind ≡ late_correction → r.classification ≡ minor → IsJustified r

  -- A revision for a report that brings about the changes from one recommendation to another.
  pub record IsFor (seq : ℕ) (obs : Observation Value) (changes : List (Change num))
      (before after : String) (r : Revision num) : Type 0 where
    pub numbered : r.seq ≡ seq
    pub caused : (r.causing_obs_id ≡ obs.obs_id) × (r.source ≡ obs.source)
    pub changes_are : r.changes ≡ changes
    pub recommends : (r.recommendation_before ≡ before) × (r.recommendation_after ≡ after)
    pub justified : IsJustified r

  -- What a report adds: nothing, only if it brings about no changes; or one revision for it.
  pub data Adds (seq : ℕ) (obs : Observation Value) (changes : List (Change num))
      (before after : String) : List (Revision num) → Type 0 where
    nothing : changes ≡ [] → Adds seq obs changes before after []
    one_revision :
        (r : Revision num)
        → IsFor seq obs changes before after r
        → Adds seq obs changes before after (r ∷ [])

  revisions_for-Adds :
      (seq : ℕ) (obs : Observation Value) (late : Bool) (changes : List (Change num))
      (before after : String)
      → Adds seq obs changes before after (revisions_for num seq obs late changes before after)
  unfolding revisions_for
  revisions_for-Adds seq obs false [] before after = nothing refl
  revisions_for-Adds seq obs true [] before after = one_revision _ (record {
    numbered = refl;
    caused = (refl, refl);
    changes_are = refl;
    recommends = (refl, refl);
    justified = corrected refl refl refl;
  })
  revisions_for-Adds seq obs late (c ∷ cs) before after = one_revision _ (record {
    numbered = refl;
    caused = (refl, refl);
    changes_are = refl;
    recommends = (refl, refl);
    justified = changed refl;
  })

  module _ (recommendation_for : Value → String × Real) (incident_id : String) where
    abbrev state_of : List (Observation Value) → CanonicalState num
    state_of arrived = reconcile num recommendation_for incident_id arrived

    -- The revisions from the number `seq` on are those of the reports, one after the other: each report
    -- adds what it brings about, from the state before it to the state with it.
    pub data Tells
        : ℕ
          → List (Observation Value)
          → CanonicalState num
          → List (Observation Value)
          → List (Revision num)
          → Type 0 where
      ended :
          (seq : ℕ) (arrived : List (Observation Value)) (previous : CanonicalState num)
          → Tells seq arrived previous [] []
      then_report :
          (seq : ℕ) (arrived : List (Observation Value)) (previous : CanonicalState num)
          (obs : Observation Value) (rest : List (Observation Value))
          (more later : List (Revision num))
          → Adds seq obs
              (diff num previous.fields (state_of (arrived ++ obs ∷ [])).fields)
              previous.recommendation
              (state_of (arrived ++ obs ∷ [])).recommendation
              more
          → Tells
              (seq + length more)
              (arrived ++ obs ∷ [])
              (state_of (arrived ++ obs ∷ []))
              rest
              later
          → Tells seq arrived previous (obs ∷ rest) (more ++ later)

    abbrev ToldFrom :
        List (Observation Value)
        → CanonicalState num
        → (before reports : List (Revision num)) → List (Observation Value)
        → Type 0
    ToldFrom arrived previous revisions all reports =
        (later : List (Revision num)) × (all ≡ revisions ++ later)
        × Tells (length revisions + 1) arrived previous reports later

    history_from-Tells :
        (arrived : List (Observation Value)) (previous : CanonicalState num) (newest_seen : String)
        (revisions : List (Revision num)) (reports : List (Observation Value))
        → ToldFrom arrived previous revisions
            (history_from num recommendation_for incident_id arrived previous newest_seen revisions
              reports)
            reports
    unfolding history_from
    history_from-Tells arrived previous newest_seen revisions [] =
        ([], sym (append-nil revisions), ended _ arrived previous)
    history_from-Tells arrived previous newest_seen revisions (obs ∷ rest) =
        let state = state_of (arrived ++ obs ∷ []) in
        let changes = diff num previous.fields state.fields in
        let more =
          revisions_for num (length revisions + 1) obs _ changes previous.recommendation
            state.recommendation in
        let (later, same, told) =
          history_from-Tells (arrived ++ obs ∷ []) state _ (revisions ++ more) rest in
        (
          more ++ later,
          same ∙ append_assoc revisions more later,
          then_report _ arrived previous obs rest more later
              (revisions_for-Adds _ obs _ changes previous.recommendation state.recommendation)
              (subst (λ n. Tells n (arrived ++ obs ∷ []) state rest later)
                {x = length (revisions ++ more) + 1} (omega (arith, length-append revisions more))
                told),
        )

    -- The state before any report.
    abbrev pub beginning : Real → CanonicalState num
    beginning zero_real = record {
      incident_id = incident_id;
      fields = [];
      recommendation = "NO_ACTIONABLE_WARNING";
      p_event = zero_real;
    }

    -- A history starts with no fields, and tells of each report in turn: with the changes from the
    -- fold of the reports before it to the fold with it, under the next number from 1 on, in one
    -- revision that names the report and carries the classification of its changes or is an
    -- unchanged late correction, classified MINOR; or in none, only if there are no changes.
    pub build_history-Tells :
        (zero_real : Real) (reports : List (Observation Value))
        → Tells 1 []
            (beginning zero_real)
            reports
            (build_history num recommendation_for incident_id zero_real reports)
    unfolding build_history
    build_history-Tells zero_real reports =
        let (later, same, told) = history_from-Tells [] (beginning zero_real) "" [] reports in
        subst (λ rs. Tells 1 [] (beginning zero_real) reports rs) (sym same) told
