-- ===== src/Reconcile/Timeline.antt =====
-- models/reconcile.py: the history, a revision at most for each report that arrives.
use far_away.Prelude.{
  ℕ, ◌+◌, String, Bool, true, false, not, ◌&&◌, List, [], ◌∷◌, ◌++◌, str_eq, if◌then◌else◌, length,
  any, filter,
}
use far_away.Core.TextOrder.{text_lt}
use far_away.Reconcile.Policy.{Numbers}
use far_away.Reconcile.Observation.{Observation, is_retraction}
use far_away.Reconcile.Ranking.{is_empty}
use far_away.Reconcile.Fold.{CanonicalState, reconcile}
use far_away.Reconcile.History.{Classification, meaningful, minor, Change, classify, diff}

-- A revision's `kind`
pub data Kind : Type 0 where
  update late_correction withdrawal conflict : Kind

module _ (num : Numbers) where
  open num use {Value, Real}

  abbrev Report : Type 0
  Report = Observation Value

  -- `Revision`, without its reason
  pub record Revision : Type 0 where
    pub seq : ℕ
    pub at : String
    pub causing_obs_id : String
    pub source : String
    pub kind : Kind
    pub changes : List (Change num)
    pub classification : Classification
    pub recommendation_before : String
    pub recommendation_after : String

  -- the `kind` of a revision
  unfoldable pub kind_of : Report → (out_of_order : Bool) → List (Change num) → Kind
  unfolding is_retraction
  kind_of obs out_of_order changes =
      if is_retraction obs
      then withdrawal
      else if out_of_order
      then late_correction
      else if any (λ c. c.contested) changes
      then conflict
      else update

  abbrev non_event : Bool → ℕ → Report → (rec_before rec_after : String) → List Revision
  non_event false seq obs rec_before rec_after = []
  non_event true seq obs rec_before rec_after =
      record {
        seq = seq;
        at = obs.received_at;
        causing_obs_id = obs.obs_id;
        source = obs.source;
        kind = late_correction;
        changes = [];
        classification = minor;
        recommendation_before = rec_before;
        recommendation_after = rec_after;
      }
      ∷ []

  -- what one arrival adds to the history: a revision, or nothing
  unfoldable pub revisions_for :
      ℕ
      → Report
      → Bool
      → (changes : List (Change num)) → (rec_before rec_after : String) → List Revision
  unfolding classify kind_of
  revisions_for seq obs out_of_order [] rec_before rec_after =
      non_event out_of_order seq obs rec_before rec_after
  revisions_for seq obs out_of_order (c ∷ cs) rec_before rec_after =
      record {
        seq = seq;
        at = obs.received_at;
        causing_obs_id = obs.obs_id;
        source = obs.source;
        kind = kind_of obs out_of_order (c ∷ cs);
        changes = c ∷ cs;
        classification = classify num (c ∷ cs) rec_before rec_after;
        recommendation_before = rec_before;
        recommendation_after = rec_after;
      }
      ∷ []

  module _ (recommendation_for : Value → String × Real) (incident_id : String) where
    -- the loop of `build_history`, with the reports that have arrived
    unfoldable pub history_from :
        (arrived : List Report) (previous : CanonicalState num) (newest_seen : String)
        → (revisions : List Revision) → List Report
        → List Revision
    unfolding diff revisions_for reconcile
    history_from arrived previous newest_seen revisions [] = revisions
    history_from arrived previous newest_seen revisions (obs ∷ rest) =
        let out_of_order = not (str_eq newest_seen "") && text_lt obs.observed_at newest_seen in
        let newest = if text_lt newest_seen obs.observed_at then obs.observed_at else newest_seen in
        let current = reconcile num recommendation_for incident_id (arrived ++ obs ∷ []) in
        let changes = diff num previous.fields current.fields in
        let more =
          revisions_for (length revisions + 1) obs out_of_order changes previous.recommendation
            current.recommendation in
        history_from (arrived ++ obs ∷ []) current newest (revisions ++ more) rest

    -- `build_history`; `zero_real` is 0.0
    unfoldable pub build_history : (zero_real : Real) → List Report → List Revision
    unfolding history_from
    build_history zero_real observations =
        history_from []
          (record {
            incident_id = incident_id;
            fields = [];
            recommendation = "NO_ACTIONABLE_WARNING";
            p_event = zero_real;
          })
          "" [] observations

  abbrev is_meaningful : Revision → Bool
  is_meaningful r = elim r.classification [ meaningful ↦ true | minor ↦ false ]

  -- `counts`, without the tally by kind
  pub record Totals : Type 0 where
    pub total : ℕ
    pub meaningful : ℕ
    pub minor : ℕ
    pub no_op : ℕ

  unfoldable pub counts : List Revision → Totals
  counts revisions = record {
    total = length revisions;
    meaningful = length (filter is_meaningful revisions);
    minor = length (filter (λ r. not (is_meaningful r)) revisions);
    no_op = length (filter (λ r. is_empty r.changes) revisions);
  }
