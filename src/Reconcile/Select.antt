-- ===== src/Reconcile/Select.antt =====
-- models/reconcile.py: the selection of one field's value from the reports that stand.
use far_away.Prelude.{
  ℕ, zero, suc, String, Bool, true, not, ◌&&◌, Option, none, some, List, [], ◌∷◌, str_eq, ◌==◌, ltb,
  if◌then◌else◌, length, any, filter,
}
use far_away.Core.Dict.{find}
use far_away.Core.TextOrder.{text_lt}
use far_away.Reconcile.Policy.{Numbers, authority_of, tolerance_of, fails_toward_caution}
use far_away.Reconcile.Observation.{Observation, is_retraction, retracted_fields}
use far_away.Reconcile.Ranking.{
  is_empty, Rule, by_authority, by_recency, by_corroboration, by_retraction, unresolved, has,
  is_some, Alternative, FieldSelection, Key, key_eq, ranked_by,
}

module _ (num : Numbers) where
  open num use {Value, Real, null, same_value, to_float, distance, at_most, below, rounded}

  abbrev Report : Type 0
  Report = Observation Value

  abbrev pub value_or_null : Option Value → Value
  value_or_null none = null
  value_or_null (some v) = v

  -- `o.payload[name]`, where the field is there
  unfoldable pub reported : String → Report → Value
  unfolding find
  reported name o = value_or_null (find name o.fields)

  abbrev pub delta_of : Option Real → Option Real → Option Real
  delta_of (some a) (some b) = some (distance a b)
  delta_of a b = none

  -- `_numeric_delta`
  unfoldable pub numeric_delta : Value → Value → Option Real
  numeric_delta a b = delta_of (to_float a) (to_float b)

  -- `_candidates`
  unfoldable pub candidates : List Report → String → List Report
  unfolding is_retraction find
  candidates observations name =
      filter (λ o. not (is_retraction o) && is_some (find name o.fields)) observations

  -- the test of `_withdrawn_sources`: the source has reported the field again later
  unfoldable pub reports_later : List Report → String → Report → Bool
  unfolding is_retraction find
  reports_later observations name obs =
      any
        (λ o.
          not (is_retraction o)
          && (str_eq o.source obs.source
              && (is_some (find name o.fields) && text_lt obs.observed_at o.observed_at)))
        observations

  unfoldable pub withdraws : List Report → String → Report → Bool
  unfolding is_retraction retracted_fields reports_later
  withdraws observations name obs =
      is_retraction obs
      && has name (retracted_fields obs)
      && not (reports_later observations name obs)

  abbrev pub sources : List Report → List String
  sources [] = []
  sources (o ∷ rest) = o.source ∷ sources rest

  -- `_withdrawn_sources`, a set
  unfoldable pub withdrawn_sources : List Report → String → List String
  unfolding withdraws
  withdrawn_sources observations name = sources (filter (withdraws observations name) observations)

  -- the test of `corroboration_for`
  unfoldable pub agrees : String → Report → Report → Bool
  unfolding numeric_delta reported tolerance_of
  agrees name obs other = elim (numeric_delta (reported name obs) (reported name other)) [
    | none ↦ same_value (reported name other) (reported name obs)
    | some delta ↦ at_most delta (tolerance_of num name)
  ]

  -- `len(set(xs))`
  unfoldable pub distinct : List String → ℕ
  distinct [] = 0
  distinct (x ∷ xs) = let n = distinct xs in if has x xs then n else suc n

  -- `corroboration_for`
  unfoldable pub corroboration_for : String → List Report → Report → ℕ
  unfolding agrees distinct
  corroboration_for name reports obs = distinct (sources (filter (agrees name obs) reports))

  -- The rank of a report among the reports that stand.
  unfoldable pub key_of : String → List Report → Report → Key
  unfolding authority_of corroboration_for
  key_of name reports o = record {
    authority = authority_of o.source name;
    observed_at = o.observed_at;
    corroboration = corroboration_for name reports o;
  }

  -- the loop of `max(..., key=float(value))`, with the position of the greatest so far; `none` where
  -- a value is no number
  unfoldable pub highest_from :
      String → (position : ℕ) → Option Real → (next : ℕ) → List Report → Option ℕ
  unfolding reported
  highest_from name position best next [] = some position
  highest_from name position best next (o ∷ rest) = elim (to_float (reported name o)) [
    | none ↦ none
    | some x ↦
        let higher : Bool = elim best [ none ↦ true | some b ↦ below b x ] in
        let best' : Option Real = if higher then some x else best in
        highest_from name (if higher then next else position) best' (suc next) rest
  ]

  abbrev or_zero : Option ℕ → ℕ
  or_zero none = 0
  or_zero (some n) = n

  abbrev pub insert_second : Report → List Report → List Report
  insert_second x [] = x ∷ []
  insert_second x (y ∷ ys) = y ∷ x ∷ ys

  -- `[xs[n]] + [x for x in xs if x is not xs[n]]`
  unfoldable pub to_front : ℕ → List Report → List Report
  to_front n [] = []
  to_front zero (x ∷ xs) = x ∷ xs
  to_front (suc n) (x ∷ xs) = insert_second x (to_front n xs)

  -- The deadlock branch of `_select`, for a field that fails toward caution. The tied reports are
  -- the first ones of the ranking, so a position among them is one in the ranking.
  unfoldable pub cautious : String → (key : Report → Key) → List Report → List Report
  unfolding key_eq highest_from to_front
  cautious name key [] = []
  cautious name key (top ∷ rest) =
      let tied = filter (λ o. key_eq (key o) (key top)) (top ∷ rest) in
      if fails_toward_caution name && ltb 1 (length tied)
      then to_front (or_zero (highest_from name 0 none 0 tied)) (top ∷ rest)
      else top ∷ rest

  -- which rule decided between the winner and the runner-up
  unfoldable pub deciding_rule : String → Key → Key → Report → Report → Rule
  unfolding reported
  deciding_rule name w r winner runner =
      if not (w.authority == r.authority)
      then by_authority
      else if not (str_eq w.observed_at r.observed_at)
      then by_recency
      else if not (w.corroboration == r.corroboration)
      then by_corroboration
      else if same_value (reported name winner) (reported name runner)
      then by_corroboration
      else unresolved

  abbrev rule_among : String → (key : Report → Key) → Report → List Report → Rule
  rule_among name key winner [] = by_authority
  rule_among name key winner (runner ∷ rest) =
      deciding_rule name (key winner) (key runner) winner runner

  abbrev pub rounded_delta : Option Real → Option Real
  rounded_delta none = none
  rounded_delta (some d) = some (rounded d)

  abbrev disagrees : String → Report → Report → Option Real → Bool
  disagrees name winner loser none = not (same_value (reported name loser) (reported name winner))
  disagrees name winner loser (some d) = below (tolerance_of num name) d

  unfoldable pub alternative : String → (winner loser : Report) → Alternative num
  unfolding reported numeric_delta tolerance_of
  alternative name winner loser =
      let delta = numeric_delta (reported name winner) (reported name loser) in
      record {
        value = reported name loser;
        source = loser.source;
        obs_id = loser.obs_id;
        observed_at = loser.observed_at;
        delta = rounded_delta delta;
        beyond_tolerance = disagrees name winner loser delta;
      }

  unfoldable pub alternatives_to : String → Report → List Report → List (Alternative num)
  unfolding alternative
  alternatives_to name winner [] = []
  alternatives_to name winner (o ∷ rest) =
      alternative name winner o ∷ alternatives_to name winner rest

  -- the selection behind the ranking
  unfoldable pub selection_of :
      String → (key : Report → Key) → List Report → Option (FieldSelection num)
  unfolding reported deciding_rule alternatives_to
  selection_of name key [] = none
  selection_of name key (winner ∷ rest) = some (record {
    field_name = name;
    value = reported name winner;
    source = winner.source;
    obs_id = winner.obs_id;
    observed_at = winner.observed_at;
    rule = rule_among name key winner rest;
    corroboration = (key winner).corroboration;
    alternatives = alternatives_to name winner rest;
  })

  -- `max(..., key=observed_at)`, over what follows the greatest so far
  unfoldable pub latest_from : Report → List Report → Report
  latest_from best [] = best
  latest_from best (o ∷ rest) =
      latest_from (if text_lt best.observed_at o.observed_at then o else best) rest

  abbrev pub retracted_selection : String → List Report → Option (FieldSelection num)
  unfolding latest_from
  retracted_selection name [] = none
  retracted_selection name (o ∷ rest) =
      let retraction = latest_from o rest in
      some (record {
        field_name = name;
        value = null;
        source = retraction.source;
        obs_id = retraction.obs_id;
        observed_at = retraction.observed_at;
        rule = by_retraction;
        corroboration = 0;
        alternatives = [];
      })

  abbrev pub retractions_of : List Report → String → List Report
  unfolding is_retraction retracted_fields
  retractions_of observations name =
      filter (λ o. is_retraction o && has name (retracted_fields o)) observations

  -- the reports that stand: candidates of sources that have not withdrawn the field
  unfoldable pub standing : List Report → String → List Report
  unfolding candidates withdrawn_sources
  standing observations name =
      let withdrawn = withdrawn_sources observations name in
      filter (λ o. not (has o.source withdrawn)) (candidates observations name)

  -- `_select`
  unfoldable pub select : List Report → String → Option (FieldSelection num)
  unfolding is_retraction retracted_fields latest_from
  select observations name =
      let reports = standing observations name in
      let key = key_of name reports in
      if not (is_empty reports)
      then selection_of name key (cautious name key (ranked_by key reports))
      else if not (is_empty (withdrawn_sources observations name))
      then retracted_selection name (retractions_of observations name)
      else none
