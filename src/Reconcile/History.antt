-- ===== src/Reconcile/History.antt =====
-- models/reconcile.py: the difference of two canonical states, and its classification. The sentences
-- that explain a classification are not modelled.
use far_away.Prelude.{
  String, Bool, true, false, not, ◌&&◌, ◌||◌, Option, none, some, List, [], ◌∷◌, ◌++◌, str_eq, ◌==◌,
  if◌then◌else◌, length, any, filter,
}
use far_away.Core.Dict.{Dict, find}
use far_away.Core.TextOrder.{text_lt}
use far_away.Reconcile.Policy.{Numbers, tolerance_of, crossed_threshold, is_capstone}
use far_away.Reconcile.Observation.{Observation, keys}
use far_away.Reconcile.Ranking.{
  is_empty, Rule, by_authority, by_recency, by_corroboration, by_retraction, unresolved, has,
  is_some, Alternative, FieldSelection, contested,
}
use far_away.Reconcile.Select.{numeric_delta}
use far_away.Reconcile.Fold.{sorted_names}

-- `MEANINGFUL` and `MINOR`
pub data Classification : Type 0 where
  meaningful minor : Classification

-- A change's `kind`: "dissent", "value" or `RULE_RETRACTED`.
pub data ChangeKind : Type 0 where
  dissent value_change retraction : ChangeKind

abbrev pub is_unresolved : Rule → Bool
is_unresolved unresolved = true
is_unresolved other = false

abbrev pub is_retraction_kind : ChangeKind → Bool
is_retraction_kind retraction = true
is_retraction_kind other = false

abbrev pub same_rule : Rule → Rule → Bool
same_rule by_authority by_authority = true
same_rule by_recency by_recency = true
same_rule by_corroboration by_corroboration = true
same_rule by_retraction by_retraction = true
same_rule unresolved unresolved = true
same_rule a b = false

-- `for x in xs: if test(x): return MEANINGFUL`, and what follows the loop
abbrev pub meaningful_if : Bool → Classification → Classification
meaningful_if true rest = meaningful
meaningful_if false rest = rest

module _ (num : Numbers) where
  open num use {Value, Real, null, is_null, same_value, shown, below}

  abbrev Report : Type 0
  Report = Observation Value

  abbrev Selection : Type 0
  Selection = FieldSelection num

  -- A row of `_diff`.
  pub record Change : Type 0 where
    pub field : String
    pub before : Value
    pub after : Value
    pub rule : Rule
    pub kind : ChangeKind
    pub contested : Bool

  -- a value where there was none
  abbrev pub establishes : Change → Bool
  establishes c = is_null c.before && not (is_null c.after)

  -- the change crosses a dispatch threshold
  unfoldable pub crosses : Change → Bool
  unfolding crossed_threshold
  crosses c = is_some (crossed_threshold num c.field c.before c.after)

  abbrev delta_beyond : Option Real → Real → Bool
  delta_beyond none tolerance = false
  delta_beyond (some delta) tolerance = below tolerance delta

  -- the change exceeds its field's tolerance
  unfoldable pub moves_beyond : Change → Bool
  unfolding numeric_delta tolerance_of
  moves_beyond c = delta_beyond (numeric_delta num c.before c.after) (tolerance_of num c.field)

  -- `classify`, in the order of its returns; the last three returns are all MINOR
  unfoldable pub classify : List Change → (rec_before rec_after : String) → Classification
  unfolding crosses moves_beyond is_capstone
  classify changes rec_before rec_after = meaningful_if (any (λ c. is_unresolved c.rule) changes) (
      meaningful_if
        (any establishes changes && length (filter establishes changes) == length changes)
        (meaningful_if (not (str_eq rec_before rec_after) && is_capstone rec_after) (
          meaningful_if (any (λ c. is_retraction_kind c.kind || crosses c) changes)
            (meaningful_if (any moves_beyond changes) minor))))

  -- A flagged alternative, as `_dissent_fingerprint` lists it.
  abbrev flag_of : Alternative num → String × String
  flag_of a = (a.source, shown a.value)

  abbrev same_flag : String × String → String × String → Bool
  same_flag (a, b) (c, d) = str_eq a c && str_eq b d

  abbrev flag_lt : String × String → String × String → Bool
  flag_lt (a, b) (c, d) = text_lt a c || (str_eq a c && text_lt b d)

  unfoldable pub place_flag : String × String → List (String × String) → List (String × String)
  place_flag x [] = x ∷ []
  place_flag x (y ∷ ys) = let rest = place_flag x ys in if flag_lt y x then y ∷ rest else x ∷ y ∷ ys

  unfoldable pub flags_of : List (Alternative num) → List (String × String)
  unfolding place_flag
  flags_of [] = []
  flags_of (a ∷ rest) =
      let flags = flags_of rest in
      if a.beyond_tolerance then place_flag (flag_of a) flags else flags

  -- `_dissent_fingerprint`
  unfoldable pub dissent_fingerprint : Option Selection → List (String × String)
  unfolding flags_of
  dissent_fingerprint none = []
  dissent_fingerprint (some s) = flags_of s.alternatives

  unfoldable pub same_flags : List (String × String) → List (String × String) → Bool
  same_flags [] [] = true
  same_flags (x ∷ xs) (y ∷ ys) = same_flag x y && same_flags xs ys
  same_flags xs ys = false

  -- `new_flags`
  unfoldable pub new_flags :
      List (String × String) → List (Alternative num) → List (Alternative num)
  new_flags old alternatives =
      filter (λ a. a.beyond_tolerance && not (any (same_flag (flag_of a)) old)) alternatives

  abbrev dissent_row : String → Selection → Change
  dissent_row name a = record {
    field = name;
    before = a.value;
    after = a.value;
    rule = a.rule;
    kind = dissent;
    contested = true;
  }

  -- the branch of `_diff` where value and rule are the same
  unfoldable pub dissent_rows : String → (before after : Option Selection) → List Change
  unfolding same_flags dissent_fingerprint new_flags
  dissent_rows name before none = []
  dissent_rows name before (some a) =
      if not (same_flags (dissent_fingerprint before) (dissent_fingerprint (some a)))
        && not (is_empty (new_flags (dissent_fingerprint before) a.alternatives))
      then dissent_row name a ∷ []
      else []

  abbrev value_in : Option Selection → Value
  value_in none = null
  value_in (some s) = s.value

  abbrev same_rules : Option Selection → Option Selection → Bool
  same_rules none none = true
  same_rules (some a) (some b) = same_rule a.rule b.rule
  same_rules a b = false

  abbrev value_row : String → Option Selection → Option Selection → Change
  unfolding contested
  value_row name before none = record {
    field = name;
    before = value_in before;
    after = null;
    rule = by_retraction;
    kind = value_change;
    contested = false;
  }
  value_row name before (some a) = record {
    field = name;
    before = value_in before;
    after = a.value;
    rule = a.rule;
    kind = if same_rule a.rule by_retraction then retraction else value_change;
    contested = contested a;
  }

  -- the rows of one name in `_diff`
  unfoldable pub rows : String → (before after : Option Selection) → List Change
  unfolding dissent_rows contested
  rows name before after =
      if same_value (value_in before) (value_in after) && same_rules after before
      then dissent_rows name before after
      else value_row name before after ∷ []

  unfoldable pub rows_of : Dict Selection → Dict Selection → List String → List Change
  unfolding rows find
  rows_of before after [] = []
  rows_of before after (name ∷ names) =
      rows name (find name before) (find name after) ++ rows_of before after names

  abbrev union : List String → List String → List String
  union xs ys = xs ++ filter (λ y. not (has y xs)) ys

  -- `_diff`
  unfoldable pub diff : (before after : Dict Selection) → List Change
  unfolding rows_of sorted_names
  diff before after = rows_of before after (sorted_names num (union (keys before) (keys after)))
