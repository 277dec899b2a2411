-- ===== src/Reconcile/Ranking.antt =====
-- models/reconcile.py: the records of a selection, and the ranking of reports.
use far_away.Prelude.{
  ℕ, String, Bool, true, false, ◌&&◌, ◌||◌, Option, none, some, List, [], ◌∷◌, str_eq, ◌==◌, ltb,
  if◌then◌else◌, any,
}
use far_away.Core.TextOrder.{text_lt}
use far_away.Reconcile.Policy.{Numbers}

-- The rules by which a value is selected: `RULE_AUTHORITY` and its siblings.
pub data Rule : Type 0 where
  by_authority by_recency by_corroboration by_retraction unresolved : Rule

-- `name in names`
abbrev pub has : String → List String → Bool
has name = any (λ k. str_eq k name)

abbrev pub is_some {ℓ} : {A : Type ℓ} → Option A → Bool
is_some none = false
is_some (some a) = true

abbrev pub is_empty {ℓ} : {A : Type ℓ} → List A → Bool
is_empty [] = true
is_empty (x ∷ xs) = false

-- `Alternative`
pub record Alternative (num : Numbers) : Type 0 where
  pub value : num.Value
  pub source : String
  pub obs_id : String
  pub observed_at : String
  pub delta : Option (num.Real)
  pub beyond_tolerance : Bool

-- `FieldSelection`, without the sentence that explains its rule
pub record FieldSelection (num : Numbers) : Type 0 where
  pub field_name : String
  pub value : num.Value
  pub source : String
  pub obs_id : String
  pub observed_at : String
  pub rule : Rule
  pub corroboration : ℕ
  pub alternatives : List (Alternative num)

-- `FieldSelection.contested`
unfoldable pub contested : {num : Numbers} → FieldSelection num → Bool
contested s = any (λ a. a.beyond_tolerance) s.alternatives

-- The key of `sorted` in `_select`: authority, time of observation, corroboration.
pub record Key : Type 0 where
  pub authority : ℕ
  pub observed_at : String
  pub corroboration : ℕ

-- `k < l` on the key's tuples
unfoldable pub key_lt : Key → Key → Bool
key_lt k l =
    ltb k.authority l.authority
    || (k.authority == l.authority
        && (text_lt k.observed_at l.observed_at
            || (str_eq k.observed_at l.observed_at && ltb k.corroboration l.corroboration)))

-- `k == l` on the key's tuples
unfoldable pub key_eq : Key → Key → Bool
key_eq k l =
    k.authority == l.authority
    && (str_eq k.observed_at l.observed_at && k.corroboration == l.corroboration)

module _ {A : Type 0} (key : A → Key) where
  unfoldable pub place : A → List A → List A
  unfolding key_lt
  place x [] = x ∷ []
  place x (y ∷ ys) =
      let rest = place x ys in if key_lt (key x) (key y) then y ∷ rest else x ∷ y ∷ ys

  -- `sorted(xs, key=key, reverse=True)`, which keeps the order of equal keys
  unfoldable pub ranked_by : List A → List A
  unfolding place
  ranked_by [] = []
  ranked_by (x ∷ xs) = place x (ranked_by xs)
