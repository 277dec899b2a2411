-- ===== src/Reconcile/Withdrawn.antt =====
-- models/reconcile.py: where a selected value comes from, with retractions.
use far_away.Prelude.{
  ℕ, zero, suc, String, ◌≡◌, refl, true, false, not, ◌&&◌, some, List, [], ◌∷◌, arith, if-ind,
  Bool-cases, length, filter, All, All-map, All-filter, All-members, inl, inr, ltb,
}
use mathlib.Core.List.{Memᴰ}
use mathlib.Core.Path.{subst}
use mathlib.Core.Option.{some_inj}
use mathlib.Core.Bool.{false≢true}
use far_away.Core.Dict.{find}
use far_away.Reconcile.Policy.{Numbers, fails_toward_caution}
use far_away.Reconcile.Observation.{Observation, is_retraction}
use far_away.Reconcile.Ranking.{
  is_empty, by_retraction, has, is_some, Alternative, FieldSelection, Key, key_lt, key_eq, place,
  ranked_by,
}
use far_away.Reconcile.Select.{
  reported, candidates, withdrawn_sources, standing, key_of, insert_second, to_front, cautious,
  selection_of, alternative, alternatives_to, latest_from, retracted_selection, retractions_of,
  select,
}

module _ {A : Type 0} (P : A → Type 0) where
  module _ (key : A → Key) where
    All-place : (x : A) (ys : List A) → P x → All P ys → All P (place key x ys)
    unfolding place
    All-place x [] p h = (p, tt)
    All-place x (y ∷ ys) p h =
        if-ind (All P) (key_lt (key x) (key y)) (λ e. (h.0, All-place x ys p h.1)) (λ e. (p, h))

    All-ranked_by : (xs : List A) → All P xs → All P (ranked_by key xs)
    unfolding ranked_by
    All-ranked_by [] h = tt
    All-ranked_by (x ∷ xs) h = All-place x (ranked_by key xs) h.0 (All-ranked_by xs h.1)

module _ (num : Numbers) where
  open num use {Value, Real, null}

  abbrev Report : Type 0
  Report = Observation Value

  module _ (P : Report → Type 0) where
    All-to_front : (n : ℕ) (xs : List Report) → All P xs → All P (to_front num n xs)
    unfolding to_front
    All-to_front n [] h = tt
    All-to_front zero (x ∷ xs) h = h
    All-to_front (suc n) (x ∷ xs) h =
        All-insert_second x (to_front num n xs) h.0 (All-to_front n xs h.1)
      where
        All-insert_second :
            (x : Report) (ys : List Report) → P x → All P ys → All P (insert_second num x ys)
        All-insert_second x [] p k = (p, tt)
        All-insert_second x (y ∷ ys) p k = (k.0, (p, k.1))

    All-cautious :
        (name : String) (key : Report → Key) (xs : List Report)
        → All P xs
        → All P (cautious num name key xs)
    unfolding cautious
    All-cautious name key [] h = tt
    All-cautious name key (top ∷ rest) h =
        if-ind (All P)
          (fails_toward_caution name
            && ltb 1 (length (filter (λ o. key_eq (key o) (key top)) (top ∷ rest))))
          (λ e. All-to_front _ (top ∷ rest) h) (λ e. h)

  -- A report that may speak for a field: one of the observations, no retraction, with the field in it
  -- and from a source that has not withdrawn it.
  pub record Stands (name : String) (observations : List Report) (o : Report) : Type 0 where
    pub observed : Memᴰ o observations
    pub no_retraction : is_retraction o ≡ false
    pub has_field : is_some (find name o.fields) ≡ true
    pub not_withdrawn : has o.source (withdrawn_sources num observations name) ≡ false

  -- The selection is the word of a standing report, and so is each of its alternatives; or its field is
  -- retracted: no value, no alternative.
  pub data IsSelected (name : String) (observations : List Report) (s : FieldSelection num)
      : Type 0 where
    chosen :
        (o : Report)
        → Stands name observations o
        → s.value ≡ reported num name o
        → s.source ≡ o.source
        → s.obs_id ≡ o.obs_id
        → All
            (λ (a : Alternative num).
              (o' : Report) × Stands name observations o'
              × (a.value ≡ reported num name o')
              × (a.source ≡ o'.source))
            s.alternatives
        → IsSelected name observations s
    withdrawn :
        standing num observations name ≡ []
        → is_empty (withdrawn_sources num observations name) ≡ false
        → s.value ≡ null
        → s.rule ≡ by_retraction
        → s.alternatives ≡ []
        → IsSelected name observations s

  standing-Stands :
      (name : String) (observations : List Report)
      → All (Stands name observations) (standing num observations name)
  unfolding standing candidates
  standing-Stands name observations =
      let named =
        All-filter (λ o. Memᴰ o observations)
          (λ o. not (is_retraction o) && is_some (find name o.fields)) observations
          (All-members observations) in
      All-map
        (λ o h. record {
          observed = h.0.0;
          no_retraction = ground (arith, h.0.1);
          has_field = ground (arith, h.0.1);
          not_withdrawn = ground (arith, h.1);
        })
        (standing num observations name)
        (All-filter
          (λ o.
            Memᴰ o observations × ((not (is_retraction o) && is_some (find name o.fields)) ≡ true))
          (λ o. not (has o.source (withdrawn_sources num observations name)))
          (candidates num observations name) named)

  alternatives_to-Stands :
      (name : String) (observations : List Report) (winner : Report) (losers : List Report)
      → All (Stands name observations) losers
      → All
          (λ (a : Alternative num).
            (o' : Report) × Stands name observations o'
            × (a.value ≡ reported num name o')
            × (a.source ≡ o'.source))
          (alternatives_to num name winner losers)
  unfolding alternatives_to alternative
  alternatives_to-Stands name observations winner [] h = tt
  alternatives_to-Stands name observations winner (o ∷ rest) h =
      ((o, h.0, refl, refl), alternatives_to-Stands name observations winner rest h.1)

  selection_of-IsSelected :
      (name : String) (observations : List Report) (key : Report → Key) (ranking : List Report)
      (s : FieldSelection num)
      → All (Stands name observations) ranking
      → selection_of num name key ranking ≡ some s
      → IsSelected name observations s
  unfolding selection_of
  selection_of-IsSelected name observations key [] s h e = cc
  selection_of-IsSelected name observations key (winner ∷ rest) s h e =
      subst (IsSelected name observations) (some_inj.0 e) (
        chosen winner h.0 refl refl refl (alternatives_to-Stands name observations winner rest h.1))

  empty-nil : (xs : List Report) → is_empty xs ≡ true → xs ≡ []
  empty-nil [] h = refl
  empty-nil (x ∷ xs) h = cc

  retracted-IsSelected :
      (name : String) (observations retractions : List Report) (s : FieldSelection num)
      → standing num observations name ≡ []
      → is_empty (withdrawn_sources num observations name) ≡ false
      → retracted_selection num name retractions ≡ some s
      → IsSelected name observations s
  unfolding latest_from
  retracted-IsSelected name observations [] s h w e = cc
  retracted-IsSelected name observations (o ∷ rest) s h w e =
      subst (IsSelected name observations) (some_inj.0 e) (withdrawn h w refl refl refl)

  -- If a field has a selection, then its value, source and report are those of one of the observations,
  -- which is no retraction, reports the field, and comes from a source that has not withdrawn the
  -- field; and each alternative's value and source are those of such a report too. Or no such report is
  -- left and a source has withdrawn the field: then the value is null under the rule for retractions,
  -- without alternatives.
  pub select-IsSelected :
      (observations : List Report) (name : String) (s : FieldSelection num)
      → select num observations name ≡ some s
      → IsSelected name observations s
  unfolding select
  select-IsSelected observations name s e =
      elim (Bool-cases (is_empty (standing num observations name))) [
        | inr f ↦
            selection_of-IsSelected name observations
              (key_of num name (standing num observations name))
              (cautious num name (key_of num name (standing num observations name)) (
                ranked_by (key_of num name (standing num observations name))
                  (standing num observations name)))
              s
              (All-cautious (Stands name observations) name _ _
                (All-ranked_by (Stands name observations) _ _ (standing-Stands name observations)))
              (ground (arith, e, f))
        | inl f ↦ elim (Bool-cases (is_empty (withdrawn_sources num observations name))) [
          | inr g ↦
              retracted-IsSelected name observations (retractions_of num observations name) s
                (empty-nil _ f) g (ground (arith, e, f, g))
          | inl g ↦ absurd (false≢true (ground (arith, e, f, g)))
        ]
      ]
