-- ===== src/Field/Choices.antt =====
-- tier2/field/agent.py: which team `_select_team` takes, when it takes none and when it raises.
use far_away.Prelude.{
  String, ◌≡◌, refl, sym, ap, length, ◌⊎◌, inl, inr, Bool, true, false, not, ◌&&◌, ◌||◌, Option,
  none, some, List, [], ◌∷◌, str_eq, if◌then◌else◌, any, All, All-filter, arith, if-ind,
  Option-cases,
}
use mathlib.Core.Path.{subst}
use far_away.Prelude.Int.{ℤ, pos, lt_int}
use far_away.Core.Value.{Value, null, text, list, dict, nil, item, end, field, Fields, get_or}
use far_away.Core.Dict.{Dict}
use far_away.Core.TextOrder.{text_lt}
use far_away.Federation.Model.{AssetType}
use far_away.Field.Model.{Outside, FieldTeam, Coordinator, int_at, coerce_asset_type}
use far_away.Field.Teams.{
  Choice, raised, nobody, chosen, Named, unhashable, unnamed, named, is_in, same_type, is_busy,
  priority_of, first_of, named_team, candidate_teams, free_teams, nearest_from, nearest,
  order_location, or_choice, select_other, select_team,
}

Named-cases : (n : Named) → (n ≡ unhashable) ⊎ ((n ≡ unnamed) ⊎ ((t : String) × (n ≡ named t)))
Named-cases unhashable = inl refl
Named-cases unnamed = inr (inl refl)
Named-cases (named t) = inr (inr (t, refl))

fits :
    (taken is busy same : Bool)
    → (not taken && (if is then busy else not busy) && same) ≡ true
    → (taken ≡ false) × (is ≡ busy)
fits taken is busy same e = (ground arith, ground arith)

module _ (P : String → Type 0) where
  first_of-All : (best : String) (ts : List String) → P best → All P ts → P (first_of best ts)
  unfolding first_of
  first_of-All best [] p ps = p
  first_of-All best (t ∷ ts) p ps =
      first_of-All (if text_lt t best then t else best) ts
        (if-ind P (text_lt t best) (λ _. ps.0) (λ _. p)) ps.1

module _ (out : Outside) (s : Coordinator (Outside.Place out)) where
  abbrev State : Type 0
  State = Coordinator (Outside.Place out)

  nearest_from-All :
      (P : String → Type 0) (target : Outside.Place out) (ts : List String) (best : String)
      → P best
      → All P ts
      → P (nearest_from out target s best ts)
  unfolding nearest_from
  nearest_from-All P target [] best p ps = p
  nearest_from-All P target (t ∷ ts) best p ps =
      nearest_from-All P target ts _ (if-ind P _ (λ _. ps.0) (λ _. p)) ps.1

  -- A member of a list has what all its members have, if the choice falls on one.
  or_choice-nearest :
      (P : String → Type 0) (Q : Choice → Type 0) (target : Option (Outside.Place out))
      (ts : List String) (c : Choice)
      → All P ts
      → ((t : String) → P t → Q (chosen t))
      → (ts ≡ [] → Q c)
      → Q (or_choice out ts (nearest out ts target s) c)
  unfolding nearest
  or_choice-nearest P Q target [] c ps f g = g refl
  or_choice-nearest P Q none (t ∷ ts) c ps f g = f (first_of t ts) (first_of-All P t ts ps.0 ps.1)
  or_choice-nearest P Q (some target) (t ∷ ts) c ps f g =
      f (nearest_from out target s t ts) (nearest_from-All P target ts t ps.0 ps.1)

  nearest-or_choice :
      (ts : List String) (target : Option (Outside.Place out))
      → or_choice out ts (nearest out ts target s) nobody ≡ nearest out ts target s
  unfolding nearest
  nearest-or_choice [] target = refl
  nearest-or_choice (t ∷ ts) target = refl

  module _ (d : Fields) (assigned : List String) where
    abbrev IsNew : String → Type 0
    IsNew t = any (str_eq t) assigned ≡ false

    candidate_teams-All :
        (wanted : AssetType) (busy : Bool) (teams : Dict (FieldTeam (Outside.Place out)))
        → All (λ t. IsNew t × (is_busy t s ≡ busy)) (candidate_teams wanted assigned busy s teams)
    unfolding candidate_teams
    candidate_teams-All wanted busy [] = tt
    candidate_teams-All wanted busy ((t, team) ∷ teams) =
        let rest = candidate_teams-All wanted busy teams in
        if-ind (All (λ t. IsNew t × (is_busy t s ≡ busy)))
          (not (any (str_eq t) assigned)
            && (if is_busy t s then busy else not busy)
            && same_type team.asset_type wanted)
          (λ e. (
            fits (any (str_eq t) assigned) (is_busy t s) busy (same_type team.asset_type wanted) e,
            rest,
          ))
          (λ _. rest)

    free_teams-All :
        (teams : Dict (FieldTeam (Outside.Place out)))
        → All (λ t. IsNew t × (is_busy t s ≡ false)) (free_teams assigned s teams)
    unfolding free_teams
    free_teams-All [] = tt
    free_teams-All ((t, team) ∷ teams) =
        let rest = free_teams-All teams in
        if-ind (All (λ t. IsNew t × (is_busy t s ≡ false)))
          (not (any (str_eq t) assigned) && not (is_busy t s))
          (λ e. ((ground arith, ground arith), rest)) (λ _. rest)

    abbrev IsTaken : String × FieldTeam (Outside.Place out) → Type 0
    IsTaken (t, team) = (any (str_eq t) assigned || is_busy t s) ≡ true

    free_teams-none :
        (teams : Dict (FieldTeam (Outside.Place out)))
        → free_teams assigned s teams ≡ []
        → All IsTaken teams
    unfolding free_teams
    free_teams-none [] = λ e. tt
    free_teams-none ((t, team) ∷ teams) =
        if-ind (λ (ts : List String). ts ≡ [] → All IsTaken ((t, team) ∷ teams))
          (not (any (str_eq t) assigned) && not (is_busy t s))
          (λ _ e. absurd (omega (arith, ap length e)))
          (λ c e. (ground arith, free_teams-none teams e))

    -- The order names the team, and the team is known.
    abbrev pub IsNamed : String → Type 0
    IsNamed t = (get_or "asset_id" null d ≡ text t) × (is_in t s.teams ≡ true)

    abbrev pub free_of_type : List String
    free_of_type =
        candidate_teams (coerce_asset_type (get_or "asset_type" null d)) assigned false s s.teams

    -- The team has an order of a higher number than this one, and no team of the wanted type is free.
    abbrev pub IsPreempted : String → Type 0
    IsPreempted t =
        (is_busy t s ≡ true)
        × ((p : ℤ) × (int_at "priority" (pos 3) d ≡ some p) × (lt_int p (priority_of t s) ≡ true))
        × (free_of_type ≡ [])

    -- What holds of a choice for the order.
    abbrev pub IsChoice : Choice → Type 0
    IsChoice raised =
        (named_team (get_or "asset_id" null d) assigned s ≡ unhashable)
        ⊎ (int_at "priority" (pos 3) d ≡ none)
    IsChoice nobody = All IsTaken s.teams
    IsChoice (chosen t) = IsNew t × (IsNamed t ⊎ ((is_busy t s ≡ false) ⊎ IsPreempted t))

    select_other-IsChoice :
        (p : ℤ) → int_at "priority" (pos 3) d ≡ some p → IsChoice (select_other out d p assigned s)
    unfolding select_other
    select_other-IsChoice p e =
        let target = order_location out d in
        let wanted = coerce_asset_type (get_or "asset_type" null d) in
        or_choice-nearest (λ t. IsNew t × (is_busy t s ≡ false)) IsChoice target free_of_type _
          (candidate_teams-All wanted false s.teams) (λ t h. (h.0, inr (inl h.1)))
          (λ no_free.
            or_choice-nearest
              (λ t. (IsNew t × (is_busy t s ≡ true)) × (lt_int p (priority_of t s) ≡ true)) IsChoice
              target _ _
              (All-filter (λ t. IsNew t × (is_busy t s ≡ true)) (λ t. lt_int p (priority_of t s)) _
                (candidate_teams-All wanted true s.teams))
              (λ t h. (h.0.0, inr (inr (h.0.1, (p, e, h.1), no_free))))
              (λ _. subst IsChoice (nearest-or_choice (free_teams assigned s s.teams) target) (
                or_choice-nearest (λ t. IsNew t × (is_busy t s ≡ false)) IsChoice target
                  (free_teams assigned s s.teams) nobody (free_teams-All s.teams)
                  (λ t h. (h.0, inr (inl h.1))) (λ none_free. free_teams-none s.teams none_free))))

    abbrev IsFound : Value → Named → Type 0
    IsFound v (named t) = IsNew t × (v ≡ text t) × (is_in t s.teams ≡ true)
    IsFound v unnamed = Unit
    IsFound v unhashable = Unit

    named_team-IsFound : (v : Value) → IsFound v (named_team v assigned s)
    unfolding named_team
    named_team-IsFound (text t) =
        if-ind (IsFound (text t))
          (not (str_eq t "") && not (any (str_eq t) assigned) && is_in t s.teams)
          (λ e. (ground arith, refl, ground arith)) (λ _. tt)
    named_team-IsFound (list nil) = tt
    named_team-IsFound (list (item v vs)) = tt
    named_team-IsFound (dict end) = tt
    named_team-IsFound (dict (field k v d)) = tt
    named_team-IsFound v = tt

-- A team that is taken for an order has no order of this batch yet. It is the known one that the order
-- names, or it has no order at all, or its order has a higher number than this order's priority and no
-- team of the wanted type is free. If no team is taken, each has an order of this batch or an active
-- one. The choice raises
-- only where the id or the priority cannot be read.
pub select_team-IsChoice :
    (out : Outside) (s : Coordinator (Outside.Place out)) (d : Fields) (assigned : List String)
    → IsChoice out s d assigned (select_team out d assigned s)
unfolding select_team
select_team-IsChoice out s d assigned =
    let n = named_team (get_or "asset_id" null d) assigned s in
    let Good = IsChoice out s d assigned in
    elim (Named-cases n) [
      | inl e ↦
          let same : select_team out d assigned s ≡ raised = rw (e, select_team) refl in
          subst Good (sym same) (inl e)
      | inr (inl e) ↦ elim (Option-cases (int_at "priority" (pos 3) d)) [
        | inl m ↦
            let same : select_team out d assigned s ≡ raised = rw (e, m, select_team) refl in
            subst Good (sym same) (inr m)
        | inr (p, q) ↦
            let same : select_team out d assigned s ≡ select_other out d p assigned s =
              rw (e, q, select_team) refl in
            subst Good (sym same) (select_other-IsChoice out s d assigned p q)
      ]
      | inr (inr (t, e)) ↦
          let same : select_team out d assigned s ≡ chosen t = rw (e, select_team) refl in
          let (new, is, known) =
            subst (IsFound out s d assigned (get_or "asset_id" null d)) e
              (named_team-IsFound out s d assigned (get_or "asset_id" null d)) in
          subst Good (sym same) (new, inl (is, known))
    ]
