-- ===== src/Core/Dict.antt =====
-- A Python `dict` with text keys, in insertion order.
use far_away.Prelude.{
  String, ◌≡◌, refl, Option, none, some, List, [], ◌∷◌, str_eq, eq_iff, arith, if◌then◌else◌,
}

abbrev pub Dict {ℓ} : Type ℓ → Type ℓ
Dict V = List (String × V)

module _ {ℓ} {V : Type ℓ} where
  -- `d.get(key)`
  unfoldable pub find : String → Dict V → Option V
  find key [] = none
  find key ((k, v) ∷ d) = if str_eq k key then some v else find key d

  -- `d[key] = v`
  unfoldable pub put : String → V → Dict V → Dict V
  put key v [] = (key, v) ∷ []
  put key v ((k, w) ∷ d) =
      let rest = put key v d in if str_eq k key then (k, v) ∷ d else (k, w) ∷ rest

  -- `d.pop(key, None)`
  unfoldable pub pop : String → Dict V → Dict V
  pop key [] = []
  pop key ((k, v) ∷ d) = let rest = pop key d in if str_eq k key then rest else (k, v) ∷ rest

  pub find-put :
      (key j : String) (v : V) (d : Dict V)
      → find j (put key v d) ≡ (if str_eq key j then some v else find j d)
  unfolding find put
  find-put key j v [] = refl
  find-put key j v ((k, w) ∷ d) =
      ground (arith, eq_iff key j, eq_iff k key, eq_iff k j, find-put key j v d)

  pub find-pop :
      (key j : String) (d : Dict V) → find j (pop key d) ≡ (if str_eq key j then none else find j d)
  unfolding find pop
  find-pop key j [] = ground arith
  find-pop key j ((k, w) ∷ d) =
      ground (arith, eq_iff key j, eq_iff k key, eq_iff k j, find-pop key j d)

module _ {ℓ κ} {V : Type ℓ} (P : V → Type κ) where
  -- Every value of the dict satisfies `P`.
  abbrev pub AllValues : Dict V → Type κ
  AllValues [] = Unit
  AllValues ((k, v) ∷ d) = P v × AllValues d

  pub put-AllValues :
      (key : String) (v : V) (d : Dict V) → P v → AllValues d → AllValues (put key v d)
  unfolding put
  put-AllValues key v [] h all = (h, tt)
  put-AllValues key v ((k, w) ∷ d) h all = ground (arith, put-AllValues key v d h all.1)

  pub pop-AllValues : (key : String) (d : Dict V) → AllValues d → AllValues (pop key d)
  unfolding pop
  pop-AllValues key [] all = tt
  pop-AllValues key ((k, w) ∷ d) all = ground (arith, pop-AllValues key d all.1)

  pub find-AllValues : (key : String) (d : Dict V) {v : V} → AllValues d → find key d ≡ some v → P v
  unfolding find
  find-AllValues key [] all h = cc
  find-AllValues key ((k, w) ∷ d) {v} all h = ground (arith, find-AllValues key d {v = v} all.1)

module _ {ℓ} {V : Type ℓ} where
  -- No two entries of a dict have the same key.
  abbrev pub Distinct : Dict V → Type ℓ
  Distinct [] = Unit
  Distinct ((k, v) ∷ d) = (find k d ≡ none) × Distinct d

  pub put-Distinct : (k : String) (v : V) (d : Dict V) → Distinct d → Distinct (put k v d)
  unfolding put find
  put-Distinct k v [] h = (refl, tt)
  put-Distinct k v ((j, w) ∷ d) h =
      ground (arith, eq_iff j k, eq_iff k j, find-put k j v d, put-Distinct k v d h.1)
