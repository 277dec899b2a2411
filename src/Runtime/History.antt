-- ===== src/Runtime/History.antt =====
-- core/bus.py: the bus's history.
use far_away.Prelude.{
  ℕ, zero, suc, ◌-◌, ◌≤◌, ◌<◌, String, ◌≡◌, refl, ap, List, [], ◌∷◌, ◌++◌, ltb, arith, if-ind,
  length, length-drop, or_else,
}
use far_away.Core.Dict.{find}
use far_away.Runtime.Bus.{Bus, last_items, remember, subscribe, notify, publish}

module _ {M : Type 0} where
  -- A bus that keeps some messages, and no more than it is set to.
  pub record IsBounded (b : Bus M) : Type 0 where
    pub keeps_some : 0 < b.history_max
    pub bounded : length b.history ≤ b.history_max

  length-last_items : (n : ℕ) (ms : List M) → 0 < n → length (last_items n ms) ≤ n
  length-last_items zero ms h = omega arith
  length-last_items (suc n) ms h = omega (arith, length-drop (length ms - suc n) ms)

  remember-IsBounded : (m : M) (b : Bus M) → IsBounded b → IsBounded (remember m b)
  unfolding remember
  remember-IsBounded m b h = record {
    keeps_some = h.keeps_some;
    bounded =
        let history = b.history ++ m ∷ [] in
        if-ind (λ ms. length ms ≤ b.history_max) (ltb b.history_max (length history)) {y = history}
          (λ _. length-last_items b.history_max history h.keeps_some) (λ e. ground arith);
  }

  -- A bus that is set to keep no message keeps all of them.
  remember_all :
      (m : M) (b : Bus M) → b.history_max ≡ 0 → (remember m b).history ≡ b.history ++ m ∷ []
  unfolding remember
  remember_all m b h =
      if-ind (λ ms. ms ≡ b.history ++ m ∷ []) (ltb b.history_max (length (b.history ++ m ∷ [])))
        (λ _. ap (λ n. last_items n (b.history ++ m ∷ [])) h) (λ _. refl)

  -- A bus is used by its methods only: each publication puts its message into the history, and what
  -- the callbacks do of it is use again.
  pub data Uses : Bus M → Bus M → Type 0 where
    unused : (b : Bus M) → Uses b b
    then_published : (b b' : Bus M) (m : M) → Uses b b' → Uses b (remember m b')
    then_subscribed :
        (b b' : Bus M) (topic subscriber : String) (callback : ℕ)
        → Uses b b'
        → Uses b (subscribe topic subscriber callback b')

  -- The history of a bus is within `limit`, to which the bus is set.
  pub record IsWithin (limit : ℕ) (b : Bus M) : Type 0 where
    pub set : b.history_max ≡ limit
    pub within : length b.history ≤ limit

  remember-IsWithin :
      (limit : ℕ) (m : M) (b : Bus M) → 0 < limit → IsWithin limit b → IsWithin limit (remember m b)
  unfolding remember
  remember-IsWithin limit m b some_kept h = record {
    set = h.set;
    within =
        let n : 0 < b.history_max = omega (arith, h.set, some_kept) in
        let kept =
          remember-IsBounded m b
            (record { keeps_some = n; bounded = omega (arith, h.set, h.within) }) in
        omega (arith, h.set, kept.bounded);
  }

  Uses-IsWithin :
      (limit : ℕ) (b b' : Bus M) → 0 < limit → Uses b b' → IsWithin limit b → IsWithin limit b'
  unfolding subscribe
  Uses-IsWithin limit b _ k (unused _) h = h
  Uses-IsWithin limit b _ k (then_published _ b' m u) h =
      remember-IsWithin limit m b' k (Uses-IsWithin limit b b' k u h)
  Uses-IsWithin limit b _ k (then_subscribed _ b' topic subscriber callback u) h =
      let w = Uses-IsWithin limit b b' k u h in record { set = w.set; within = w.within }

  module _ (topic_of : M → String) {W : Type 0} (act : ℕ → M → Bus M × W → Bus M × W)
      (act_uses : (callback : ℕ) (m : M) (s : Bus M × W) → Uses s.0 (act callback m s).0) where
    notify-IsWithin :
        (limit : ℕ) (subs : List (String × ℕ)) (m : M) (s : Bus M × W)
        → 0 < limit
        → IsWithin limit s.0
        → IsWithin limit (notify topic_of act subs m s).0
    unfolding notify
    notify-IsWithin limit [] m s k h = h
    notify-IsWithin limit ((subscriber, callback) ∷ rest) m s k h =
        notify-IsWithin limit rest m (act callback m s) k
          (Uses-IsWithin limit s.0 (act callback m s).0 k (act_uses callback m s) h)

    -- A publication on a bus that is set to keep some messages, and holds no more than that, leaves it
    -- set as it was and with no more messages than that, whatever its subscribers publish and
    -- subscribe to, as long as they use it by its methods only.
    pub publish-IsWithin :
        (m : M) (b : Bus M) (w : W)
        → 0 < b.history_max
        → length b.history ≤ b.history_max
        → IsWithin b.history_max (publish topic_of act m (b, w)).0
    unfolding publish
    publish-IsWithin m b w k h =
        notify-IsWithin b.history_max (or_else (find (topic_of m) (remember m b).subs) []) m
          (remember m b, w) k
          (remember-IsWithin b.history_max m b k (record { set = refl; within = h }))
