-- ===== src/Commander/Sweep.antt =====
-- What a timeout sweep does to the pending entries when every audit write succeeds.
use far_away.Prelude.{
  ℕ, suc, ◌+◌, String, ◌≡◌, refl, ap, ◌∙◌, ◌++◌, Bool, true, false, not, ◌&&◌, none, List, [], ◌∷◌,
  arith, length, filter, any, str_eq, if◌then◌else◌, length-append, Bool-cases, inl, inr,
}
use far_away.Core.Dict.{Dict, find, pop, find-pop}
use far_away.Commander.State.{Sent, PendingEscalation, Commander, Env}
use far_away.Commander.Agent.{Outcome, returned, raised, build_dispatch, emit}
use far_away.Commander.Emit.{emitted_written, with_sender}
use far_away.Commander.Pending.{
  waits, count_auto_executed, auto_execute, expire, sweep, resolve_pending, prefixed, and_then,
  emitted,
}

-- The entry's time is up, and the agent may act alone.
abbrev pub lapses : ℕ → PendingEscalation → Bool
lapses now p = not (waits now p) && not p.decision.human_only

abbrev pub lapses_as : ℕ → String → String × PendingEscalation → Bool
lapses_as now key (k, p) = str_eq k key && lapses now p

module _ {ℓ} {A : Type ℓ} where
  both_off :
      (a b : Bool) (x y : A) → (not a && not b) ≡ true → (if a then x else if b then x else y) ≡ y
  both_off true b x y h = cc
  both_off false true x y h = cc
  both_off false false x y h = refl

  either_on :
      (a b : Bool) (x y : A) → (not a && not b) ≡ false → (if a then x else if b then x else y) ≡ x
  either_on true b x y h = refl
  either_on false true x y h = refl
  either_on false false x y h = cc

  one_less :
      (k r l : Bool) (x y : A)
      → l ≡ true
      → (if r then x else if k then x else y) ≡ (if (if k && l then true else r) then x else y)
  one_less k r l x y h = ground arith

  none_less :
      (k r l : Bool) (x y : A)
      → l ≡ false
      → (if r then x else y) ≡ (if (if k && l then true else r) then x else y)
  none_less k r l x y h = ground arith

abbrev pub lapsed_of : ℕ → Dict PendingEscalation → Dict PendingEscalation
lapsed_of now = filter (λ e. lapses now e.1)

module _ (now : ℕ) (k : String) (p : PendingEscalation) (rest : Dict PendingEscalation) where
  count_lapsed :
      lapses now p ≡ true
      → length (lapsed_of now ((k, p) ∷ rest)) ≡ suc (length (lapsed_of now rest))
  count_lapsed e = rw e

  count_staying :
      lapses now p ≡ false → length (lapsed_of now ((k, p) ∷ rest)) ≡ length (lapsed_of now rest)
  count_staying e = rw e

module _ (env : Env) where
  pub expire_lapsed :
      (now : ℕ) (report_id : String) (p : PendingEscalation) (s : Commander)
      → lapses now p ≡ true
      → expire env now report_id p s ≡ auto_execute env report_id p s
  unfolding expire
  expire_lapsed now report_id p s h = both_off (waits now p) p.decision.human_only _ _ h

  expire_stays :
      (now : ℕ) (report_id : String) (p : PendingEscalation) (s : Commander)
      → lapses now p ≡ false
      → expire env now report_id p s ≡ (s, returned [])
  unfolding expire
  expire_stays now report_id p s h = either_on (waits now p) p.decision.human_only _ _ h

module _ (env : Env) (written : (n : ℕ) → env.write_ok n ≡ true) where
  record Executes (report_id : String) (s : Commander) (r : Commander × Outcome) : Type 0 where
    sent : List Sent
    returns : r.1 ≡ returned sent
    popped : r.0.pendings ≡ pop report_id s.pendings
    published : length r.0.published ≡ suc (length s.published)

  emitted-Executes :
      (report_id : String) (s s1 : Commander) (m : Sent)
      → s1.pendings ≡ pop report_id s.pendings
      → s1.published ≡ s.published
      → Executes report_id s (emitted m (emit env m s1))
  emitted-Executes report_id s s1 m popped same =
      rw (emitted_written env m s1 (written s1.writes)) (record {
        sent = m ∷ [];
        returns = refl;
        popped = popped;
        published = omega (
          arith,
          length-append {0} {A = Sent} s1.published (with_sender env m s1 ∷ []),
          ap length same,
        );
      })

  auto_execute-Executes :
      (report_id : String) (p : PendingEscalation) (s : Commander)
      → Executes report_id s (auto_execute env report_id p s)
  unfolding auto_execute build_dispatch count_auto_executed
  auto_execute-Executes report_id p s = emitted-Executes report_id s _ _ refl refl

  -- What is left of the entries, and how many messages went out.
  pub record Sweeps (now : ℕ) (entries : Dict PendingEscalation) (s : Commander)
      (r : Commander × Outcome) : Type 0 where
    pub sent : List Sent
    pub returns : r.1 ≡ returned sent
    pub left :
        (key : String)
        → find key r.0.pendings
          ≡ (if any (lapses_as now key) entries then none else find key s.pendings)
    pub published : length r.0.published ≡ length s.published + length (lapsed_of now entries)

  prefixed-Sweeps :
      (now : ℕ) (entries : Dict PendingEscalation) (s : Commander) (ms : List Sent)
      (r : Commander × Outcome)
      → Sweeps now entries s r
      → Sweeps now entries s (prefixed ms r)
  prefixed-Sweeps now entries s ms (s', returned more) h = record {
    sent = ms ++ more;
    returns = refl;
    left = h.left;
    published = h.published;
  }
  prefixed-Sweeps now entries s ms (s', raised) h = cc h.returns

  lapsed_then :
      (now : ℕ) (k : String) (p : PendingEscalation) (rest : Dict PendingEscalation) (s : Commander)
      (r : Commander × Outcome)
      → lapses now p ≡ true
      → Executes k s r
      → ((s' : Commander) → Sweeps now rest s' (sweep env now rest s'))
      → Sweeps now ((k, p) ∷ rest) s (and_then r (λ s'. sweep env now rest s'))
  lapsed_then now k p rest s (s1, returned ms) e x ih =
      let h = ih s1 in
      prefixed-Sweeps now ((k, p) ∷ rest) s ms (sweep env now rest s1) (record {
        sent = h.sent;
        returns = h.returns;
        left = λ key.
            rw (h.left key, x.popped, find-pop k key s.pendings)
              (one_less (str_eq k key) (any (lapses_as now key) rest) (lapses now p) _ _ e);
        published = omega (arith, h.published, x.published, count_lapsed now k p rest e);
      })
  lapsed_then now k p rest s (s1, raised) e x ih = cc x.returns

  stays_then :
      (now : ℕ) (k : String) (p : PendingEscalation) (rest : Dict PendingEscalation) (s : Commander)
      → lapses now p ≡ false
      → Sweeps now rest s (sweep env now rest s)
      → Sweeps now ((k, p) ∷ rest) s (prefixed [] (sweep env now rest s))
  stays_then now k p rest s e h =
      prefixed-Sweeps now ((k, p) ∷ rest) s [] (sweep env now rest s) (record {
        sent = h.sent;
        returns = h.returns;
        left = λ key.
            h.left key
            ∙ none_less (str_eq k key) (any (lapses_as now key) rest) (lapses now p) _ _ e;
        published = omega (arith, h.published, count_staying now k p rest e);
      })

  sweep-Sweeps :
      (now : ℕ) (entries : Dict PendingEscalation) (s : Commander)
      → Sweeps now entries s (sweep env now entries s)
  unfolding sweep
  sweep-Sweeps now [] s = record {
    sent = [];
    returns = refl;
    left = λ key. refl;
    published = omega arith;
  }
  sweep-Sweeps now ((k, p) ∷ rest) s = elim (Bool-cases (lapses now p)) [
    | inl e ↦ rw (expire_lapsed env now k p s e) (
        lapsed_then now k p rest s _ e (auto_execute-Executes k p s)
          (λ s'. sweep-Sweeps now rest s'))
    | inr e ↦
        rw (expire_stays env now k p s e) (stays_then now k p rest s e (sweep-Sweeps now rest s))
  ]

  -- From any state, when every audit write succeeds, a sweep returns; it removes exactly the pending
  -- entries that are due and not human-only, and publishes one message for each of them.
  pub resolve_pending-Sweeps :
      (now : ℕ) (s : Commander) → Sweeps now s.pendings s (resolve_pending env now s)
  unfolding resolve_pending
  resolve_pending-Sweeps now s = sweep-Sweeps now s.pendings s
