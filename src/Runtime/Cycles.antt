-- ===== src/Runtime/Cycles.antt =====
-- orchestration/loop.py and triggers.py: what the loop's cycles come to, and what it is activated by.
use mathlib.Core.Bool.{true≢false, false≢true}
use mathlib.Core.Option.{some_inj, some-ne-none}
use mathlib.Core.Path.{subst}
use far_away.Prelude.{
  ℕ, zero, suc, ◌+◌, ◌-◌, ◌≤◌, String, ◌≡◌, refl, sym, ap, ◌∙◌, Bool, true, false, ◌&&◌, some, [],
  ◌∷◌, str_eq, arith, if◌then◌else◌, Bool-ind, any, Bool-cases, inl, inr,
}
use far_away.Core.Dict.{Dict, find}
use far_away.Commander.State.{PendingEscalation, Commander, Env}
use far_away.Commander.Pending.{resolve_pending}
use far_away.Commander.Sweep.{lapses, lapses_as, resolve_pending-Sweeps}
use far_away.Runtime.Loop.{Loop, has_commander, tick_all, run_once, run_from, run}

first_off : (a b c : Bool) → a ≡ true → (if a && b then true else c) ≡ false → b ≡ false
first_off true b c h e = ground arith
first_off false b c h e = cc

rest_off : (a b c : Bool) → (if a && b then true else c) ≡ false → c ≡ false
rest_off a b c e = ground arith

find-not_any :
    (now : ℕ) (key : String) (d : Dict PendingEscalation) (p : PendingEscalation)
    → find key d ≡ some p
    → any (lapses_as now key) d ≡ false
    → lapses now p ≡ false
unfolding find
find-not_any now key [] p e h = cc
find-not_any now key ((k, q) ∷ d) p e h = elim (Bool-cases (str_eq k key)) [
  | inl same ↦
      ap (lapses now) (sym (some_inj.0 (rw same at e)))
      ∙ first_off (str_eq k key) (lapses now q) (any (lapses_as now key) d) same h
  | inr other ↦
      find-not_any now key d p (rw other at e)
        (rest_off (str_eq k key) (lapses now q) (any (lapses_as now key) d) h)
]

-- No pending entry is left that is due at the time and that the commander may act on alone.
abbrev pub IsSettled : ℕ → Commander → Type 0
IsSettled now c =
    (key : String) (p : PendingEscalation) → find key c.pendings ≡ some p → lapses now p ≡ false

module _ (env : Env) (all_written : (n : ℕ) → env.write_ok n ≡ true) where
  resolve_pending-IsSettled :
      (now : ℕ) (s : Commander) → IsSettled now (resolve_pending env now s).0
  resolve_pending-IsSettled now s key p e =
      let sweeps = resolve_pending-Sweeps env all_written now s in
      elim (Bool-cases (any (lapses_as now key) s.pendings)) [
        | inl h ↦ absurd (some-ne-none p (sym e ∙ sweeps.left key ∙ rw h))
        | inr h ↦ find-not_any now key s.pendings p (sym (sweeps.left key ∙ rw h) ∙ e) h
      ]

  module _ {W : Type 0} where
    run_once-IsSettled :
        (now : ℕ) (l : Loop W)
        → has_commander l.agents ≡ true
        → IsSettled now (run_once env now l).0.commander
    unfolding run_once
    run_once-IsSettled now l h =
        let c = (tick_all false l.agents (l.commander, l.world)).0 in
        Bool-ind (λ b. b ≡ true → IsSettled now (if b then (resolve_pending env now c).0 else c))
          (has_commander l.agents) (λ _ _. resolve_pending-IsSettled now c)
          (λ _ k. absurd (false≢true k)) h

    -- What a run comes to after its n-th cycle, with at most `left` cycles after that one.
    record RunsFrom (clock : ℕ → ℕ) (active : ℕ → Bool) (left n : ℕ) (l : Loop W) (r : Loop W × ℕ)
        : Type 0 where
      bounds : (suc n ≤ r.1) × (r.1 ≤ suc n + left)
      full : ((k : ℕ) → active k ≡ true) → r.1 ≡ suc n + left
      counted : r.0.cycle + n ≡ l.cycle + r.1
      settled : IsSettled (clock (r.1 - 1)) r.0.commander

    run_from-RunsFrom :
        (clock : ℕ → ℕ) (active : ℕ → Bool) (left n : ℕ) (l : Loop W)
        → has_commander l.agents ≡ true
        → RunsFrom clock active left n l (run_from env clock active left n l)
    unfolding run_from run_once
    run_from-RunsFrom clock active zero n l h = record {
      bounds = (omega arith, omega arith);
      full = λ _. omega arith;
      counted = omega arith;
      settled =
          subst (λ k. IsSettled (clock k) (run_once env (clock n) l).0.commander) {x = n}
            (omega arith) (run_once-IsSettled (clock n) l h);
    }
    run_from-RunsFrom clock active (suc left) n l h =
        let l' = (run_once env (clock n) l).0 in
        Bool-ind
          (λ b.
            active (suc n) ≡ b
            → RunsFrom clock active (suc left) n l (elim b as (λ _. Loop W × ℕ) [
              | true ↦ run_from env clock active left (suc n) l'
              | false ↦ (record l' { disaster_active = false }, suc n)
            ]))
          (active (suc n))
          (λ _ _.
            let later = run_from-RunsFrom clock active left (suc n) l' h in
            record {
              bounds = (omega (arith, later.bounds), omega (arith, later.bounds));
              full = λ all. omega (arith, later.full all);
              counted = omega (arith, later.counted);
              settled = later.settled;
            })
          (λ _ off. record {
            bounds = (omega arith, omega arith);
            full = λ all. absurd (true≢false (sym (all (suc n)) ∙ off));
            counted = omega arith;
            settled =
                subst (λ k. IsSettled (clock k) l'.commander) {x = n} (omega arith)
                  (run_once-IsSettled (clock n) l h);
          })
          refl

    -- What a run comes to, as the loop that it leaves and the number of its cycles.
    pub record Runs (max_cycles : ℕ) (clock : ℕ → ℕ) (active : ℕ → Bool) (l : Loop W)
        (r : Loop W × ℕ) : Type 0 where
      pub bounds : (1 ≤ r.1) × (r.1 ≤ suc (max_cycles - 1))
      pub full : ((k : ℕ) → active k ≡ true) → r.1 ≡ suc (max_cycles - 1)
      pub counted : r.0.cycle ≡ l.cycle + r.1
      pub settled : IsSettled (clock (r.1 - 1)) r.0.commander

    -- Where a commander is among the agents and every audit write succeeds: a run with a limit ends,
    -- after at least one cycle and at most the limit, with all of them where it is not stopped, and
    -- counts its cycles. No pending entry is left that was due at the last cycle's reading of the
    -- clock and that the commander may act on alone, whatever the ticks of the other agents leave.
    pub run-Runs :
        (max_cycles : ℕ) (clock : ℕ → ℕ) (active : ℕ → Bool) (l : Loop W)
        → has_commander l.agents ≡ true
        → Runs max_cycles clock active l (run env max_cycles clock active l)
    unfolding run
    run-Runs max_cycles clock active l h =
        let r =
          run_from-RunsFrom clock active (max_cycles - 1) 0 (record l { disaster_active = true })
            h in
        record {
          bounds = (omega (arith, r.bounds), omega (arith, r.bounds));
          full = λ all. omega (arith, r.full all);
          counted = omega (arith, r.counted);
          settled = r.settled;
        }
