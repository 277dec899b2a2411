-- ===== src/Security/Granted.antt =====
-- security/ratelimit.py: how much a limiter grants.
use far_away.Prelude.{
  leb, refl, le→leb, Option-cases, ℕ, ◌+◌, ◌-◌, ◌*◌, ◌≤◌, String, ◌≡◌, sym, ap, ◌∙◌, true, false,
  ◌&&◌, Option, none, some, List, [], ◌∷◌, str_eq, eq_iff, ◌==◌, if◌then◌else◌, arith, All,
  Bool-cases, inl, inr,
}
use mathlib.Core.Path.{subst}
use mathlib.Core.Option.{some_inj, some-ne-none}
use native.Mathlib.Nat.{le_trans}
use far_away.Core.Dict.{Dict, find, put, find-put, AllValues, find-AllValues, put-AllValues}
use far_away.Security.RateLimit.{
  Bucket, refill, RateLimitResult, RateLimiter, new_limiter, key_of, or_full, refilled, spend,
  check,
}

pub record Request : Type 0 where
  pub principal : String
  pub cost : ℕ
  pub now : ℕ

-- The cost of a request that is granted under the key.
abbrev pub charged : String → Request → RateLimitResult → ℕ
charged key r result = if str_eq (key_of r.principal) key && result.allowed then r.cost else 0

-- What a limiter grants under a key over a sequence of requests.
unfoldable pub granted : String → List Request → RateLimiter → ℕ
unfolding check
granted key [] l = 0
granted key (r ∷ rest) l =
    let (l', result) = check r.principal r.cost r.now l in
    charged key r result + granted key rest l'

pub mul_mono : (a b r : ℕ) → a ≤ b → a * r ≤ b * r
mul_mono a b r h = grind arith

mul_split : (t n l r : ℕ) → l ≤ n → n ≤ t → (t - n) * r + (n - l) * r ≡ (t - l) * r
mul_split t n l r h k = grind arith

-- What a limiter becomes with a sequence of requests.
unfoldable pub after : List Request → RateLimiter → RateLimiter
unfolding check
after [] l = l
after (r ∷ rest) l = after rest (check r.principal r.cost r.now l).0

abbrev FitsIn : ℕ → Option Bucket → Type 0
FitsIn capacity none = Unit
FitsIn capacity (some b) = b.tokens ≤ capacity

module _ (capacity rate start until : ℕ) where
  -- What may still be granted until the end.
  abbrev credit : Option Bucket → ℕ
  credit none = capacity + (until - start) * rate
  credit (some b) =
      if leb start b.last_refill
      then b.tokens + (until - b.last_refill) * rate
      else capacity + (until - start) * rate

  -- A bucket that was refilled in the span.
  record Filled (o : Option Bucket) (b : Bucket) : Type 0 where
    late : start ≤ b.last_refill
    fits : b.tokens ≤ capacity
    covered : b.tokens + (until - b.last_refill) * rate ≤ credit o

  refill-Filled :
      (now : ℕ) (o : Option Bucket)
      → start ≤ now
      → now ≤ until
      → FitsIn capacity o
      → Filled o (refill now capacity rate (or_full capacity now o))
  unfolding refill
  refill-Filled now none h k p = record {
    late = ground arith;
    fits = ground arith;
    covered = ground (arith, mul_mono (until - now) (until - start) rate);
  }
  refill-Filled now (some b) h k p = record {
    late = ground arith;
    fits = ground arith;
    covered = ground (
      arith,
      mul_split until now b.last_refill rate,
      mul_mono (until - now) (until - start) rate,
    );
  }

  credit_at_most :
      (o : Option Bucket) → FitsIn capacity o → credit o ≤ capacity + (until - start) * rate
  credit_at_most none p = omega arith
  credit_at_most (some b) p = ground (arith, mul_mono (until - b.last_refill) (until - start) rate)

spend-charged :
    (cost rate : ℕ) (b : Bucket)
    → ((spend cost rate b).0.last_refill ≡ b.last_refill)
      × ((if (spend cost rate b).1.allowed then cost else 0) + (spend cost rate b).0.tokens
          ≡ b.tokens)
unfolding spend
spend-charged cost rate b = ground arith

module _ (key : String) (start until : ℕ) where
  -- A request in the span from `start` to `until`.
  abbrev pub InSpan : Request → Type 0
  InSpan r = (start ≤ r.now) × (r.now ≤ until)

  charged_on :
      (cost more old new last last' rate : ℕ) (result : RateLimitResult) (r : Request)
      → str_eq (key_of r.principal) key ≡ true
      → last' ≡ last
      → (if result.allowed then r.cost else 0) + new ≡ old
      → more ≤ new + (until - last') * rate
      → charged key r result + more ≤ old + (until - last) * rate
  charged_on cost more old new last last' rate result r e same kept h =
      ground (arith, ap (λ (t : ℕ). (until - t) * rate) same)

  charged_off :
      (result : RateLimitResult) (r : Request)
      → str_eq (key_of r.principal) key ≡ false
      → charged key r result ≡ 0
  charged_off result r e = rw e

  granted-credit :
      (capacity rate : ℕ) (reqs : List Request) (buckets : Dict Bucket)
      → All InSpan reqs
      → FitsIn capacity (find key buckets)
      → granted key reqs (record { capacity = capacity; refill_rate = rate; buckets = buckets })
        ≤ credit capacity rate start until (find key buckets)
  unfolding granted
  granted-credit capacity rate [] buckets all fits = omega arith
  granted-credit capacity rate (r ∷ rest) buckets all fits =
      let l : RateLimiter = record { capacity = capacity; refill_rate = rate; buckets = buckets } in
      let k = key_of r.principal in
      let b = refilled k r.now l in
      let b' = (spend r.cost rate b).0 in
      let spent = spend-charged r.cost rate b in
      let found = find-put k key b' buckets in
      let after_it : RateLimiter = record l { buckets = put k b' buckets } in
      let C = credit capacity rate start until in
      elim (Bool-cases (str_eq k key)) [
        | inl e ↦
            let now_found : find key (put k b' buckets) ≡ some b' = found ∙ rw e in
            let same : k ≡ key = ground (arith, eq_iff k key) in
            let filled =
              refill-Filled capacity rate start until r.now (find k buckets) all.0.0 all.0.1
                (subst (λ x. FitsIn capacity (find x buckets)) (sym same) fits) in
            let ih =
              granted-credit capacity rate rest (put k b' buckets) all.1
                (subst (FitsIn capacity) (sym now_found) (omega (arith, spent.1, filled.fits))) in
            let kept : C (some b') ≡ b'.tokens + (until - b'.last_refill) * rate =
              rw (le→leb start b'.last_refill (subst (λ t. start ≤ t) (sym spent.0) filled.late)) in
            let more : granted key rest after_it ≤ b'.tokens + (until - b'.last_refill) * rate =
              subst (λ t. granted key rest after_it ≤ t) (ap C now_found ∙ kept) ih in
            le_trans
              (charged_on r.cost (granted key rest after_it) b.tokens b'.tokens b.last_refill
                b'.last_refill rate (spend r.cost rate b).1 r e spent.0 spent.1 more)
              (subst (λ x. b.tokens + (until - b.last_refill) * rate ≤ C (find x buckets)) same
                filled.covered)
        | inr e ↦
            let still_found : find key (put k b' buckets) ≡ find key buckets = found ∙ rw e in
            let ih =
              granted-credit capacity rate rest (put k b' buckets) all.1
                (subst (FitsIn capacity) (sym still_found) fits) in
            let more : granted key rest after_it ≤ C (find key buckets) =
              subst (λ o. granted key rest after_it ≤ C o) still_found ih in
            omega (arith, more, charged_off (spend r.cost rate b).1 r e)
      ]

Fits : ℕ → Bucket → Type 0
Fits capacity b = b.tokens ≤ capacity

find-FitsIn :
    (key : String) (capacity : ℕ) (d : Dict Bucket)
    → AllValues (Fits capacity) d
    → FitsIn capacity (find key d)
unfolding Fits
find-FitsIn key capacity d all = elim (Option-cases (find key d)) [
  | inl e ↦ subst (FitsIn capacity) (sym e) tt
  | inr (b, e) ↦ subst (FitsIn capacity) (sym e) (find-AllValues (Fits capacity) key d all e)
]

-- What a limiter keeps: its configuration, and no bucket above the capacity.
record Keeps (capacity rate : ℕ) (l : RateLimiter) : Type 0 where
  configured : (l.capacity ≡ capacity) × (l.refill_rate ≡ rate)
  fits : AllValues (Fits capacity) l.buckets

refill-FitsIn :
    (capacity rate now : ℕ) (o : Option Bucket)
    → FitsIn capacity o
    → (refill now capacity rate (or_full capacity now o)).tokens ≤ capacity
unfolding refill
refill-FitsIn capacity rate now none h = ground arith
refill-FitsIn capacity rate now (some b) h = ground arith

after-Keeps :
    (capacity rate : ℕ) (reqs : List Request) (d : Dict Bucket)
    → AllValues (Fits capacity) d
    → Keeps capacity rate
        (after reqs (record { capacity = capacity; refill_rate = rate; buckets = d }))
unfolding after Fits
after-Keeps capacity rate [] d all = record { configured = (refl, refl); fits = all }
after-Keeps capacity rate (r ∷ rest) d all =
    let k = key_of r.principal in
    let b = refill r.now capacity rate (or_full capacity r.now (find k d)) in
    let b' = (spend r.cost rate b).0 in
    after-Keeps capacity rate rest (put k b' d) (
      put-AllValues (Fits capacity) k b' d
        (omega (
          arith,
          (spend-charged r.cost rate b).1,
          refill-FitsIn capacity rate r.now (find k d) (find-FitsIn k capacity d all),
        ))
        all)

-- A limiter, whatever was requested of it since it was made, grants a principal within a span of
-- time a total cost of at most the capacity and what refills in that span, whatever other
-- principals request and in whatever order the clock's readings come.
pub new_limiter-granted :
    (key : String) (start until capacity rate : ℕ) (l : RateLimiter) (before reqs : List Request)
    → new_limiter capacity rate ≡ some l
    → All (InSpan key start until) reqs
    → granted key reqs (after before l) ≤ capacity + (until - start) * rate
unfolding new_limiter
new_limiter-granted key start until capacity rate l before reqs e all =
    elim (Bool-cases (capacity == 0)) [
      | inl h ↦ absurd (some-ne-none l (sym e ∙ rw h))
      | inr h ↦
          let fresh : RateLimiter = record {
            capacity = capacity;
            refill_rate = rate;
            buckets = [];
          } in
          let m = after before fresh in
          let kept = after-Keeps capacity rate before [] tt in
          let bound : granted key reqs
                (record { capacity = capacity; refill_rate = rate; buckets = m.buckets })
              ≤ capacity + (until - start) * rate =
            le_trans
              (granted-credit key start until capacity rate reqs m.buckets all
                (find-FitsIn key capacity m.buckets kept.fits))
              (credit_at_most capacity rate start until (find key m.buckets)
                (find-FitsIn key capacity m.buckets kept.fits)) in
          let same : record { capacity = capacity; refill_rate = rate; buckets = m.buckets } ≡ m =
            ap (λ (c : ℕ). record { capacity = c; refill_rate = rate; buckets = m.buckets })
              (sym kept.configured.0)
            ∙ ap (λ (r : ℕ). record { capacity = m.capacity; refill_rate = r; buckets = m.buckets })
                (sym kept.configured.1) in
          subst (λ x. granted key reqs (after before x) ≤ capacity + (until - start) * rate)
            (some_inj.0 (sym (made h) ∙ e))
            (subst (λ x. granted key reqs x ≤ capacity + (until - start) * rate) same bound)
    ]
  where
    made :
        (capacity == 0) ≡ false
        → new_limiter capacity rate
          ≡ some (record { capacity = capacity; refill_rate = rate; buckets = [] })
    made h = rw h
