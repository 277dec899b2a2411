-- ===== src/Audit/Tamper.antt =====
-- Tamper evidence: what the receipt of a chain that holds says about its records.
use Prim.Native.String.{◌++◌ as concat, count}
use Prim.Native.String.append
use Prim.Native.String.count
use far_away.Prelude.{
  str_eq, ◌≢◌, ℕ, suc, ◌+◌, String, ◌≡◌, refl, ap, sym, ◌∙◌, Bool, true, false, Option, none, some,
  List, [], ◌∷◌, eq_iff, arith, if◌then◌else◌, ◌⊎◌, inl, inr, Bool-cases, length,
}
use mathlib.Core.Bool.{false≢true}
use mathlib.Core.List.{Memᴰ}
use far_away.Audit.Log.{
  Codec, hash, Line, blank, broken, no_object, entry, File, Logger, Receipt, genesis, walk, parsed,
  verify_chain_details, walked,
}
use far_away.Audit.Chain.{intact, links, walk-link, walk-break}

concat-injective :
    (p q a b : String) → count p ≡ count q → concat p a ≡ concat q b → (p ≡ q) × (a ≡ b)
concat-injective String.[] String.[] a b size e = (refl, sym (append.nil a) ∙ e ∙ append.nil b)
concat-injective String.[] (String.◌∷◌ d q) a b size e =
    absurd (omega (arith, size, count.nil, count.cons d q))
concat-injective (String.◌∷◌ c p) String.[] a b size e =
    absurd (omega (arith, size, count.nil, count.cons c p))
concat-injective (String.◌∷◌ c p) (String.◌∷◌ d q) a b size e =
    let e' = sym (append.cons c p a) ∙ e ∙ append.cons d q b in
    let rest : concat p a ≡ concat q b = cc e' in
    let first : c ≡ d = cc e' in
    let u = concat-injective p q a b (omega (arith, size, count.cons c p, count.cons d q)) rest in
    (cc (first, u.0), u.1)

dec_text : (s t : String) → (s ≡ t) ⊎ (s ≢ t)
dec_text s t = elim (Bool-cases (str_eq s t)) [
  | inl e ↦ inl (ground (arith, eq_iff s t))
  | inr e ↦ inr (λ p. false≢true (sym e ∙ (eq_iff s t).1 p))
]

module _ (c : Codec) where
  open c use {Body, canonical, reload, digest}

  -- The records of a list of lines: each canonical text with its `_prev` and its `_hash`.
  abbrev pub records : List (Line c) → List (String × Option String × Option String)
  records [] = []
  records (entry body p stored ∷ rest) = (canonical body, p, stored) ∷ records rest
  records (line ∷ rest) = records rest

  abbrev pub file_records : Option (File c) → List (String × Option String × Option String)
  file_records none = []
  file_records (some f) = records f.lines

  -- The records of a log, in memory or in its file.
  abbrev pub log_records : Logger c → List (String × Option String × Option String)
  log_records l = if l.in_memory then records l.memory else file_records l.file

  -- A walk that holds counts its records.
  walk_count :
      (i n m : ℕ) (prev head : String) (rs : List (Line c))
      → walk c i n prev rs ≡ intact c m head
      → m ≡ n + length rs
  unfolding walk
  walk_count i n m prev head [] h = omega (arith, ap (λ (r : Receipt c). r.entries_checked) h)
  walk_count i n m prev head (entry body (some p) (some stored) ∷ rest) h =
      elim (Bool-cases (links c prev p stored body)) [
        | inl e ↦ omega (
          arith,
          walk_count (suc i) (suc n) m stored head rest
              (sym (walk-link c i n prev p stored body rest e) ∙ h),
        )
        | inr e ↦ cc (walk-break c i n prev p stored body rest e)
      ]
  walk_count i n m prev head (line ∷ rest) h = cc

  -- The first record of a walk that holds is linked, and the rest holds.
  pub walk_first :
      (i n m : ℕ) (prev head p stored : String) (body : Body) (rest : List (Line c))
      → walk c i n prev (entry body (some p) (some stored) ∷ rest) ≡ intact c m head
      → (links c prev p stored body ≡ true) × (walk c (suc i) (suc n) stored rest ≡ intact c m head)
  walk_first i n m prev head p stored body rest h = elim (Bool-cases (links c prev p stored body)) [
    | inl e ↦ (e, sym (walk-link c i n prev p stored body rest e) ∙ h)
    | inr e ↦ cc (walk-break c i n prev p stored body rest e)
  ]

  -- Parsing drops no record.
  records-parsed :
      (xs : List (Line c))
      → (parsed c xs ≡ none)
        ⊎ ((rs : List (Line c)) × (parsed c xs ≡ some rs) × (records xs ≡ records rs))
  unfolding parsed
  records-parsed [] = inr ([], refl, refl)
  records-parsed (blank ∷ xs) = records-parsed xs
  records-parsed (broken ∷ xs) = inl refl
  records-parsed (no_object ∷ xs) = elim (records-parsed xs) [
    | inl e ↦ inl (rw e)
    | inr t ↦ inr (no_object ∷ t.0, rw (t.1), t.2)
  ]
  records-parsed (entry b p stored ∷ xs) = elim (records-parsed xs) [
    | inl e ↦ inl (rw e)
    | inr t ↦ inr (entry b p stored ∷ t.0, rw (t.1), ap (λ r. (canonical b, p, stored) ∷ r) t.2)
  ]

  -- The walk behind a receipt that holds, with the records of the log.
  record Walk (n : ℕ) (head : String) (all : List (String × Option String × Option String))
      : Type 0 where
    rs : List (Line c)
    holds : walk c 1 0 genesis rs ≡ intact c n head
    same : all ≡ records rs

  Walk-parsed :
      (n : ℕ) (head : String) (xs : List (Line c))
      → walked c (parsed c xs) ≡ intact c n head
      → Walk n head (records xs)
  Walk-parsed n head xs h = elim (records-parsed xs) [
    | inl e ↦ absurd (false≢true (ap (λ (r : Receipt c). r.valid) (sym (ap (walked c) e) ∙ h)))
    | inr t ↦ record { rs = t.0; holds = sym (ap (walked c) t.1) ∙ h; same = t.2 }
  ]

  Walk-parts :
      (n : ℕ) (head : String) (in_memory : Bool) (file : Option (File c)) (memory : List (Line c))
      (prev : String)
      → (let k : Logger c = record {
        in_memory = in_memory;
        file = file;
        memory = memory;
        prev_hash = prev;
      } in
          verify_chain_details c k ≡ intact c n head → Walk n head (log_records k))
  unfolding verify_chain_details
  Walk-parts n head true file memory prev h = record { rs = memory; holds = h; same = refl }
  Walk-parts n head false none memory prev h = record { rs = []; holds = h; same = refl }
  Walk-parts n head false (some f) memory prev h = Walk-parsed n head f.lines h

  Walk-details :
      (n : ℕ) (head : String) (l : Logger c)
      → verify_chain_details c l ≡ intact c n head
      → Walk n head (log_records l)
  Walk-details n head l h = Walk-parts n head l.in_memory l.file l.memory l.prev_hash h

  -- The texts whose digests a log's records hold: each previous hash with the canonical text.
  abbrev pub hashed_texts : List (String × Option String × Option String) → List String
  hashed_texts [] = []
  hashed_texts ((body, none, stored) ∷ rest) = hashed_texts rest
  hashed_texts ((body, some p, stored) ∷ rest) = concat p body ∷ hashed_texts rest

  -- Two different texts, one of each list, with the same digest.
  pub record Collision (xs ys : List String) : Type 0 where
    pub one : String
    pub other : String
    pub of_first : Memᴰ one xs
    pub of_second : Memᴰ other ys
    pub different : one ≢ other
    pub same : digest one ≡ digest other

  Collision-tail :
      (x y : String) (xs ys : List String) → Collision xs ys → Collision (x ∷ xs) (y ∷ ys)
  Collision-tail x y xs ys found = record {
    one = found.one;
    other = found.other;
    of_first = Memᴰ.tail found.of_first;
    of_second = Memᴰ.tail found.of_second;
    different = found.different;
    same = found.same;
  }

  abbrev Colliding : List (Line c) → List (Line c) → Type 0
  Colliding rs rs' = Collision (hashed_texts (records rs)) (hashed_texts (records rs'))

  -- A digest is as long as `GENESIS`.
  module _ (sized : (s : String) → count (digest s) ≡ count genesis) where
    linked_sized :
        (prev p stored : String) (b : Body)
        → links c prev p stored b ≡ true
        → count stored ≡ count genesis
    linked_sized prev p stored b h =
        let e : hash c prev (canonical b) ≡ stored =
          ground (arith, eq_iff (hash c prev (canonical b)) stored) in
        sym (ap count e) ∙ sized (concat prev (canonical b))

    links_unique :
        (prev prev' p p' stored : String) (b b' : Body)
        → count prev ≡ count genesis
        → count prev' ≡ count genesis
        → links c prev p stored b ≡ true
        → links c prev' p' stored b' ≡ true
        → ((prev ≡ prev') × (p ≡ p') × (canonical b ≡ canonical b'))
          ⊎ ((concat p (canonical b) ≢ concat p' (canonical b'))
              × (digest (concat p (canonical b)) ≡ digest (concat p' (canonical b'))))
    links_unique prev prev' p p' stored b b' size size' h h' =
        let same : hash c prev (canonical b) ≡ hash c prev' (canonical b') = ground (
          arith,
          eq_iff (hash c prev (canonical b)) stored,
          eq_iff (hash c prev' (canonical b')) stored,
        ) in
        let back : p ≡ prev = ground (arith, eq_iff p prev) in
        let back' : p' ≡ prev' = ground (arith, eq_iff p' prev') in
        elim (dec_text (concat prev (canonical b)) (concat prev' (canonical b'))) [
          | inl e ↦
              let u =
                concat-injective prev prev' (canonical b) (canonical b') (size ∙ sym size') e in
              inl (u.0, back ∙ u.0 ∙ sym back', u.1)
          | inr ne ↦ rw (back, back') (inr (ne, same))
        ]

    walk_unique :
        (i n m : ℕ) (prev prev' head : String) (rs rs' : List (Line c))
        → count prev ≡ count genesis
        → count prev' ≡ count genesis
        → walk c i n prev rs ≡ intact c m head
        → walk c i n prev' rs' ≡ intact c m head
        → ((prev ≡ prev') × (records rs ≡ records rs')) ⊎ Colliding rs rs'
    unfolding walk
    walk_unique i n m prev prev' head [] [] size size' h h' =
        inl (ap (λ (r : Receipt c). r.head_hash) (h ∙ sym h'), refl)
    walk_unique i n m prev prev' head [] (l ∷ rs') size size' h h' =
        absurd
          (omega (arith, walk_count i n m prev head [] h, walk_count i n m prev' head (l ∷ rs') h'))
    walk_unique i n m prev prev' head (l ∷ rs) [] size size' h h' =
        absurd
          (omega (arith, walk_count i n m prev head (l ∷ rs) h, walk_count i n m prev' head [] h'))
    walk_unique i n m prev prev' head (entry b (some p) (some s) ∷ rs)
          (entry b' (some p') (some s') ∷ rs') size size' h h' =
        let t = walk_first i n m prev head p s b rs h in
        let t' = walk_first i n m prev' head p' s' b' rs' h' in
        elim (walk_unique (suc i) (suc n) m s s' head rs rs' (linked_sized prev p s b t.0)
          (linked_sized prev' p' s' b' t'.0) t.1 t'.1) [
            | inl v ↦
                elim (links_unique prev prev' p p' s b b' size size' t.0 (rw (← v.0) at t'.0)) [
                  | inl u ↦ inl (u.0, cc (u.1, u.2, v.0, v.1))
                  | inr (different, same) ↦ inr (record {
                    one = concat p (canonical b);
                    other = concat p' (canonical b');
                    of_first = Memᴰ.head refl;
                    of_second = Memᴰ.head refl;
                    different = different;
                    same = same;
                  })
                ]
            | inr found ↦ inr (
                Collision-tail (concat p (canonical b)) (concat p' (canonical b'))
                  (hashed_texts (records rs)) (hashed_texts (records rs')) found)
          ]
    walk_unique i n m prev prev' head (entry b (some p) (some s) ∷ rs) (l ∷ rs') size size' h h' =
        absurd (false≢true (ap (λ (r : Receipt c). r.valid) h'))
    walk_unique i n m prev prev' head (l ∷ rs) (l' ∷ rs') size size' h h' =
        absurd (false≢true (ap (λ (r : Receipt c). r.valid) h))

    -- If every digest is as long as the genesis hash, then two logs that verify with the same number
    -- of records and the same head hash hold the same records in the same order, each with its
    -- previous hash and its hash, or a text that was hashed for the one log and a different one that was
    -- hashed for the other have the same digest.
    pub receipt_determines_records :
        (n : ℕ) (head : String) (l l' : Logger c)
        → verify_chain_details c l ≡ intact c n head
        → verify_chain_details c l' ≡ intact c n head
        → (log_records l ≡ log_records l')
          ⊎ Collision (hashed_texts (log_records l)) (hashed_texts (log_records l'))
    receipt_determines_records n head l l' h h' =
        let w = Walk-details n head l h in
        let w' = Walk-details n head l' h' in
        elim (walk_unique 1 0 n genesis genesis head w.rs w'.rs refl refl w.holds w'.holds) [
          | inl u ↦ inl (w.same ∙ u.1 ∙ sym w'.same)
          | inr found ↦ inr (rw (w.same, w'.same) found)
        ]
