-- ===== src/Audit/Chain.antt =====
-- Appending to the chain: a log that verifies goes on verifying.
use far_away.Prelude.{
  ℕ, suc, String, ◌≡◌, refl, ap, sym, ◌∙◌, Bool, true, false, ◌&&◌, Option, none, some, List, [],
  ◌∷◌, ◌++◌, str_eq, arith, inl, inr, Bool-cases,
}
use text.Mathlib.TextPositions.{eq_refl}
use far_away.Audit.Log.{
  Codec, hash, Line, blank, broken, no_object, entry, File, Logger, Receipt, genesis, walk, parsed,
  append_line, verify_chain_details, null_log, failed_at, prepend, walked, verify_file,
}

module _ (c : Codec) where
  open c use {Body, canonical, reload}

  -- The receipt of a chain that holds.
  abbrev pub intact : ℕ → String → Receipt c
  intact checked head = record {
    valid = true;
    entries_checked = checked;
    head_hash = head;
    failure_index = none;
  }

  -- The test of one record in the walk.
  abbrev pub links : String → String → String → Body → Bool
  links prev p stored body = str_eq p prev && str_eq (hash c prev (canonical body)) stored

  pub walk-link :
      (i n : ℕ) (prev p stored : String) (body : Body) (rest : List (Line c))
      → links prev p stored body ≡ true
      → walk c i n prev (entry body (some p) (some stored) ∷ rest)
        ≡ walk c (suc i) (suc n) stored rest
  unfolding walk
  walk-link i n prev p stored body rest h = rw h

  pub walk-break :
      (i n : ℕ) (prev p stored : String) (body : Body) (rest : List (Line c))
      → links prev p stored body ≡ false
      → walk c i n prev (entry body (some p) (some stored) ∷ rest) ≡ failed_at c i n prev
  unfolding walk
  walk-break i n prev p stored body rest h = rw h

  new_link :
      (head : String) (b b' : Body)
      → canonical b' ≡ canonical b
      → links head head (hash c head (canonical b)) b' ≡ true
  new_link head b b' same = simp (same, eq_refl)

  -- A record chained onto the head of a chain that holds extends it.
  pub walk-snoc :
      (i n m : ℕ) (prev head : String) (b b' : Body) (rs : List (Line c))
      → canonical b' ≡ canonical b
      → walk c i n prev rs ≡ intact m head
      → walk c i n prev (rs ++ entry b' (some head) (some (hash c head (canonical b))) ∷ [])
        ≡ intact (suc m) (hash c head (canonical b))
  unfolding walk
  walk-snoc i n m prev head b b' [] same h =
      let ends : head ≡ prev = sym (ap (λ (r : Receipt c). r.head_hash) h) in
      let counted : n ≡ m = ap (λ (r : Receipt c). r.entries_checked) h in
      rw (ends, counted, new_link prev b b' same)
  walk-snoc i n m prev head b b' (entry body (some p) (some stored) ∷ rest) same h =
      elim (Bool-cases (links prev p stored body)) [
        | inl e ↦
            walk-link i n prev p stored body _ e
            ∙ walk-snoc (suc i) (suc n) m stored head b b' rest same
                (sym (walk-link i n prev p stored body rest e) ∙ h)
        | inr e ↦ cc (walk-break i n prev p stored body rest e)
      ]
  walk-snoc i n m prev head b b' (line ∷ rest) same h = cc

  abbrev pub snoc? : Option (List (Line c)) → Line c → Option (List (Line c))
  snoc? none line = none
  snoc? (some rs) line = some (rs ++ line ∷ [])

  prepend-snoc? :
      (first line : Line c) (o : Option (List (Line c)))
      → prepend c first (snoc? o line) ≡ snoc? (prepend c first o) line
  prepend-snoc? first line none = refl
  prepend-snoc? first line (some rs) = refl

  pub parsed-snoc :
      (xs : List (Line c)) (b : Body) (p stored : Option String)
      → parsed c (xs ++ entry b p stored ∷ []) ≡ snoc? (parsed c xs) (entry b p stored)
  unfolding parsed
  parsed-snoc [] b p stored = refl
  parsed-snoc (blank ∷ xs) b p stored = parsed-snoc xs b p stored
  parsed-snoc (broken ∷ xs) b p stored = refl
  parsed-snoc (no_object ∷ xs) b p stored =
      rw (parsed-snoc xs b p stored) (prepend-snoc? _ _ (parsed c xs))
  parsed-snoc (entry b' p' s' ∷ xs) b p stored =
      rw (parsed-snoc xs b p stored) (prepend-snoc? _ _ (parsed c xs))

  -- The file's last line ends in a newline.
  abbrev pub Terminated : Option (File c) → Type 0
  Terminated none = Unit
  Terminated (some f) = f.unterminated ≡ false

  -- The log holds `n` records, its chain verifies, and the logger will chain onto its head.
  pub record IsSound (n : ℕ) (l : Logger c) : Type 0 where
    pub verified : verify_chain_details c l ≡ intact n l.prev_hash
    pub terminated : Terminated l.file

  -- Both kinds of logger start sound and empty.
  pub null_log-IsSound : IsSound 0 (null_log c)
  unfolding null_log verify_chain_details
  null_log-IsSound = record { verified = refl; terminated = tt }

  walked-snoc :
      (m : ℕ) (head : String) (b b' : Body) (o : Option (List (Line c)))
      → canonical b' ≡ canonical b
      → walked c o ≡ intact m head
      → walked c (snoc? o (entry b' (some head) (some (hash c head (canonical b)))))
        ≡ intact (suc m) (hash c head (canonical b))
  unfolding walk
  walked-snoc m head b b' none same h = cc
  walked-snoc m head b b' (some rs) same h = walk-snoc 1 0 m genesis head b b' rs same h

  module _ (reloaded : (b : Body) → canonical (reload b) ≡ canonical b) where
    pub file_append :
        (n : ℕ) (b : Body) (prev : String) (file : Option (File c))
        → verify_file c file ≡ intact n prev
        → Terminated file
        → verify_file c (
            some (
              append_line c (entry (reload b) (some prev) (some (hash c prev (canonical b)))) file))
          ≡ intact (suc n) (hash c prev (canonical b))
    unfolding append_line walk parsed
    file_append n b prev none h t = walk-snoc 1 0 n genesis prev b (reload b) [] (reloaded b) h
    file_append n b prev (some f) h t =
        rw (t, parsed-snoc f.lines (reload b) (some prev) (some (hash c prev (canonical b))))
          (walked-snoc n prev b (reload b) (parsed c f.lines) (reloaded b) h)

    pub appended_terminated :
        (line : Line c) (file : Option (File c)) → (append_line c line file).unterminated ≡ false
    unfolding append_line
    appended_terminated line none = refl
    appended_terminated line (some f) = ground arith
