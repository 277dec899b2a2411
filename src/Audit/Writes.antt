-- ===== src/Audit/Writes.antt =====
-- Recording a message, for each way in which the write to the file can end.
use far_away.Prelude.{
  ℕ, suc, String, ◌≡◌, refl, ap, sym, ◌∙◌, Bool, true, false, not, Option, none, some, List, [],
  ◌⊎◌, inl, inr,
}
use far_away.Audit.Log.{
  Codec, hash, Line, File, Logger, Receipt, genesis, walk, parsed, walked, append, persist,
  append_line, file_after, Write, written, refused, partial_line, unacknowledged, torn_write,
  truncate_torn_tail, torn_lines, torn_from, load_tip, open_log, keep, verify_chain_details,
  verify_file,
}
use far_away.Audit.Chain.{intact, IsSound, Terminated, walk-snoc, file_append, appended_terminated}
use far_away.Audit.Lines.{
  intact_lines, torn_from-torn, keep-torn, tip_from-keep, parsed-torn, parsed-keep,
}
use far_away.Audit.Recovery.{reopen_parts}

module _ (c : Codec) where
  open c use {Body, canonical, reload}

  -- What is left of a sound log of `n` records by a write that raises.
  pub data Left (n : ℕ) (w : Write) (l : Logger c) : Type 0 where
    none_written : w ≡ refused → IsSound c n l → Left n w l
    torn_off :
        w ≡ partial_line
        → (verify_chain_details c l).valid ≡ false
        → (l' : Logger c) → truncate_torn_tail c l ≡ some (l', 1)
        → IsSound c n l'
        → Left n w l
    unreported :
        (terminated : Bool)
        → w ≡ unacknowledged terminated
        → (head : String) → verify_chain_details c l ≡ intact c (suc n) head
        → open_log c l.file
          ≡ some (record { in_memory = false; file = l.file; memory = []; prev_hash = head })
        → Left n w l

  -- What a call of `record` on a sound log of `n` records leaves and returns, for a write that ends as
  -- `w`.
  pub data Recorded (n : ℕ) (w : Write) (in_memory : Bool) (r : Logger c × Option String)
      : Type 0 where
    kept :
        (in_memory ≡ true) ⊎ (w ≡ written)
        → r.1 ≡ some (r.0.prev_hash)
        → IsSound c (suc n) r.0
        → Recorded n w in_memory r
    failed : in_memory ≡ false → r.1 ≡ none → Left n w r.0 → Recorded n w in_memory r

  abbrev Repaired : ℕ → Logger c → Type 0
  Repaired n l =
      ((verify_chain_details c l).valid ≡ false)
      × ((l' : Logger c) × (truncate_torn_tail c l ≡ some (l', 1)) × IsSound c n l')

  torn_file-Repaired :
      (n : ℕ) (file : Option (File c)) (memory : List (Line c)) (prev : String)
      → verify_file c file ≡ intact c n prev
      → Terminated c file
      → Repaired n (record {
        in_memory = false;
        file = some (torn_write c file);
        memory = memory;
        prev_hash = prev;
      })
  unfolding verify_chain_details truncate_torn_tail torn_write append_line torn_lines torn_from
      load_tip keep walk parsed
  torn_file-Repaired n none memory prev h t = (
    refl,
    (
      _,
      refl,
      record {
        verified = h ∙ ap (intact c n) (sym (ap (λ (r : Receipt c). r.head_hash) h));
        terminated = refl;
      },
    ),
  )
  torn_file-Repaired n (some f) memory prev h t =
      let i = intact_lines c n prev f.lines h in
      rw
        (
          t,
          torn_from-torn c f.lines i.clean,
          keep-torn c f.lines i.clean,
          tip_from-keep c f.lines genesis i.clean,
          i.tip,
          parsed-torn c f.lines i.clean,
        )
        (
          refl,
          (
            _,
            refl,
            record {
              verified = ap (walked c) (parsed-keep c f.lines i.clean) ∙ h;
              terminated = refl;
            },
          ),
        )

  module _ (reloaded : (b : Body) → canonical (reload b) ≡ canonical b) where
    append_parts :
        (n : ℕ) (b : Body) (in_memory : Bool) (w : Write) (file : Option (File c))
        (memory : List (Line c)) (prev : String)
        → (let l : Logger c = record {
          in_memory = in_memory;
          file = file;
          memory = memory;
          prev_hash = prev;
        } in
            IsSound c n l → Recorded n w l.in_memory (append c w b l))
    unfolding append persist file_after open_log verify_chain_details walk parsed
    append_parts n b true w file memory prev h = kept (inl refl) refl (record {
      verified = walk-snoc c 1 0 n genesis prev b b memory refl h.verified;
      terminated = h.terminated;
    })
    append_parts n b false written file memory prev h = kept (inr refl) refl (record {
      verified = file_append c reloaded n b prev file h.verified h.terminated;
      terminated = appended_terminated c reloaded _ file;
    })
    append_parts n b false refused file memory prev h =
        failed refl refl
          (none_written refl (record { verified = h.verified; terminated = h.terminated }))
    append_parts n b false partial_line file memory prev h =
        let (invalid, (l', e, sound)) =
          torn_file-Repaired n file memory prev h.verified h.terminated in
        failed refl refl (torn_off refl invalid l' e sound)
    append_parts n b false (unacknowledged u) file memory prev h =
        let whole = file_append c reloaded n b prev file h.verified h.terminated in
        failed refl refl (
          unreported u refl (hash c prev (canonical b)) whole (
            rw
              (reopen_parts c (suc n)
                (some (record { lines = (append_line c _ file).lines; unterminated = not u }))
                (hash c prev (canonical b)) whole)
              refl))

    -- Where `loads` gives back a body with the same canonical text: `record` on a sound log keeps it
    -- sound with one record more and returns the new head, if the log is in memory or the write is
    -- done. Otherwise it raises. If nothing was written, the log is as sound as before. If a part of
    -- the line was written, the log does not verify, and the repair drops one line, after which it is
    -- as sound as before. If all of the line was written, the log verifies with one record more, and a
    -- logger that is opened on it goes on from its head.
    pub append-Recorded :
        (n : ℕ) (w : Write) (b : Body) (l : Logger c)
        → IsSound c n l
        → Recorded n w l.in_memory (append c w b l)
    append-Recorded n w b l h = append_parts n b l.in_memory w l.file l.memory l.prev_hash h
