-- ===== src/Audit/Recovery.antt =====
-- Restarts, interrupted writes and their repair, on a log file.
use far_away.Prelude.{
  ℕ, String, ◌≡◌, refl, ap, ◌∙◌, Bool, true, false, Option, none, some, List, [], ◌∷◌, ◌++◌,
}
use far_away.Audit.Log.{
  Receipt, walk, Codec, hash, Line, broken, File, Logger, genesis, verify_chain_details, walked,
  verify_file, load_tip, open_log, keep, truncate_torn_tail, torn_write, append_line, append,
  persist, file_after, written,
}
use far_away.Audit.Chain.{intact, IsSound}
use far_away.Audit.Lines.{
  intact_lines, tip_from-torn, keep-torn, torn_from-torn, parsed-torn, parsed-keep, tip_from-keep,
  spoil_last-torn,
}

module _ (c : Codec) where
  open c use {Body, canonical, reload}

  abbrev pub resumed : String → File c → Logger c
  resumed head f = record { in_memory = false; file = some f; memory = []; prev_hash = head }

  -- The file without its blank lines.
  abbrev pub repaired : File c → File c
  repaired f = record { lines = keep c f.lines; unterminated = false }

  -- A log whose file has `lines`, of which the last one is torn.
  abbrev torn_file : File c → Bool → File c
  torn_file f unterminated = record { lines = f.lines ++ broken ∷ []; unterminated = unterminated }

  module _ (f : File c) (n : ℕ) (head : String) (terminated : f.unterminated ≡ false)
      (holds : verify_file c (some f) ≡ intact c n head) where
    torn_write_lem : torn_write c (some f) ≡ torn_file f true
    unfolding torn_write append_line
    torn_write_lem = rw terminated

    reopened : (u : Bool) → open_log c (some (torn_file f u)) ≡ some (resumed head (torn_file f u))
    unfolding open_log
    reopened u =
        let t = intact_lines c n head f.lines holds in
        rw (tip_from-torn c f.lines genesis t.clean, t.tip)

    invalid :
        (next : String) (u : Bool)
        → (verify_chain_details c (resumed next (torn_file f u))).valid ≡ false
    unfolding verify_chain_details
    invalid next u =
        let t = intact_lines c n head f.lines holds in rw (parsed-torn c f.lines t.clean)

    truncated :
        (next : String) (u : Bool)
        → truncate_torn_tail c (resumed next (torn_file f u)) ≡ some (resumed head (repaired f), 1)
    unfolding truncate_torn_tail
    truncated next u =
        let t = intact_lines c n head f.lines holds in
        rw (
          torn_from-torn c f.lines t.clean,
          keep-torn c f.lines t.clean,
          tip_from-keep c f.lines genesis t.clean,
          t.tip,
        )

    IsSound-repaired : IsSound c n (resumed head (repaired f))
    unfolding verify_chain_details
    IsSound-repaired =
        let t = intact_lines c n head f.lines holds in
        record {
          verified = ap (walked c) (parsed-keep c f.lines t.clean) ∙ holds;
          terminated = refl;
        }

    -- From a log that verifies, a write that is killed midway leaves a log that no longer verifies.
    -- Opening it chains onto the old head, and the repair drops one line, after which the log holds
    -- the old records, verifies, and chains onto the old head.
    pub torn_write_recovers :
        (open_log c (some (torn_write c (some f))) ≡ some (resumed head (torn_write c (some f))))
        × ((verify_chain_details c (resumed head (torn_write c (some f)))).valid ≡ false)
        × (truncate_torn_tail c (resumed head (torn_write c (some f)))
            ≡ some (resumed head (repaired f), 1))
        × IsSound c n (resumed head (repaired f))
    torn_write_recovers =
        rw torn_write_lem (reopened true, invalid head true, truncated head true, IsSound-repaired)

    after_torn :
        (b : Body)
        → append c written b (resumed head (torn_file f true)) ≡ (
          record (resumed head (torn_file f false)) { prev_hash = hash c head (canonical b) },
          some (hash c head (canonical b)),
        )
    unfolding append persist file_after append_line
    after_torn b = rw (spoil_last-torn c f.lines)

    -- A record that is written after such a kill and before the repair is lost: the write reports
    -- its hash, the log does not verify, and the repair brings back the log without the record.
    pub append_after_torn_loses :
        (b : Body)
        → (let l = append c written b (resumed head (torn_write c (some f))) in
            (l.1 ≡ some (hash c head (canonical b)))
            × ((verify_chain_details c l.0).valid ≡ false)
            × (truncate_torn_tail c l.0 ≡ some (resumed head (repaired f), 1))
            × IsSound c n (resumed head (repaired f)))
    append_after_torn_loses b =
        rw (torn_write_lem, after_torn b)
          (
            refl,
            invalid (hash c head (canonical b)) false,
            truncated (hash c head (canonical b)) false,
            IsSound-repaired,
          )

  pub reopen_parts :
      (n : ℕ) (file : Option (File c)) (prev : String)
      → verify_file c file ≡ intact c n prev
      → load_tip c file ≡ some prev
  unfolding load_tip walk
  reopen_parts n none prev h = ap (λ (r : Receipt c). some (r.head_hash)) h
  reopen_parts n (some f) prev h = (intact_lines c n prev f.lines h).tip

  reopen_file :
      (n : ℕ) (in_memory : Bool) (file : Option (File c)) (memory : List (Line c)) (prev : String)
      → in_memory ≡ false
      → verify_chain_details c
          (record { in_memory = in_memory; file = file; memory = memory; prev_hash = prev })
        ≡ intact c n prev
      → verify_file c file ≡ intact c n prev
  unfolding verify_chain_details
  reopen_file n true file memory prev e h = cc
  reopen_file n false file memory prev e h = h

  -- A process that restarts on a sound log file opens it as it was: it goes on from the same head.
  pub reopen-IsSound :
      (l : Logger c) (n : ℕ)
      → l.in_memory ≡ false
      → IsSound c n l
      → open_log c l.file
        ≡ some (record { in_memory = false; file = l.file; memory = []; prev_hash = l.prev_hash })
  unfolding open_log
  reopen-IsSound l n e h = rw (
      reopen_parts n l.file l.prev_hash
        (reopen_file n l.in_memory l.file l.memory l.prev_hash e h.verified))
