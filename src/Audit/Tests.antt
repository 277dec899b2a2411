-- ===== src/Audit/Tests.antt =====
-- The theorems on audit/decision_log.py at concrete logs.
use far_away.Prelude.{String, ◌≡◌, refl, true, false, ◌⊎◌, none, some, [], ◌∷◌}
use far_away.Audit.Log.{
  Codec, written, partial_line, entry, blank, File, Logger, genesis, append, verify_file, walk,
  parsed, verify_chain_details, truncate_torn_tail, torn_write, open_log,
}
use far_away.Audit.Chain.{intact, IsSound}
use far_away.Audit.Tamper.{hashed_texts, Collision, log_records, receipt_determines_records}
use far_away.Audit.Writes.{Recorded, append-Recorded}
use far_away.Audit.Recovery.{resumed, repaired, torn_write_recovers, append_after_torn_loses}

-- Messages that are their canonical texts, under a digest that is always the same text.
abbrev plain : Codec
plain = record {
  Body = String;
  canonical = λ b. b;
  reload = λ b. b;
  digest = λ s. "1111111111111111111111111111111111111111111111111111111111111111";
}

abbrev ones : String
ones = "1111111111111111111111111111111111111111111111111111111111111111"

-- A log file of one record, with a blank line.
abbrev one_line : File plain
one_line = record {
  lines = blank ∷ entry "first" (some genesis) (some ones) ∷ [];
  unterminated = false;
}

one_line_holds : verify_file plain (some one_line) ≡ intact plain 1 ones
unfolding walk parsed
one_line_holds = refl

abbrev in_file : Logger plain
in_file = resumed plain ones one_line

in_file-IsSound : IsSound plain 1 in_file
unfolding verify_chain_details walk parsed
in_file-IsSound = record { verified = refl; terminated = refl }

append-Recorded_example :
    Recorded plain 1 partial_line false (append plain partial_line "second" in_file)
append-Recorded_example =
    append-Recorded plain (λ b. refl) 1 partial_line "second" in_file in_file-IsSound

abbrev in_memory_log : Logger plain
in_memory_log = record {
  in_memory = true;
  file = none;
  memory = entry "first" (some genesis) (some ones) ∷ [];
  prev_hash = ones;
}

receipt_determines_records_example :
    (log_records plain in_file ≡ log_records plain in_memory_log)
    ⊎ Collision plain
        (hashed_texts plain (log_records plain in_file))
        (hashed_texts plain (log_records plain in_memory_log))
unfolding verify_chain_details walk parsed
receipt_determines_records_example =
    receipt_determines_records plain (λ s. refl) 1 ones in_file in_memory_log refl refl

torn_write_recovers_example :
    (open_log plain (some (torn_write plain (some one_line)))
      ≡ some (resumed plain ones (torn_write plain (some one_line))))
    × ((verify_chain_details plain (resumed plain ones (torn_write plain (some one_line)))).valid
        ≡ false)
    × (truncate_torn_tail plain (resumed plain ones (torn_write plain (some one_line)))
        ≡ some (resumed plain ones (repaired plain one_line), 1))
    × IsSound plain 1 (resumed plain ones (repaired plain one_line))
torn_write_recovers_example = torn_write_recovers plain one_line 1 ones refl one_line_holds

append_after_torn_loses_example :
    (let l =
        append plain written "second" (resumed plain ones (torn_write plain (some one_line))) in
      (l.1 ≡ some ones)
      × ((verify_chain_details plain l.0).valid ≡ false)
      × (truncate_torn_tail plain l.0 ≡ some (resumed plain ones (repaired plain one_line), 1))
      × IsSound plain 1 (resumed plain ones (repaired plain one_line)))
append_after_torn_loses_example =
    append_after_torn_loses plain one_line 1 ones refl one_line_holds "second"
