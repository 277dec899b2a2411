-- ===== src/Audit/Log.antt =====
-- audit/decision_log.py: `DecisionLogger` over its JSONL file, or over its in-memory list.
-- The file is the list of its lines; what the JSON library makes of a line is a constructor.
use Prim.Native.String.{◌++◌ as concat}
use far_away.Prelude.{
  ℕ, suc, String, Bool, true, false, not, ◌&&◌, Option, none, some, List, [], ◌∷◌, ◌++◌, str_eq,
  if◌then◌else◌, ◌==◌,
}

-- `json`, `hashlib` and the messages: the dict of a message, its canonical text
-- (`dumps(sort_keys=True, ...)`), what `loads` makes of its stored text, and the hexadecimal
-- SHA-256 of a text.
pub record Codec : Type 1 where
  pub Body : Type 0
  pub canonical : Body → String
  pub reload : Body → Body
  pub digest : String → String

-- `GENESIS`
abbrev pub genesis : String
genesis = "0000000000000000000000000000000000000000000000000000000000000000"

-- How a write to the file ends: it is done; or it raises, and nothing of the line is in the file, or
-- a part of it, or all of it, with its newline or without.
pub data Write : Type 0 where
  written refused partial_line : Write
  unacknowledged : (terminated : Bool) → Write

module _ (c : Codec) where
  open c use {Body, canonical, reload, digest}

  -- `_hash`
  abbrev pub hash : String → String → String
  hash prev body = digest (concat prev body)

  -- A line of the log: white space, a text that is no JSON, JSON that is no object, or an object
  -- with its `_prev` and `_hash` taken out. A line that is an array of pairs, which the verification's
  -- `dict` takes for an object, is not modelled.
  pub data Line : Type 0 where
    blank broken no_object : Line
    entry : Body → (prev stored : Option String) → Line

  -- A file; it is unterminated when its last line has no newline.
  pub record File : Type 0 where
    pub lines : List Line
    pub unterminated : Bool

  -- `DecisionLogger`: `path` is empty exactly when it is in memory; `file` is `none` as long as the
  -- path does not exist.
  pub record Logger : Type 0 where
    pub in_memory : Bool
    pub file : Option File
    pub memory : List Line
    pub prev_hash : String

  -- The receipt of `verify_chain_details`.
  pub record Receipt : Type 0 where
    pub valid : Bool
    pub entries_checked : ℕ
    pub head_hash : String
    pub failure_index : Option ℕ

  abbrev pub or_else : Option String → String → String
  or_else none d = d
  or_else (some h) d = h

  -- the loop of `_load_tip`; `none` where `.get` fails on what is no object
  unfoldable pub tip_from : String → List Line → Option String
  tip_from tip [] = some tip
  tip_from tip (blank ∷ rest) = tip_from tip rest
  tip_from tip (broken ∷ rest) = some tip
  tip_from tip (no_object ∷ rest) = none
  tip_from tip (entry body prev stored ∷ rest) = tip_from (or_else stored tip) rest

  -- `_load_tip`
  unfoldable pub load_tip : Option File → Option String
  unfolding tip_from
  load_tip none = some genesis
  load_tip (some f) = tip_from genesis f.lines

  abbrev pub opened : Option File → Option String → Option Logger
  opened file none = none
  opened file (some tip) =
      some (record { in_memory = false; file = file; memory = []; prev_hash = tip })

  -- `DecisionLogger(path)`
  unfoldable pub open_log : Option File → Option Logger
  unfolding load_tip
  open_log file = opened file (load_tip file)

  -- `DecisionLogger.null()`
  unfoldable pub null_log : Logger
  null_log = record { in_memory = true; file = none; memory = []; prev_hash = genesis }

  -- the loop of `torn_lines`, whose counter is `torn`
  unfoldable pub torn_from : ℕ → List Line → ℕ
  torn_from torn [] = torn
  torn_from torn (blank ∷ rest) = torn_from torn rest
  torn_from torn (broken ∷ rest) = torn_from (suc torn) rest
  torn_from torn (line ∷ rest) = torn_from (if torn == 0 then 0 else suc torn) rest

  -- `torn_lines`
  unfoldable pub torn_lines : Option File → ℕ
  unfolding torn_from
  torn_lines none = 0
  torn_lines (some f) = torn_from 0 f.lines

  -- the lines that `truncate_torn_tail` keeps
  unfoldable pub keep : List Line → List Line
  keep [] = []
  keep (blank ∷ rest) = keep rest
  keep (broken ∷ rest) = []
  keep (no_object ∷ rest) = no_object ∷ keep rest
  keep (entry body prev stored ∷ rest) = entry body prev stored ∷ keep rest

  abbrev pub rewound : Logger → Option File → Option String → ℕ → Option (Logger × ℕ)
  rewound l file none torn = none
  rewound l file (some tip) torn = some (record l { file = file; prev_hash = tip }, torn)

  abbrev pub kept : Option File → List Line
  kept none = []
  kept (some f) = keep f.lines

  -- `truncate_torn_tail`, on a log that has a path
  unfoldable pub truncate_torn_tail : Logger → Option (Logger × ℕ)
  unfolding torn_lines load_tip keep
  truncate_torn_tail l =
      let torn = torn_lines l.file in
      let file = some (record { lines = kept l.file; unterminated = false }) in
      if torn == 0 then some (l, 0) else rewound l file (load_tip file) torn

  -- What a new text makes of the last line, where that has no newline.
  unfoldable pub spoil_last : List Line → List Line
  spoil_last [] = []
  spoil_last (line ∷ []) = broken ∷ []
  spoil_last (line ∷ next ∷ rest) = line ∷ spoil_last (next ∷ rest)

  -- `open(path, "a")` and `write(... + "\n")`
  unfoldable pub append_line : Line → Option File → File
  unfolding spoil_last
  append_line line none = record { lines = line ∷ []; unterminated = false }
  append_line line (some f) =
      if f.unterminated
      then record { lines = spoil_last f.lines; unterminated = false }
      else record { lines = f.lines ++ line ∷ []; unterminated = false }

  -- A hard kill in the middle of a write: a part of the line, and no newline.
  unfoldable pub torn_write : Option File → File
  unfolding append_line
  torn_write file = record { lines = (append_line broken file).lines; unterminated = true }

  -- what a write leaves of the file; an empty file that `open` creates is taken for none
  unfoldable pub file_after : Write → Line → Option File → Option File
  unfolding append_line torn_write
  file_after written line file = some (append_line line file)
  file_after refused line file = file
  file_after partial_line line file = some (torn_write file)
  file_after (unacknowledged terminated) line file =
      some (record { lines = (append_line line file).lines; unterminated = not terminated })

  abbrev pub is_done : Write → Bool
  is_done written = true
  is_done w = false

  -- `_persist`, and whether it returns; otherwise it raises `AuditWriteError`
  unfoldable pub persist : Write → Body → (prev stored : String) → Logger → Logger × Bool
  unfolding file_after
  persist w body prev stored l =
      if l.in_memory
      then (record l { memory = l.memory ++ entry body (some prev) (some stored) ∷ [] }, true)
      else (
        record l { file = file_after w (entry (reload body) (some prev) (some stored)) l.file },
        is_done w,
      )

  abbrev pub advanced : String → Logger × Bool → Logger × Option String
  advanced stored (l, true) = (record l { prev_hash = stored }, some stored)
  advanced stored (l, false) = (l, none)

  -- `record`, and the part of `log_prediction` below its dict; it returns the record's `_hash`
  unfoldable pub append : Write → Body → Logger → Logger × Option String
  unfolding persist
  append w body l =
      let stored = hash l.prev_hash (canonical body) in
      advanced stored (persist w body l.prev_hash stored l)

  abbrev pub prepend : Line → Option (List Line) → Option (List Line)
  prepend line none = none
  prepend line (some more) = some (line ∷ more)

  -- `[json.loads(line) for line in fh if line.strip()]`, `none` where that raises
  unfoldable pub parsed : List Line → Option (List Line)
  parsed [] = some []
  parsed (blank ∷ rest) = parsed rest
  parsed (broken ∷ rest) = none
  parsed (no_object ∷ rest) = prepend no_object (parsed rest)
  parsed (entry body prev stored ∷ rest) = prepend (entry body prev stored) (parsed rest)

  abbrev pub failed_at : ℕ → ℕ → String → Receipt
  failed_at index checked prev = record {
    valid = false;
    entries_checked = checked;
    head_hash = prev;
    failure_index = some index;
  }

  -- the loop of `verify_chain_details`
  unfoldable pub walk : (index checked : ℕ) → String → List Line → Receipt
  walk index checked prev [] = record {
    valid = true;
    entries_checked = checked;
    head_hash = prev;
    failure_index = none;
  }
  walk index checked prev (entry body (some p) (some stored) ∷ rest) =
      let next = walk (suc index) (suc checked) stored rest in
      if str_eq p prev && str_eq (hash prev (canonical body)) stored
      then next
      else failed_at index checked prev
  walk index checked prev (line ∷ rest) = failed_at index checked prev

  abbrev pub walked : Option (List Line) → Receipt
  walked none = failed_at 1 0 genesis
  walked (some records) = walk 1 0 genesis records

  abbrev pub verify_file : Option File → Receipt
  verify_file none = walk 1 0 genesis []
  verify_file (some f) = walked (parsed f.lines)

  -- `verify_chain_details`
  unfoldable pub verify_chain_details : Logger → Receipt
  unfolding walk parsed
  verify_chain_details l = if l.in_memory then walk 1 0 genesis l.memory else verify_file l.file
