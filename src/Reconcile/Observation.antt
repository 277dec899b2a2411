-- ===== src/Reconcile/Observation.antt =====
-- models/observation.py: immutable reports and their append-only store.
use far_away.Prelude.{
  ℕ, suc, ◌+◌, String, Bool, true, false, Option, none, some, List, [], ◌∷◌, ◌++◌, str_eq,
  if◌then◌else◌, length, any,
}
use far_away.Core.Dict.{Dict}

-- `payload["retracted"]`: missing or falsy without being a list, `True`, a list of field names, or
-- any other truthy value.
pub data Marker : Type 0 where
  unset entire other : Marker
  named : List String → Marker

-- `Observation`; the payload's other keys are its fields
pub record Observation (V : Type 0) : Type 0 where
  pub source : String
  pub source_event_id : String
  pub observed_at : String
  pub received_at : String
  pub fields : Dict V
  pub retracted : Marker
  pub obs_id : String

abbrev pub keys {ℓ} : {V : Type ℓ} → Dict V → List String
keys [] = []
keys ((k, v) ∷ d) = k ∷ keys d

abbrev marks : Marker → Bool
marks unset = false
marks entire = true
marks other = true
marks (named []) = false
marks (named (k ∷ ks)) = true

-- `Observation.is_retraction`
unfoldable pub is_retraction : {V : Type 0} → Observation V → Bool
is_retraction o = marks o.retracted

abbrev withdrawn_by : {V : Type 0} → Marker → Dict V → List String
withdrawn_by unset fields = []
withdrawn_by entire fields = keys fields
withdrawn_by other fields = []
withdrawn_by (named ks) fields = ks

-- `Observation.retracted_fields`
unfoldable pub retracted_fields : {V : Type 0} → Observation V → List String
retracted_fields o = withdrawn_by o.retracted o.fields

-- `content_hash`, as `hashlib` and `json` compute it from a report's content, and the text
-- f"obs-{n:03d}".
pub record Naming (V : Type 0) : Type 0 where
  pub content_hash : (source source_event_id observed_at : String) → Dict V → Marker → String
  pub numbered : ℕ → String

-- `ObservationStore`
pub record Store (V : Type 0) : Type 0 where
  pub incident_id : String
  pub observations : List (Observation V)
  pub hashes : List String
  pub duplicates_suppressed : ℕ

module _ {V : Type 0} (naming : Naming V) where
  open naming use {content_hash, numbered}

  -- `Observation.content_hash`
  unfoldable pub hash_of : Observation V → String
  hash_of o = content_hash o.source o.source_event_id o.observed_at o.fields o.retracted

  unfoldable pub new_store : String → Store V
  new_store incident_id = record {
    incident_id = incident_id;
    observations = [];
    hashes = [];
    duplicates_suppressed = 0;
  }

  -- `ObservationStore.append`: the stored observation, `none` for an exact replay
  unfoldable pub append : Observation V → Store V → Store V × Option (Observation V)
  unfolding hash_of
  append obs s =
      let stored = record obs {
        obs_id = if str_eq obs.obs_id "" then numbered (length s.observations + 1) else obs.obs_id;
      } in
      if any (λ h. str_eq h (hash_of obs)) s.hashes
      then (record s { duplicates_suppressed = suc s.duplicates_suppressed }, none)
      else (
        record s {
          observations = s.observations ++ stored ∷ [];
          hashes = s.hashes ++ hash_of stored ∷ [];
        },
        some stored,
      )

  -- `ObservationStore.reports_received`
  unfoldable pub reports_received : Store V → ℕ
  reports_received s = length s.observations + s.duplicates_suppressed

  -- `ObservationStore.by_id`
  unfoldable pub by_id : String → List (Observation V) → Option (Observation V)
  by_id obs_id [] = none
  by_id obs_id (o ∷ rest) = if str_eq o.obs_id obs_id then some o else by_id obs_id rest

  -- A feed that is ingested report by report.
  unfoldable pub ingest : List (Observation V) → Store V → Store V
  ingest [] s = s
  ingest (o ∷ rest) s = ingest rest (append o s).0
