-- ===== src/Reconcile/Tests.antt =====
-- The theorems on models/observation.py and models/reconcile.py at concrete feeds.
use far_away.Prelude.{
  ℕ, ◌+◌, ◌-◌, ◌/◌, ◌^◌, String, ◌≡◌, refl, Bool, true, false, Option, none, some, List, [], ◌∷◌,
  ◌==◌, leb, ltb,
}
use far_away.Reconcile.Policy.{Numbers, tolerance_of, authority_of, source_authority}
use far_away.Core.Dict.{find}
use far_away.Reconcile.Observation.{
  Observation, unset, entire, Naming, new_store, ingest, is_retraction, retracted_fields,
}
use far_away.Reconcile.Ranking.{by_authority, FieldSelection, key_lt, key_eq, place, ranked_by}
use far_away.Reconcile.Select.{
  select, reported, numeric_delta, candidates, reports_later, withdraws, withdrawn_sources, agrees,
  distinct, corroboration_for, key_of, cautious, deciding_rule, alternatives_to, selection_of,
  standing,
}
use far_away.Reconcile.History.{minor}
use far_away.Reconcile.Timeline.{build_history, Revision, update}
use far_away.Audit.Log.{Codec}
use far_away.Reconcile.Audited.{Outside}
use far_away.Reconcile.Ledger.{IsLedger, ingest-IsLedger, ingest-ingest}
use far_away.Reconcile.Numbered.{Tells, beginning, build_history-Tells}
use far_away.Reconcile.Withdrawn.{IsSelected, select-IsSelected}

abbrev same_number : Option ℕ → Option ℕ → Bool
same_number none none = true
same_number (some a) (some b) = a == b
same_number a b = false

abbrev is_none : Option ℕ → Bool
is_none none = true
is_none (some n) = false

-- Whole numbers and a missing value.
abbrev wholes : Numbers
wholes = record {
  Value = Option ℕ;
  Real = ℕ;
  null = none;
  is_null = is_none;
  same_value = same_number;
  shown = λ v. "";
  to_float = λ v. v;
  distance = λ a b. (a - b) + (b - a);
  at_most = leb;
  below = ltb;
  rounded = λ a. a;
  decimal = λ m k. m / 10 ^ k;
}

-- A report of a magnitude, and one that withdraws everything its source said.
abbrev says : String → ℕ → Observation (Option ℕ)
says source m = record {
  source = source;
  source_event_id = "e1";
  observed_at = "2026-01-01T00:00:00Z";
  received_at = "2026-01-01T00:01:00Z";
  fields = ("magnitude", some m) ∷ [];
  retracted = unset;
  obs_id = "";
}

abbrev withdraws_all : String → Observation (Option ℕ)
withdraws_all source = record (says source 0) {
  retracted = entire;
  observed_at = "2026-01-01T00:02:00Z";
}

-- Hashes that are the sources.
abbrev by_source : Naming (Option ℕ)
by_source = record { content_hash = λ source event at fields marker. source; numbered = λ n. "obs" }

abbrev feed : List (Observation (Option ℕ))
feed = says "usgs" 6 ∷ says "emsc" 7 ∷ says "usgs" 6 ∷ []

ingest-IsLedger_example :
    IsLedger by_source feed (ingest by_source feed (new_store by_source "INC-1"))
ingest-IsLedger_example = ingest-IsLedger by_source "INC-1" feed

ingest-ingest_example :
    (let s = ingest by_source feed (new_store by_source "INC-1") in
      ingest by_source feed s ≡ record s { duplicates_suppressed = s.duplicates_suppressed + 3 })
ingest-ingest_example = ingest-ingest by_source "INC-1" feed

abbrev advice : Option ℕ → String × ℕ
advice v = ("NO_ACTIONABLE_WARNING", 0)

build_history-Tells_example :
    Tells wholes advice "INC-1" 1 []
      (beginning wholes advice "INC-1" 0)
      feed
      (build_history wholes advice "INC-1" 0 feed)
build_history-Tells_example = build_history-Tells wholes advice "INC-1" 0 feed

-- USGS has withdrawn its magnitude, and the word of EMSC stands.
abbrev withdrawn_feed : List (Observation (Option ℕ))
withdrawn_feed = says "usgs" 6 ∷ says "emsc" 7 ∷ withdraws_all "usgs" ∷ []

abbrev emsc_word : FieldSelection wholes
emsc_word = record {
  field_name = "magnitude";
  value = some 7;
  source = "emsc";
  obs_id = "";
  observed_at = "2026-01-01T00:00:00Z";
  rule = by_authority;
  corroboration = 1;
  alternatives = [];
}

select-IsSelected_example : IsSelected wholes "magnitude" withdrawn_feed emsc_word
unfolding select reported numeric_delta candidates reports_later withdraws withdrawn_sources agrees
    distinct corroboration_for key_of cautious deciding_rule alternatives_to selection_of standing
    is_retraction retracted_fields find key_lt key_eq place ranked_by tolerance_of authority_of
    source_authority
select-IsSelected_example = select-IsSelected wholes withdrawn_feed "magnitude" emsc_word refl

-- Bodies that are texts, under a digest that is always the same text.
abbrev texts : Codec
texts = record { Body = String; canonical = λ b. b; reload = λ b. b; digest = λ s. "1" }

abbrev outside : Outside wholes texts
outside = record {
  reason_of = λ r. "";
  message_id = λ n. "id";
  stamp = λ n. "now";
  to_dict = λ m. m.sender;
}

abbrev one_revision : List (Revision wholes)
one_revision =
    record {
      seq = 1;
      at = "now";
      causing_obs_id = "obs-001";
      source = "usgs";
      kind = update;
      changes = [];
      classification = minor;
      recommendation_before = "ORDER_BY_DEADLINE";
      recommendation_after = "ORDER_BY_DEADLINE";
    }
    ∷ []
