-- ===== src/Reconcile/Ledger.antt =====
-- models/observation.py: what the append-only store keeps of a feed that may repeat its reports.
use far_away.Prelude.{
  suc, ◌+◌, String, ◌≡◌, refl, ap, sym, ◌∙◌, Bool, true, ◌||◌, Option, List, [], ◌∷◌, ◌++◌, str_eq,
  arith, length, any, All, All-map, All-snoc, if-ind, length-append, any-append, all_distinct,
  all_distinct-snoc,
}
use text.Mathlib.TextPositions.{eq_refl}
use mathlib.Core.Path.{subst}
use mathlib.Core.List.{append-nil, append_assoc}
use far_away.Reconcile.Observation.{
  Observation, Naming, Store, hash_of, new_store, append, reports_received, ingest,
}

module _ {V : Type 0} (naming : Naming V) where
  -- A stored hash is the report's.
  abbrev pub is_known : List String → Observation V → Bool
  is_known hashes o = any (λ h. str_eq h (hash_of naming o)) hashes

  abbrev hashes_of : List (Observation V) → List String
  hashes_of [] = []
  hashes_of (o ∷ rest) = hash_of naming o ∷ hashes_of rest

  -- What a store says of the reports it has received: it holds a hash for each stored observation, no
  -- hash twice, counts each report as stored or as suppressed, and knows each of them.
  pub record IsLedger (received : List (Observation V)) (s : Store V) : Type 0 where
    pub hashed : s.hashes ≡ hashes_of s.observations
    pub distinct_hashes : all_distinct s.hashes ≡ true
    pub counted : reports_received naming s ≡ length received
    pub knows : All (λ o. is_known s.hashes o ≡ true) received

  hashes_of-snoc :
      (os : List (Observation V)) (o : Observation V)
      → hashes_of (os ++ o ∷ []) ≡ hashes_of os ++ hash_of naming o ∷ []
  hashes_of-snoc [] o = refl
  hashes_of-snoc (x ∷ os) o = ap (λ hs. hash_of naming x ∷ hs) (hashes_of-snoc os o)

  stays_known :
      (hashes : List String) (h : String) (o : Observation V)
      → is_known hashes o ≡ true
      → is_known (hashes ++ h ∷ []) o ≡ true
  stays_known hashes h o k =
      any-append (λ h. str_eq h (hash_of naming o)) hashes (h ∷ [])
      ∙ ap (λ b. b || any (λ h. str_eq h (hash_of naming o)) (h ∷ [])) k

  new_store-IsLedger : (incident_id : String) → IsLedger [] (new_store naming incident_id)
  unfolding new_store reports_received
  new_store-IsLedger incident_id = record {
    hashed = refl;
    distinct_hashes = refl;
    counted = refl;
    knows = tt;
  }

  known_now :
      (hashes : List String) (o : Observation V)
      → is_known (hashes ++ hash_of naming o ∷ []) o ≡ true
  known_now hashes o =
      any-append (λ h. str_eq h (hash_of naming o)) hashes (hash_of naming o ∷ [])
      ∙ ground (arith, eq_refl (hash_of naming o))

  append-IsLedger :
      (received : List (Observation V)) (o : Observation V) (s : Store V)
      → IsLedger received s
      → IsLedger (received ++ o ∷ []) (append naming o s).0
  unfolding append reports_received hash_of
  append-IsLedger received o s l =
      if-ind (λ (r : Store V × Option (Observation V)). IsLedger (received ++ o ∷ []) r.0)
        (is_known s.hashes o)
        (λ known. record {
          hashed = l.hashed;
          distinct_hashes = l.distinct_hashes;
          counted = omega (arith, l.counted, length-append received (o ∷ []));
          knows = All-snoc (λ o. is_known s.hashes o ≡ true) received o l.knows known;
        })
        (λ new. record {
          hashed =
              ap (λ hs. hs ++ hash_of naming o ∷ []) l.hashed
              ∙ sym (hashes_of-snoc s.observations _);
          distinct_hashes = all_distinct-snoc (hash_of naming o) s.hashes new l.distinct_hashes;
          counted =
              omega
                (arith, l.counted, length-append received (o ∷ []), length-append s.observations);
          knows =
              All-snoc (λ o'. is_known (s.hashes ++ hash_of naming o ∷ []) o' ≡ true) received o
                (All-map (stays_known s.hashes (hash_of naming o)) received l.knows)
                (known_now s.hashes o);
        })

  ingest_from :
      (received reports : List (Observation V)) (s : Store V)
      → IsLedger received s
      → IsLedger (received ++ reports) (ingest naming reports s)
  unfolding ingest
  ingest_from received [] s l = subst (λ r. IsLedger r s) (sym (append-nil received)) l
  ingest_from received (o ∷ rest) s l =
      subst (λ r. IsLedger r (ingest naming rest (append naming o s).0))
        (append_assoc received (o ∷ []) rest)
        (ingest_from (received ++ o ∷ []) rest (append naming o s).0
          (append-IsLedger received o s l))

  -- A store that has ingested a feed holds the hash of each stored observation, in order, and no hash
  -- twice; stored observations and suppressed duplicates together are as many as the reports; and the
  -- hash of every report is among the stored ones.
  pub ingest-IsLedger :
      (incident_id : String) (reports : List (Observation V))
      → IsLedger reports (ingest naming reports (new_store naming incident_id))
  ingest-IsLedger incident_id reports =
      ingest_from [] reports (new_store naming incident_id) (new_store-IsLedger incident_id)

  append_known :
      (o : Observation V) (s : Store V)
      → is_known s.hashes o ≡ true
      → (append naming o s).0 ≡ record s { duplicates_suppressed = suc s.duplicates_suppressed }
  unfolding append hash_of
  append_known o s known = rw known

  ingest_known :
      (reports : List (Observation V)) (s : Store V)
      → All (λ o. is_known s.hashes o ≡ true) reports
      → ingest naming reports s
        ≡ record s { duplicates_suppressed = s.duplicates_suppressed + length reports }
  unfolding ingest
  ingest_known [] s known = ap (λ n. record s { duplicates_suppressed = n }) (omega arith)
  ingest_known (o ∷ rest) s known =
      let again : Store V = record s { duplicates_suppressed = suc s.duplicates_suppressed } in
      ap (ingest naming rest) (append_known o s known.0)
      ∙ ingest_known rest again known.1
      ∙ ap (λ n. record s { duplicates_suppressed = n }) (omega arith)

  -- A feed that is delivered a second time stores nothing: it only counts its reports as duplicates.
  pub ingest-ingest :
      (incident_id : String) (reports : List (Observation V))
      → (let s = ingest naming reports (new_store naming incident_id) in
          ingest naming reports s
          ≡ record s { duplicates_suppressed = s.duplicates_suppressed + length reports })
  ingest-ingest incident_id reports =
      ingest_known reports (ingest naming reports (new_store naming incident_id))
        (ingest-IsLedger incident_id reports).knows
