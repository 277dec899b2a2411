-- ===== src/Runtime/Isolation.antt =====
-- multi_incident/manager.py: what the manager's operations do to each incident.
use far_away.Prelude.{
  String, ◌≡◌, refl, ap, ◌∙◌, true, false, Option, none, some, [], ◌∷◌, str_eq, Bool-cases, if-ind,
  Option-cases, inl, inr,
}
use mathlib.Core.Option.{some-ne-none}
use text.Mathlib.TextPositions.{eq_refl}
use far_away.Core.Dict.{Dict, find, put, pop, find-put}
use far_away.Runtime.Incidents.{
  IncidentSeed, Source, IncidentRuntime, IncidentManager, Systems, Activated, activated,
  already_active, nothing_to_activate, resolve_seed, new_incident, activate_seed, activate, retired,
  deactivate, signals, seed,
}
use far_away.Core.Contracts.{Module, all, cyclone_flood, earthquake, fire_collapse}
use far_away.Runtime.Triggers.{
  Signals, module_a_active, module_b_active, module_c_active, should_activate, first_active,
  predicates,
}

pop-put {ℓ} :
    {V : Type ℓ} (key : String) (v : V) (d : Dict V) → find key d ≡ none → pop key (put key v d) ≡ d
unfolding find put pop
pop-put key v [] h = rw (eq_refl key)
pop-put key v ((k, w) ∷ d) h = elim (Bool-cases (str_eq k key)) [
  | inl e ↦ absurd (some-ne-none w (rw e at h))
  | inr e ↦ rw e (rw e (ap (λ x. (k, w) ∷ x) (pop-put key v d (rw e at h))))
]

-- The signals trigger a module, and none before it in the order of their urgency.
abbrev pub TriggersFirst : Signals → Module → Type 0
TriggersFirst s all = ⊥
TriggersFirst s earthquake = (module_b_active s).0 ≡ true
TriggersFirst s fire_collapse = ((module_b_active s).0 ≡ false) × ((module_c_active s).0 ≡ true)
TriggersFirst s cyclone_flood =
    ((module_b_active s).0 ≡ false)
    × ((module_c_active s).0 ≡ false)
    × ((module_a_active s).0 ≡ true)

-- A seed names its module, and signals trigger theirs.
abbrev pub Triggers : {D : Type 0} → Source D → Module → Type 0
Triggers (seed s) m = s.module_of ≡ m
Triggers (signals s) m = TriggersFirst s m

-- The signals trigger no module.
abbrev pub TriggersNone : {D : Type 0} → Source D → Type 0
TriggersNone (seed s) = ⊥
TriggersNone (signals s) =
    ((module_b_active s).0 ≡ false)
    × ((module_c_active s).0 ≡ false)
    × ((module_a_active s).0 ≡ false)

module _ {D W : Type 0} (systems : Systems D W) (incident_id : String) (source : Source D)
    (m : IncidentManager D W) where
  -- What `activate` does, by its three ends.
  pub data Activates : IncidentManager D W × Activated D W → Type 0 where
    known : (r : IncidentRuntime D W) → find incident_id m ≡ some r → Activates (m, already_active)
    untriggered :
        find incident_id m ≡ none → TriggersNone source → Activates (m, nothing_to_activate)
    fresh :
        (r : IncidentRuntime D W) (m' : IncidentManager D W)
        → find incident_id m ≡ none
        → r.active ≡ true
        → Triggers source r.module_of
        → find incident_id m' ≡ some r
        → ((other : String) → str_eq incident_id other ≡ false → find other m' ≡ find other m)
        → deactivate incident_id m' ≡ (m, some (retired r))
        → Activates (m', activated r)

  -- What the resolution of a source says of it.
  abbrev Resolves : Source D → Option (IncidentSeed D) → Type 0
  Resolves source none = TriggersNone source
  Resolves source (some s) = Triggers source s.module_of

  resolve_seed-Resolves : (source : Source D) → Resolves source (resolve_seed systems source)
  unfolding resolve_seed should_activate first_active predicates
  resolve_seed-Resolves (seed s) = refl
  resolve_seed-Resolves (signals s) =
      let P : Option Module → Type 0 = λ o.
        Resolves (signals s) (elim o as (λ _. Option (IncidentSeed D)) [
          | none ↦ none
          | some m ↦ some (record { module_of = m; details = systems.details_of m s })
        ]) in
      if-ind P (module_b_active s).0 (λ b. b)
        (λ b.
          if-ind P (module_c_active s).0 (λ c. (b, c))
            (λ c. if-ind P (module_a_active s).0 (λ a. (b, c, a)) (λ a. (b, c, a))))

  activate_seed-Activates :
      (o : Option (IncidentSeed D))
      → Resolves source o
      → find incident_id m ≡ none
      → Activates (activate_seed systems incident_id o m)
  unfolding activate_seed new_incident deactivate retired
  activate_seed-Activates none e h = untriggered h e
  activate_seed-Activates (some s) e h =
      let r = new_incident systems incident_id s in
      let found : find incident_id (put incident_id r m) ≡ some r =
        find-put incident_id incident_id r m ∙ rw (eq_refl incident_id) in
      fresh r (put incident_id r m) h refl e found
        (λ other apart. find-put incident_id other r m ∙ rw apart)
        (rw (pop-put incident_id r m h, found))

  -- An id that is in use is refused, and so are signals that trigger nothing, and then the incidents
  -- stay as they were. Else there is a new active incident under the id, of the seed's module or of the
  -- first module that the signals trigger; every other incident stays
  -- as it was, and a deactivation of the id drops the incident, inactive and stopped, and takes the
  -- manager back to where it was.
  pub activate-Activates : Activates (activate systems incident_id source m)
  unfolding activate
  activate-Activates = elim (Option-cases (find incident_id m)) [
    | inl h ↦
        rw h
          (activate_seed-Activates (resolve_seed systems source) (resolve_seed-Resolves source) h)
    | inr (r, h) ↦ rw h (known r h)
  ]
