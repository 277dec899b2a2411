-- ===== src/Commander/Emit.antt =====
-- The two outcomes of `emit`.
use far_away.Prelude.{
  suc, String, ◌≡◌, refl, sym, if-ind, ap, true, false, [], ◌∷◌, ◌++◌, str_eq, if◌then◌else◌,
}
use far_away.Commander.State.{Sent, Commander, Env}
use far_away.Commander.Agent.{returned, raised, emit}
use far_away.Commander.Pending.{emitted}

module _ (env : Env) (m : Sent) (s : Commander) where
  -- `emit` fills in an empty sender.
  abbrev pub with_sender : Sent
  with_sender = record m { sender = if str_eq m.sender "" then s.name else m.sender }

  pub with_sender_lem : m.sender ≡ s.name → with_sender ≡ m
  with_sender_lem h =
      ap (λ (name : String). record m { sender = name })
        (if-ind (λ name. name ≡ m.sender) (str_eq m.sender "") (λ _. sym h) (λ _. refl))

  pub emit_written :
      env.write_ok s.writes ≡ true
      → emit env m s ≡ (
        record s {
          writes = suc s.writes;
          audited = s.audited ++ with_sender ∷ [];
          published = s.published ++ with_sender ∷ [];
        },
        true,
      )
  unfolding emit
  emit_written h = rw h

  pub emit_failed :
      env.write_ok s.writes ≡ false → emit env m s ≡ (record s { writes = suc s.writes }, false)
  unfolding emit
  emit_failed h = rw h

  pub emitted_written :
      env.write_ok s.writes ≡ true
      → emitted m (emit env m s) ≡ (
        record s {
          writes = suc s.writes;
          audited = s.audited ++ with_sender ∷ [];
          published = s.published ++ with_sender ∷ [];
        },
        returned (m ∷ []),
      )
  emitted_written h = ap (emitted m) (emit_written h)

  pub emitted_failed :
      env.write_ok s.writes ≡ false
      → emitted m (emit env m s) ≡ (record s { writes = suc s.writes }, raised)
  emitted_failed h = ap (emitted m) (emit_failed h)
