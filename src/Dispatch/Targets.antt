-- ===== src/Dispatch/Targets.antt =====
-- tier3/dispatch/router.py: the channels that an order selects.
use mathlib.Core.List.{Memᴰ}
use far_away.Prelude.{
  String, ◌≡◌, refl, Bool, true, false, not, ◌&&◌, Option, none, some, List, [], ◌∷◌, str_eq,
  eq_iff, arith, str_eq_sym, if-ind, Bool-ind, any, filter, All, All-append, All-map, All-filter,
  All-members,
}
use far_away.Core.Value.{Value, null, text, list, Items, nil, item}
use far_away.Core.Dict.{Dict, find}
use far_away.Dispatch.Channel.{Channel, Outside, to_text}
use far_away.Core.LowerCase.{lower_text}
use far_away.Dispatch.Router.{
  Line, with_cap, is_everyone, names_of, has_channel, without_repeats, by_key, aliased, aliases,
  select, select_items, citizen_reach, is_default_alert, alert_base, cap_targets,
}

-- No name stands twice.
abbrev pub IsUnique : List String → Type 0
IsUnique [] = Unit
IsUnique (n ∷ ns) = (any (str_eq n) ns ≡ false) × IsUnique ns

any-none :
    (n : String) (ns : List String) → All (λ m. str_eq m n ≡ false) ns → any (str_eq n) ns ≡ false
any-none n [] all = refl
any-none n (m ∷ ns) all = rw (str_eq_sym n m, all.0) (any-none n ns all.1)

any-member : (n : String) (ns : List String) → Memᴰ n ns → any (str_eq n) ns ≡ true
any-member n [] m = elim m [ ]
any-member n (m ∷ ns) (Memᴰ.head e) = ground (arith, eq_iff n m)
any-member n (m ∷ ns) (Memᴰ.tail k) = ground (arith, any-member n ns k)

any-filter :
    (n : String) (test : String → Bool) (ns : List String)
    → any (str_eq n) ns ≡ false
    → any (str_eq n) (filter test ns) ≡ false
any-filter n test [] h = refl
any-filter n test (m ∷ ns) h = ground (arith, any-filter n test ns)

filter-IsUnique :
    (test : String → Bool) (ns : List String) → IsUnique ns → IsUnique (filter test ns)
filter-IsUnique test [] h = tt
filter-IsUnique test (n ∷ ns) h =
    if-ind IsUnique (test n) (λ e. (any-filter n test ns h.0, filter-IsUnique test ns h.1))
      (λ e. filter-IsUnique test ns h.1)

-- What `without_repeats` gives, by whether the first name has been seen.
abbrev tested : List String → String → List String → Bool → List String
tested seen n ns true = without_repeats seen ns
tested seen n ns false = n ∷ without_repeats (n ∷ seen) ns

module _ (P : String → Type 0) where
  without_repeats-All : (seen ns : List String) → All P ns → All P (without_repeats seen ns)
  unfolding without_repeats
  without_repeats-All seen [] all = tt
  without_repeats-All seen (n ∷ ns) all =
      Bool-ind (λ b. All P (tested seen n ns b)) (any (str_eq n) seen)
        (λ e. without_repeats-All seen ns all.1)
        (λ e. (all.0, without_repeats-All (n ∷ seen) ns all.1))

unseen : (seen ns : List String) → All (λ n. any (str_eq n) seen ≡ false) (without_repeats seen ns)
unfolding without_repeats
unseen seen [] = tt
unseen seen (n ∷ ns) =
    Bool-ind (λ b. All (λ n. any (str_eq n) seen ≡ false) (tested seen n ns b))
      (any (str_eq n) seen) (λ e. unseen seen ns)
      (λ e.
        (e, All-map (λ m h. ground arith) (without_repeats (n ∷ seen) ns) (unseen (n ∷ seen) ns)))

without_repeats-IsUnique : (seen ns : List String) → IsUnique (without_repeats seen ns)
unfolding without_repeats
without_repeats-IsUnique seen [] = tt
without_repeats-IsUnique seen (n ∷ ns) =
    Bool-ind (λ b. IsUnique (tested seen n ns b)) (any (str_eq n) seen)
      (λ e. without_repeats-IsUnique seen ns)
      (λ e. (
        any-none n (without_repeats (n ∷ seen) ns)
            (All-map (λ m h. ground arith) (without_repeats (n ∷ seen) ns) (unseen (n ∷ seen) ns)),
        without_repeats-IsUnique (n ∷ seen) ns,
      ))

module _ (chs : Dict Channel) where
  abbrev pub IsConfigured : String → Type 0
  IsConfigured n = has_channel n chs ≡ true

  names_of-IsConfigured : All IsConfigured (names_of chs)
  names_of-IsConfigured =
      All-map (λ n m. any-member n (names_of chs) m) (names_of chs) (All-members (names_of chs))

  -- Targets are configured channels, each once.
  pub record AreTargets (ns : List String) : Type 0 where
    pub unique : IsUnique ns
    pub configured : All IsConfigured ns

  aliased-AreTargets : (o : Option String) → AreTargets (aliased o chs)
  aliased-AreTargets none = record { unique = tt; configured = tt }
  aliased-AreTargets (some name) =
      if-ind AreTargets (has_channel name chs)
        (λ e. record { unique = (refl, tt); configured = (e, tt) })
        (λ e. record { unique = tt; configured = tt })

  by_key-AreTargets : (key : String) → AreTargets (by_key chs key)
  unfolding by_key
  by_key-AreTargets key =
      if-ind AreTargets (has_channel key chs)
        (λ e. record { unique = (refl, tt); configured = (e, tt) })
        (λ e. aliased-AreTargets (find key aliases))

  with_cap-AreTargets :
      (p : List String × List Line)
      → AreTargets p.0
      → AreTargets (with_cap chs p).0
        × (has_channel "cap" chs ≡ true → any (str_eq "cap") (with_cap chs p).0 ≡ true)
  with_cap-AreTargets (base, lines) t =
      let Good : List String × List Line → Type 0 =
        λ p. AreTargets p.0 × (has_channel "cap" chs ≡ true → any (str_eq "cap") p.0 ≡ true) in
      if-ind Good (has_channel "cap" chs && not (any (str_eq "cap") base))
        (λ e. (
          record { unique = (ground arith, t.unique); configured = (ground arith, t.configured) },
          λ _. refl,
        ))
        (λ e.
          if-ind Good (not (has_channel "cap" chs)) (λ f. (t, λ h. ground arith))
            (λ f. (t, λ h. ground arith)))

  module _ (out : Outside) where
    mutual
      unfolding select

      select-IsConfigured : (v : Value) → All IsConfigured (select out chs v)
      select-IsConfigured null = names_of-IsConfigured
      select-IsConfigured (text s) =
          if-ind (All IsConfigured) (is_everyone s) (λ e. names_of-IsConfigured)
            (λ e. (by_key-AreTargets (lower_text s)).configured)
      select-IsConfigured (list xs) =
          without_repeats-All IsConfigured [] (select_items out chs xs)
            (select_items-IsConfigured xs)
      select-IsConfigured v = (by_key-AreTargets (lower_text (to_text out v))).configured

      select_items-IsConfigured : (xs : Items) → All IsConfigured (select_items out chs xs)
      select_items-IsConfigured nil = tt
      select_items-IsConfigured (item v rest) =
          All-append IsConfigured (select out chs v) (select_items out chs rest)
            (select-IsConfigured v) (select_items-IsConfigured rest)

    module _ (are_unique : IsUnique (names_of chs)) where
      pub select-AreTargets : (v : Value) → AreTargets (select out chs v)
      unfolding select
      select-AreTargets null = record { unique = are_unique; configured = names_of-IsConfigured }
      select-AreTargets (text s) =
          if-ind AreTargets (is_everyone s)
            (λ e. record { unique = are_unique; configured = names_of-IsConfigured })
            (λ e. by_key-AreTargets (lower_text s))
      select-AreTargets (list xs) = record {
        unique = without_repeats-IsUnique [] (select_items out chs xs);
        configured = select-IsConfigured (list xs);
      }
      select-AreTargets v = by_key-AreTargets (lower_text (to_text out v))

      citizen_reach-AreTargets : AreTargets (citizen_reach chs)
      citizen_reach-AreTargets = record {
        unique =
            filter-IsUnique (λ n. has_channel n chs) ("sms" ∷ "whatsapp" ∷ "ivr" ∷ [])
              (refl, (refl, (refl, tt)));
        configured =
            All-map (λ n h. h.1) (citizen_reach chs)
              (All-filter (λ _. Unit) (λ n. has_channel n chs) ("sms" ∷ "whatsapp" ∷ "ivr" ∷ [])
                (tt, (tt, (tt, tt))));
      }

      alert_base-AreTargets : (v : Value) → AreTargets (alert_base out chs v).0
      unfolding alert_base
      alert_base-AreTargets v =
          if-ind (λ (p : List String × List Line). AreTargets p.0) (is_default_alert v)
            (λ e. citizen_reach-AreTargets) (λ e. select-AreTargets v)

      -- The targets of a public alert, with CAP among them where it is configured.
      pub cap_targets-AreTargets :
          (v : Value)
          → AreTargets (cap_targets out chs v).0
            × (has_channel "cap" chs ≡ true → any (str_eq "cap") (cap_targets out chs v).0 ≡ true)
      unfolding cap_targets
      cap_targets-AreTargets v =
          with_cap-AreTargets (alert_base out chs v) (alert_base-AreTargets v)
