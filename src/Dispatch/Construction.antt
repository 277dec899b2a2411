-- ===== src/Dispatch/Construction.antt =====
-- tier3/dispatch/router.py: a new router, and what it becomes.
use text.Mathlib.TextPositions.{eq_refl}
use far_away.Prelude.{
  String, ◌≡◌, ◌⊎◌, refl, false, some, List, [], ◌∷◌, str_eq, arith, if◌then◌else◌, if-ind, any,
  All, inl, inr,
}
use far_away.Core.Dict.{Dict, put, AllValues, put-AllValues}
use far_away.Dispatch.Channel.{Channel, Outside}
use far_away.Dispatch.Router.{
  DispatchMessage, Router, names_of, has_channel, by_name, first_name, new_router,
}
use far_away.Dispatch.Targets.{IsUnique}
use far_away.Dispatch.Handle.{usable, handle}
use far_away.Dispatch.Receipts.{GivesStatus}
use far_away.Dispatch.Execution.{IsRouter, handle-IsRouter}

any-put :
    (n name : String) (ch : Channel) (chs : Dict Channel)
    → any (str_eq n) (names_of chs) ≡ false
    → str_eq n name ≡ false
    → any (str_eq n) (names_of (put name ch chs)) ≡ false
unfolding put
any-put n name ch [] h e = rw e
any-put n name ch ((k, c) ∷ chs) h e =
    if-ind (λ (d : Dict Channel). any (str_eq n) (names_of d) ≡ false) (str_eq k name) (λ _. h)
      (λ _. ground (arith, any-put n name ch chs))

put-IsUnique :
    (name : String) (ch : Channel) (chs : Dict Channel)
    → IsUnique (names_of chs)
    → IsUnique (names_of (put name ch chs))
unfolding put
put-IsUnique name ch [] u = (refl, tt)
put-IsUnique name ch ((k, c) ∷ chs) u =
    if-ind (λ (d : Dict Channel). IsUnique (names_of d)) (str_eq k name) (λ _. u)
      (λ e. (any-put k name ch chs u.0 e, put-IsUnique name ch chs u.1))

-- The channels of a router: with names, no two alike, and with documented statuses.
record AreChannels (chs : Dict Channel) : Type 0 where
  unique : IsUnique (names_of chs)
  gives : AllValues GivesStatus chs
  named : All (λ n. str_eq n "" ≡ false) (names_of chs)

by_name-AreChannels :
    (channels : List Channel) (chs : Dict Channel)
    → All GivesStatus channels
    → All (λ ch. str_eq ch.name "" ≡ false) channels
    → AreChannels chs
    → AreChannels (by_name channels chs)
unfolding by_name
by_name-AreChannels [] chs gives named a = a
by_name-AreChannels (ch ∷ rest) chs gives named a =
    by_name-AreChannels rest (put ch.name ch chs) gives.1 named.1 (record {
      unique = put-IsUnique ch.name ch chs a.unique;
      gives = put-AllValues GivesStatus ch.name ch chs gives.0 a.gives;
      named = names_put ch.name ch chs named.0 a.named;
    })
  where
    names_put :
        (name : String) (c : Channel) (d : Dict Channel)
        → str_eq name "" ≡ false
        → All (λ n. str_eq n "" ≡ false) (names_of d)
        → All (λ n. str_eq n "" ≡ false) (names_of (put name c d))
    names_put name c [] h all = (h, tt)
    names_put name c ((k, v) ∷ d) h all =
        if-ind (λ (x : Dict Channel). All (λ n. str_eq n "" ≡ false) (names_of x)) (str_eq k name)
          (λ _. all) (λ _. (all.0, names_put name c d h all.1))

new_router-IsRouter :
    (name : String) (channels : List Channel)
    → All GivesStatus channels
    → All (λ ch. str_eq ch.name "" ≡ false) channels
    → IsRouter (new_router name channels)
unfolding new_router
new_router-IsRouter name channels gives named =
    let chs = by_name channels [] in
    let a =
      by_name-AreChannels channels [] gives named
        (record { unique = tt; gives = tt; named = tt }) in
    record { unique = a.unique; gives = a.gives; fallback = falls_back chs a.named }
  where
    falls_back :
        (chs : Dict Channel)
        → All (λ n. str_eq n "" ≡ false) (names_of chs)
        → (names_of chs ≡ [])
          ⊎ ((n : String) × (usable
                  (if has_channel "sms" chs then some "sms" else first_name chs)
                  chs
                ≡ some n))
    falls_back [] all = inl refl
    falls_back ((k, ch) ∷ rest) all =
        let chs : Dict Channel = (k, ch) ∷ rest in
        inr (
          if-ind (λ o. (n : String) × (usable o chs ≡ some n)) (has_channel "sms" chs)
            (λ e. ("sms", ground arith)) (λ e. (k, ground (arith, eq_refl k))))

module _ (out : Outside) where
  -- What a router becomes with a sequence of messages.
  unfoldable pub handle_all : List DispatchMessage → Router → Router
  unfolding handle
  handle_all [] r = r
  handle_all (m ∷ rest) r = handle_all rest (handle out m r).0

  handle_all-IsRouter :
      (ms : List DispatchMessage) (r : Router) → IsRouter r → IsRouter (handle_all ms r)
  unfolding handle_all
  handle_all-IsRouter [] r h = h
  handle_all-IsRouter (m ∷ rest) r h =
      handle_all-IsRouter rest (handle out m r).0 (handle-IsRouter out m r h)

  -- A router that is made of channels with names, whose receipts have documented statuses, is and
  -- stays well formed, however often a name occurs among them and whatever messages it gets.
  pub new_router_stays-IsRouter :
      (name : String) (channels : List Channel) (ms : List DispatchMessage)
      → All GivesStatus channels
      → All (λ ch. str_eq ch.name "" ≡ false) channels
      → IsRouter (handle_all ms (new_router name channels))
  new_router_stays-IsRouter name channels ms gives named =
      handle_all-IsRouter ms (new_router name channels)
        (new_router-IsRouter name channels gives named)
