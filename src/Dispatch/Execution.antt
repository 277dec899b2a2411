-- ===== src/Dispatch/Execution.antt =====
-- tier3/dispatch/router.py: what the router does with an order.
use mathlib.Core.Bool.{false≢true}
use mathlib.Core.Path.{subst}
use mathlib.Core.Option.{some_inj, some-ne-none}
use far_away.Prelude.{
  ℕ, ◌+◌, String, ◌≡◌, ◌⊎◌, refl, sym, ap, ◌∙◌, Bool, true, false, not, ◌&&◌, Option, none, some,
  List, [], ◌∷◌, ◌++◌, ◌<◌, str_eq, eq_iff, arith, if◌then◌else◌, Bool-ind, if-ind, ◌||◌, any,
  filter, length, All, Bool-cases, inl, inr,
}
use far_away.Prelude.Int.{pos}
use far_away.Core.Value.{Value, null, int, text, list, Fields, get, get_or}
use far_away.Core.Dict.{Dict, AllValues}
use far_away.Core.Contracts.{dispatch}
use far_away.Dispatch.Channel.{Channel, Outside}
use far_away.Dispatch.Router.{
  Line, DispatchMessage, Router, names_of, has_channel, select, cap_targets, no_fallback, fell_back,
}
use far_away.Dispatch.Targets.{IsUnique, AreTargets, select-AreTargets, cap_targets-AreTargets}
use far_away.Dispatch.Handle.{
  Delivered, is_text, is_ack, is_dispatch, is_delivered, is_failed, usable, ack_payload,
  ack_message, deliver_all, is_public_alert, targets_of, execute, fall_back, run_order, handle,
  dicts,
}
use far_away.Dispatch.Receipts.{HasStatus, GivesStatus}
use far_away.Dispatch.Delivery.{SendsTo, deliver_all-Delivers, deliver_all-SendsTo}

-- A well-formed router: its channels have different names and give documented statuses, and it has
-- no channel or a usable fallback.
pub record IsRouter (r : Router) : Type 0 where
  pub unique : IsUnique (names_of r.channels)
  pub gives : AllValues GivesStatus r.channels
  pub fallback :
      (names_of r.channels ≡ [])
      ⊎ ((name : String) × (usable r.fallback_name r.channels ≡ some name))

-- A message that is an order for the router.
pub record IsOrder (message : DispatchMessage) (r : Router) : Type 0 where
  pub on_dispatch : message.topic ≡ dispatch
  pub from_another : str_eq message.sender r.name ≡ false
  pub no_ack_payload : is_text "dispatch_ack" (get_or "kind" null message.payload) ≡ false
  pub no_ack : is_ack message.type ≡ false

-- The targets, the ACK's counts and the router that an order leaves behind.
pub record Executes (out : Outside) (message : DispatchMessage) (r : Router)
    (res : Router × List DispatchMessage) : Type 0 where
  pub targets : List String
  pub are_targets : AreTargets r.channels targets
  pub reaches : (names_of r.channels ≡ []) ⊎ (0 < length targets)
  pub warns :
      is_public_alert out message.payload ≡ true
      → has_channel "cap" r.channels ≡ true
      → any (str_eq "cap") targets ≡ true
  pub answer : DispatchMessage
  pub answers : (res.1 ≡ answer ∷ []) × (answer.recipient ≡ message.sender)
  pub receipts : List Fields
  pub reports : get "receipts" answer.payload ≡ some (list (dicts receipts))
  pub sent : SendsTo out message.payload targets r.channels r.sends receipts res.0.channels
  pub delivered : ℕ
  pub failed : ℕ
  pub counts :
      (get "delivered" answer.payload ≡ some (int (pos delivered)))
      × (get "failed" answer.payload ≡ some (int (pos failed)))
      × (length receipts ≡ length targets)
      × (delivered + failed ≡ length targets)
  pub stays : IsRouter res.0

is_text_apart :
    (s t : String) (v : Value) → str_eq s t ≡ false → is_text s v ≡ true → is_text t v ≡ false
is_text_apart s t (text u) h k = ground (arith, eq_iff s t, eq_iff u s, eq_iff u t)
is_text_apart s t v h k = cc

not_both : (r : Fields) → is_delivered r ≡ true → is_failed r ≡ false
unfolding get_or
not_both r h = ground (
  arith,
  is_text_apart "sent" "failed" (get_or "status" null r) refl,
  is_text_apart "recorded" "failed" (get_or "status" null r) refl,
)

-- Each receipt counts as delivered or as failed, and none as both.
counted_once :
    (rs : List Fields)
    → All HasStatus rs
    → length (filter is_delivered rs) + length (filter is_failed rs) ≡ length rs
counted_once [] all = omega arith
counted_once (r ∷ rs) all = ground (arith, not_both r, counted_once rs)

usable_configured :
    (o : Option String) (chs : Dict Channel) (name : String)
    → usable o chs ≡ some name
    → has_channel name chs ≡ true
usable_configured none chs name h = cc
usable_configured (some n) chs name h = elim (Bool-cases (has_channel n chs && not (str_eq n ""))) [
  | inl e ↦ ground (arith, some_inj.0 (sym (picked e) ∙ h))
  | inr e ↦ cc (dropped e)
]
  where
    picked : (has_channel n chs && not (str_eq n "")) ≡ true → usable (some n) chs ≡ some n
    picked e = rw e

    dropped : (has_channel n chs && not (str_eq n "")) ≡ false → usable (some n) chs ≡ none
    dropped e = rw e

usable_same :
    (o : Option String) (chs chs' : Dict Channel)
    → names_of chs' ≡ names_of chs
    → usable o chs' ≡ usable o chs
usable_same none chs chs' h = refl
usable_same (some name) chs chs' h =
    ap (λ ns. if any (str_eq name) ns && not (str_eq name "") then some name else none) h

module _ (out : Outside) (message : DispatchMessage) (r : Router) (is_router : IsRouter r) where
  execute-Executes :
      (targets : List String) (lines : List Line)
      → AreTargets r.channels targets
      → (names_of r.channels ≡ []) ⊎ (0 < length targets)
      → (is_public_alert out message.payload ≡ true
          → has_channel "cap" r.channels ≡ true
          → any (str_eq "cap") targets ≡ true)
      → Executes out message r (execute out message r targets lines)
  unfolding execute ack_message ack_payload get
  execute-Executes targets lines are reaches warns =
      let d : Delivered = record {
        channels = r.channels;
        sends = r.sends;
        receipts = [];
        lines = lines;
      } in
      let d' = deliver_all out message.payload targets d in
      let run = deliver_all-Delivers out message.payload targets d are.configured is_router.gives in
      let (later, same, sent) =
        deliver_all-SendsTo out message.payload targets d are.configured is_router.gives in
      let all_counted : length d'.receipts ≡ length targets = omega (arith, run.counted) in
      record {
        targets = targets;
        are_targets = are;
        reaches = reaches;
        warns = warns;
        answer = ack_message out r.name d'.sends message d'.receipts d'.lines;
        answers = (refl, refl);
        receipts = d'.receipts;
        reports = refl;
        sent =
            subst (λ rs. SendsTo out message.payload targets r.channels r.sends rs d'.channels)
              (sym same) sent;
        delivered = length (filter is_delivered d'.receipts);
        failed = length (filter is_failed d'.receipts);
        counts =
            (refl, refl, all_counted, counted_once d'.receipts (run.statuses tt) ∙ all_counted);
        stays = record {
          unique = subst IsUnique (sym run.names) is_router.unique;
          gives = run.gives;
          fallback = elim is_router.fallback [
            | inl e ↦ inl (run.names ∙ e)
            | inr (name, e) ↦
                inr (name, usable_same r.fallback_name r.channels d'.channels run.names ∙ e)
          ];
        };
      }

  fall_back-Executes :
      (o : Option String) (lines : List Line)
      → usable r.fallback_name r.channels ≡ o
      → (is_public_alert out message.payload ≡ true
          → has_channel "cap" r.channels ≡ true
          → false ≡ true)
      → Executes out message r (fall_back out message r o lines)
  unfolding fall_back ack_message ack_payload get
  fall_back-Executes none lines e warns = record {
    targets = [];
    are_targets = record { unique = tt; configured = tt };
    reaches = elim is_router.fallback [
      | inl h ↦ inl h
      | inr (name, h) ↦ absurd (some-ne-none name (sym h ∙ e))
    ];
    warns = warns;
    answer =
        ack_message out r.name r.sends message []
          (lines ++ no_fallback (get_or "channel" null message.payload) ∷ []);
    answers = (refl, refl);
    receipts = [];
    reports = refl;
    sent = (refl, refl);
    delivered = 0;
    failed = 0;
    counts = (refl, refl, refl, omega arith);
    stays = is_router;
  }
  fall_back-Executes (some name) lines e warns =
      execute-Executes (name ∷ [])
        (lines ++ fell_back (get_or "channel" null message.payload) name ∷ [])
        (record {
          unique = (refl, tt);
          configured = (usable_configured r.fallback_name r.channels name e, tt);
        })
        (inr (omega arith)) (λ a h. absurd (false≢true (warns a h)))

  run_order-Executes :
      (targets : List String) (lines : List Line)
      → AreTargets r.channels targets
      → (is_public_alert out message.payload ≡ true
          → has_channel "cap" r.channels ≡ true
          → any (str_eq "cap") targets ≡ true)
      → Executes out message r (run_order out message r (targets, lines))
  unfolding run_order
  run_order-Executes [] lines are warns =
      fall_back-Executes (usable r.fallback_name r.channels) lines refl warns
  run_order-Executes (name ∷ rest) lines are warns =
      execute-Executes (name ∷ rest) lines are (inr (omega arith)) warns

  targets_of-AreTargets :
      AreTargets r.channels (targets_of out r.channels message.payload).0
      × (is_public_alert out message.payload ≡ true
          → has_channel "cap" r.channels ≡ true
          → any (str_eq "cap") (targets_of out r.channels message.payload).0 ≡ true)
  unfolding targets_of
  targets_of-AreTargets =
      let requested = get_or "channel" null message.payload in
      let Good : Bool → Type 0 = λ b.
        (let t =
            if b
            then cap_targets out r.channels requested
            else (select out r.channels requested, []) in
          AreTargets r.channels t.0
          × (b ≡ true → has_channel "cap" r.channels ≡ true → any (str_eq "cap") t.0 ≡ true)) in
      Bool-ind Good (is_public_alert out message.payload)
        (λ e.
          let t = cap_targets-AreTargets r.channels out is_router.unique requested in
          (t.0, λ _ h. t.1 h))
        (λ e.
          (select-AreTargets r.channels out is_router.unique requested, λ h. absurd (false≢true h)))

  -- A well-formed router answers an order with one ACK, to its sender. The order goes to configured
  -- channels, to each once, and to one at least where one is configured; a public alert goes to
  -- CAP where that is configured. Each of them gets the payload in turn, through the channel of its name.
  -- The ACK holds the receipts of these sends, and counts each as
  -- delivered or as failed. The router stays well formed.
  pub handle-Executes : IsOrder message r → Executes out message r (handle out message r)
  unfolding handle
  handle-Executes order =
      let t = targets_of-AreTargets in
      rw (ap is_dispatch order.on_dispatch, order.from_another, order.no_ack_payload, order.no_ack)
        (run_order-Executes (targets_of out r.channels message.payload).0
          (targets_of out r.channels message.payload).1 t.0 t.1)

  -- Any message leaves a well-formed router well formed.
  pub handle-IsRouter : IsRouter (handle out message r).0
  unfolding handle
  handle-IsRouter =
      let After : Router × List DispatchMessage → Type 0 = λ res. IsRouter res.0 in
      let t = targets_of-AreTargets in
      let ts = targets_of out r.channels message.payload in
      if-ind After (not (is_dispatch message.topic)) (λ _. is_router)
        (λ _.
          if-ind After
            (str_eq message.sender r.name
              || is_text "dispatch_ack" (get_or "kind" null message.payload))
            (λ _. is_router)
            (λ _.
              if-ind After (is_ack message.type) (λ _. is_router)
                (λ _. (run_order-Executes ts.0 ts.1 t.0 t.1).stays)))
