-- ===== src/Dispatch/Acks.antt =====
-- tier3/dispatch/router.py: the router's own ACKs.
use mathlib.Core.Bool.{true≢false}
use far_away.Prelude.{
  String, ◌≡◌, refl, sym, ◌∙◌, Bool, true, false, not, ◌||◌, Option, none, some, List, [], ◌∷◌,
  ◌++◌, str_eq, if-ind, All, ℕ,
}
use far_away.Core.Value.{null, Fields, get, get_or}
use far_away.Dispatch.Channel.{Outside}
use far_away.Dispatch.Router.{Line, fell_back, no_fallback, DispatchMessage, Router}
use far_away.Dispatch.Handle.{
  Delivered, deliver_all, is_text, is_ack, is_dispatch, usable, ack_payload, ack_message,
  targets_of, execute, fall_back, run_order, handle,
}

or_true : (b : Bool) → (b || true) ≡ true
or_true true = refl
or_true false = refl

module _ (out : Outside) where
  -- No router does anything on the message.
  abbrev pub IsIgnored : DispatchMessage → Type 0
  IsIgnored a = (r : Router) → handle out a r ≡ (r, [])

  ack_message-IsIgnored :
      (name : String) (n : ℕ) (message : DispatchMessage) (receipts : List Fields)
      (lines : List Line)
      → IsIgnored (ack_message out name n message receipts lines)
  unfolding handle ack_message ack_payload get_or get
  ack_message-IsIgnored name n message receipts lines r =
      if-ind (λ res. res ≡ (r, [])) (str_eq name r.name || true) (λ _. refl)
        (λ e. absurd (true≢false (sym (or_true (str_eq name r.name)) ∙ e)))

  AllIgnored : Router × List DispatchMessage → Type 0
  AllIgnored res = All IsIgnored res.1

  execute-AllIgnored :
      (message : DispatchMessage) (r : Router) (targets : List String) (lines : List Line)
      → AllIgnored (execute out message r targets lines)
  unfolding execute AllIgnored
  execute-AllIgnored message r targets lines =
      let d : Delivered =
        deliver_all out message.payload targets
          (record { channels = r.channels; sends = r.sends; receipts = []; lines = lines }) in
      (ack_message-IsIgnored r.name d.sends message d.receipts d.lines, tt)

  fall_back-AllIgnored :
      (message : DispatchMessage) (r : Router) (o : Option String) (lines : List Line)
      → AllIgnored (fall_back out message r o lines)
  unfolding fall_back AllIgnored
  fall_back-AllIgnored message r none lines = (
    ack_message-IsIgnored r.name r.sends message []
        (lines ++ no_fallback (get_or "channel" null message.payload) ∷ []),
    tt,
  )
  fall_back-AllIgnored message r (some name) lines =
      execute-AllIgnored message r (name ∷ [])
        (lines ++ fell_back (get_or "channel" null message.payload) name ∷ [])

  run_order-AllIgnored :
      (message : DispatchMessage) (r : Router) (t : List String × List Line)
      → AllIgnored (run_order out message r t)
  unfolding run_order AllIgnored
  run_order-AllIgnored message r ([], lines) =
      fall_back-AllIgnored message r (usable r.fallback_name r.channels) lines
  run_order-AllIgnored message r (name ∷ rest, lines) =
      execute-AllIgnored message r (name ∷ rest) lines

  -- Whatever a router sends out in answer to any message, no router does anything on it, though it
  -- goes out on the topic that routers read: an ACK leads to no further delivery and no further ACK.
  pub handle-IsIgnored :
      (message : DispatchMessage) (r : Router) → All IsIgnored (handle out message r).1
  unfolding handle AllIgnored
  handle-IsIgnored message r =
      if-ind AllIgnored (not (is_dispatch message.topic)) (λ _. tt)
        (λ _.
          if-ind AllIgnored
            (str_eq message.sender r.name
              || is_text "dispatch_ack" (get_or "kind" null message.payload))
            (λ _. tt)
            (λ _.
              if-ind AllIgnored (is_ack message.type) (λ _. tt)
                (λ _. run_order-AllIgnored message r (targets_of out r.channels message.payload))))
