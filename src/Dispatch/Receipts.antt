-- ===== src/Dispatch/Receipts.antt =====
-- tier3/dispatch/channels.py: the receipts of a channel.
use far_away.Prelude.{
  ℕ, zero, suc, String, ◌≡◌, refl, true, not, ◌||◌, Option, none, some, List, [], ◌∷◌, ltb, if-ind,
}
use far_away.Core.Value.{Value, text, Fields, get, get_or, or_value}
use far_away.Ops.Retry.{
  Floats, Try, returned, listed, unlisted, Retried, with_retry, tries_from, retry, backoff_schedule,
}
use far_away.Ops.Breaker.{Breaker, Answer, rejected, ran, call}
use far_away.Dispatch.Channel.{
  Outcome, received, raised, Channel, Outside, as_try, as_outcome, delivery, ensure_breaker,
  ending_of, answered, send_guarded, send_live, length_of, record_built, record_send, keep_outcome,
  is_live, send_to, recipients_of, send, receipt,
}
use far_away.Dispatch.Handle.{is_delivered, is_failed, receipt_of}

-- A receipt's status is one of "sent", "recorded" and "failed".
abbrev pub HasStatus : Fields → Type 0
HasStatus r = (is_delivered r || is_failed r) ≡ true

abbrev pub GoodOutcome : Outcome → Type 0
GoodOutcome (received r) = HasStatus r
GoodOutcome (raised e) = Unit

-- The receipts that a channel's `deliver` gives have a status that the module's description names.
abbrev pub GivesStatus : Channel → Type 0
GivesStatus ch = (n i : ℕ) (payload : Fields) → GoodOutcome (ch.deliver n i payload)

module _ (floats : Floats) where
  tries_from-ending :
      (P : Try Fields String → Type 0) (jitter : Floats.Real floats → Floats.Real floats)
      (fn : ℕ → Try Fields String) (i : ℕ) (delays : List (Floats.Real floats))
      → ((j : ℕ) → P (fn j))
      → P (tries_from floats jitter fn i delays).ending
  unfolding tries_from
  tries_from-ending P jitter fn i [] all = all i
  tries_from-ending P jitter fn i (d ∷ delays) all =
      let rest = tries_from floats jitter fn (suc i) delays in
      elim (fn i)
          as (λ x.
            P x
            → P
                (elim x as (λ _. Retried Fields String (Floats.Real floats)) [
                  | returned v ↦ record { ending = returned v; tries = suc i; retries = [] }
                  | unlisted e ↦ record { ending = unlisted e; tries = suc i; retries = [] }
                  | listed e ↦ with_retry floats (suc i) e (jitter d) rest
                ]).ending) [
                  | returned v ↦ λ h. h
                  | unlisted e ↦ λ h. h
                  | listed e ↦ λ h. tries_from-ending P jitter fn (suc i) delays all
                ]
        (all i)

GoodTry : Try Fields String → Type 0
GoodTry t = GoodOutcome (as_outcome t)

module _ (out : Outside) (n : ℕ) (payload : Fields) where
  as_try-Good : (o : Outcome) → GoodOutcome o → GoodOutcome (as_outcome (as_try o))
  as_try-Good (received r) h = h
  as_try-Good (raised e) h = h

  delivery-Good : (ch : Channel) → GivesStatus ch → GoodOutcome (delivery out n payload ch)
  unfolding delivery retry GoodTry
  delivery-Good ch h =
      if-ind GoodOutcome (ltb 1 ch.send_attempts) (λ _. retried-Good ch.send_attempts)
        (λ _. h n 0 payload)
    where
      retried-Good :
          (attempts : ℕ)
          → GoodOutcome
              (elim (retry out.floats attempts out.half out.two none
                  (λ d. d)
                  (λ i. as_try (ch.deliver n i payload)))
                as (λ x. Outcome) [ none ↦ ch.deliver n 0 payload | some r ↦ as_outcome r.ending ])
      retried-Good zero = h n 0 payload
      retried-Good (suc k) =
          tries_from-ending out.floats GoodTry (λ d. d) (λ i. as_try (ch.deliver n i payload)) 0
            (backoff_schedule out.floats (suc k) out.half out.two none)
            (λ i. as_try-Good (ch.deliver n i payload) (h n i payload))

  -- A send leaves a channel's name and its way of delivery, and gives a receipt with a status.
  pub record Sends (ch : Channel) (r : Channel × Outcome) : Type 0 where
    pub kept : (r.0.name ≡ ch.name) × (r.0.deliver ≡ ch.deliver)
    pub good : GoodOutcome r.1

  answered-Good : (a : Answer) (o : Outcome) → GoodOutcome o → GoodOutcome (answered out a o)
  answered-Good rejected o h = tt
  answered-Good (ran e) o h = h

  send_live-Sends : (ch : Channel) → GivesStatus ch → Sends ch (send_live out n payload ch)
  unfolding send_live send_guarded
  send_live-Sends ch h = guarded (ensure_breaker ch.breaker)
    where
      guarded :
          (b : Option Breaker) → Sends ch (send_guarded out n (delivery out n payload ch) ch b)
      guarded none = record { kept = (refl, refl); good = delivery-Good ch h }
      guarded (some b) = record {
        kept = (refl, refl);
        good =
            answered-Good
              (call (out.asked_at n) (ending_of (delivery out n payload ch)) (out.ended_at n) b).1
              (delivery out n payload ch) (delivery-Good ch h);
      }

  record_built-Sends :
      (ch : Channel) (recipients : List String) (chars : Option ℕ) (wire : Option Value)
      → Sends ch (record_built out n recipients ch chars wire)
  unfolding record_built receipt get_or get
  record_built-Sends ch recipients none wire = record { kept = (refl, refl); good = tt }
  record_built-Sends ch recipients (some chars) none = record { kept = (refl, refl); good = tt }
  record_built-Sends ch recipients (some chars) (some wire) = record {
    kept = (refl, refl);
    good = refl;
  }

  keep_outcome-Sends :
      (ch : Channel) (recipients : List String) (r : Channel × Outcome)
      → Sends ch r
      → Sends ch (keep_outcome out n recipients r)
  unfolding keep_outcome receipt get_or get
  keep_outcome-Sends ch recipients (ch', received r) s = record { kept = s.kept; good = s.good }
  keep_outcome-Sends ch recipients (ch', raised e) s = record { kept = s.kept; good = refl }

  pub send-Sends : (ch : Channel) → GivesStatus ch → Sends ch (send out n payload ch)
  unfolding send record_send send_to
  send-Sends ch h = to (recipients_of out payload)
    where
      to : (o : Option (List String)) → Sends ch (send_to out n payload ch o)
      to none = record { kept = (refl, refl); good = tt }
      to (some recipients) =
          if-ind (Sends ch) (not (is_live (out.live_from_env n) ch))
            (λ _.
              record_built-Sends ch recipients
                (length_of (or_value (get_or "body" (text "") payload) (text "")))
                (ch.build payload))
            (λ _.
              keep_outcome-Sends ch recipients (send_live out n payload ch) (send_live-Sends ch h))

  pub receipt_of-HasStatus :
      (name : String) (o : Outcome) → GoodOutcome o → HasStatus (receipt_of payload name o)
  unfolding get_or get
  receipt_of-HasStatus name (received r) h = h
  receipt_of-HasStatus name (raised e) h = refl
