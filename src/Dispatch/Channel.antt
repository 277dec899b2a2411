-- ===== src/Dispatch/Channel.antt =====
-- tier3/dispatch/channels.py: the base channel, with its breaker and its retries.
use Prim.Native.String.{◌++◌ as append, count}
use far_away.Prelude.{
  ℕ, suc, String, Bool, true, false, not, Option, none, some, List, [], ◌∷◌, ◌++◌, ltb,
  if◌then◌else◌, length, or_else,
}
use far_away.Core.Value.{
  Value, null, bool, text, list, dict, Items, nil, item, Fields, end, field, get_or, or_value,
}
use far_away.Ops.Retry.{Floats, Try, returned, listed, unlisted, retry}
use far_away.Ops.Breaker.{Breaker, new_breaker, Ending, returns, fails, Answer, rejected, ran, call}

-- How a channel's call ends: with a receipt, or with an exception's text. The exceptions that are
-- no `Exception`, with which Python ends the process, are not modelled.
pub data Outcome : Type 0 where
  received : Fields → Outcome
  raised : String → Outcome

-- `Channel`. `build` and `deliver` are the methods that each kind of channel defines: `build` gives
-- none where it raises, and `deliver` gives the ending of each try of the n-th send.
pub record Channel : Type 0 where
  pub name : String
  pub dry_run : Bool
  pub live : Option Bool
  pub send_attempts : ℕ
  pub breaker : Option Breaker
  pub outbox : List Fields
  pub build : Fields → Option Value
  pub deliver : ℕ → ℕ → Fields → Outcome

-- What comes from outside: Python's `str` on a value that is no text, and on a natural number;
-- for the n-th send `DM_DISPATCH_LIVE`, the draws of a receipt's id and time and of a message's
-- id, and the clock
-- when the breaker is asked and when the call has ended; the texts of errors, for
-- an open breaker, a value of the wrong type and a failing `build`; the floats of the
-- retry's delays.
pub record Outside : Type 1 where
  pub render : Value → String
  pub numeral : ℕ → String
  pub live_from_env : ℕ → Bool
  pub new_id : ℕ → String
  pub utcnow : ℕ → String
  pub message_id : ℕ → String
  pub asked_at : ℕ → ℕ
  pub ended_at : ℕ → ℕ
  pub circuit_open : String
  pub type_error : String
  pub build_error : String
  pub floats : Floats
  pub half : Floats.Real floats
  pub two : Floats.Real floats

-- `is_live`
unfoldable pub is_live : Bool → Channel → Bool
is_live from_env ch = if ch.dry_run then false else or_else ch.live from_env

-- `_ensure_breaker`: the breaker of the channel, or a new one
unfoldable pub ensure_breaker : Option Breaker → Option Breaker
unfolding new_breaker
ensure_breaker none = new_breaker 3 30 1
ensure_breaker (some b) = some b

abbrev keys_of : Fields → List String
keys_of end = []
keys_of (field k v rest) = k ∷ keys_of rest

abbrev text_items : List String → Items
text_items [] = nil
text_items (s ∷ rest) = item (text s) (text_items rest)

abbrev items_length : Items → ℕ
items_length nil = 0
items_length (item v rest) = suc (items_length rest)

abbrev fields_length : Fields → ℕ
fields_length end = 0
fields_length (field k v rest) = suc (fields_length rest)

-- `len(v)`; `none` is its `TypeError`
abbrev pub length_of : Value → Option ℕ
length_of (text s) = some (count s)
length_of (list xs) = some (items_length xs)
length_of (dict d) = some (fields_length d)
length_of v = none

abbrev pub as_try : Outcome → Try Fields String
as_try (received r) = returned r
as_try (raised e) = listed e

abbrev pub as_outcome : Try Fields String → Outcome
as_outcome (returned r) = received r
as_outcome (listed e) = raised e
as_outcome (unlisted e) = raised e

abbrev pub ending_of : Outcome → Ending
ending_of (received r) = returns
ending_of (raised e) = fails

abbrev pub keep : Fields → Channel → Channel × Outcome
keep r ch = (record ch { outbox = ch.outbox ++ r ∷ [] }, received r)

module _ (out : Outside) where
  -- `str(v)`
  abbrev pub to_text : Value → String
  to_text (text s) = s
  to_text v = out.render v

  abbrev texts_of : Items → List String
  texts_of nil = []
  texts_of (item v rest) = to_text v ∷ texts_of rest

  abbrev as_recipients : Value → Option (List String)
  as_recipients (text s) = some (s ∷ [])
  as_recipients (list xs) = some (texts_of xs)
  as_recipients (dict d) = some (keys_of d)
  as_recipients v = none

  -- `_recipients`; `none` is the `TypeError` on a number
  unfoldable pub recipients_of : Fields → Option (List String)
  unfolding get_or or_value
  recipients_of payload = as_recipients (or_value (get_or "recipients" null payload) (list nil))

  -- `_receipt`, without a provider's message id
  unfoldable pub receipt :
      ℕ
      → (channel status : String) → List String
      → (provider : String) → (dry_run : Bool) → (detail : String) → (wire : Fields) → Fields
  receipt n channel status recipients provider dry_run detail wire =
      field "kind" (text "dispatch_receipt") (
        field "channel" (text channel) (
          field "status" (text status) (
            field "recipients" (list (text_items recipients)) (
              field "provider" (text provider) (
                field "dry_run" (bool dry_run) (
                  field "detail" (text detail) (
                    field "message_id" (text (append "dm-" (out.new_id n)))
                      (field "sent_at" (text (out.utcnow n)) wire))))))))

  -- the call that `_send_live` makes, retried where more than one attempt is configured
  unfoldable pub delivery : ℕ → Fields → Channel → Outcome
  unfolding retry
  delivery n payload ch =
      if ltb 1 ch.send_attempts
      then elim (retry out.floats ch.send_attempts out.half out.two none (λ d. d)
          (λ i. as_try (ch.deliver n i payload))) [
            | none ↦ ch.deliver n 0 payload
            | some r ↦ as_outcome r.ending
          ]
      else ch.deliver n 0 payload

  abbrev pub answered : Answer → Outcome → Outcome
  answered rejected d = raised out.circuit_open
  answered (ran e) d = d

  unfoldable pub send_guarded : ℕ → Outcome → Channel → Option Breaker → Channel × Outcome
  unfolding call
  send_guarded n d ch none = (ch, d)
  send_guarded n d ch (some b) =
      let (b', a) = call (out.asked_at n) (ending_of d) (out.ended_at n) b in
      (record ch { breaker = some b' }, answered a d)

  -- `_send_live`
  unfoldable pub send_live : ℕ → Fields → Channel → Channel × Outcome
  unfolding delivery send_guarded ensure_breaker
  send_live n payload ch = send_guarded n (delivery n payload ch) ch (ensure_breaker ch.breaker)

  -- the detail of a recorded send
  abbrev pub would_send : ℕ → List String → String
  would_send chars recipients = append "would send " (
      append (out.numeral chars)
        (append " chars to " (append (out.numeral (length recipients)) " recipient(s)")))

  unfoldable pub record_built :
      ℕ → List String → Channel → (chars : Option ℕ) → (wire : Option Value) → Channel × Outcome
  unfolding receipt
  record_built n recipients ch none wire = (ch, raised out.type_error)
  record_built n recipients ch (some chars) none = (ch, raised out.build_error)
  record_built n recipients ch (some chars) (some wire) =
      keep
        (receipt n ch.name "recorded" recipients "dry-run" true (would_send chars recipients)
          (field "wire" wire end))
        ch

  -- the branch of `send` that records what would be sent
  unfoldable pub record_send : ℕ → Fields → List String → Channel → Channel × Outcome
  unfolding record_built get_or or_value
  record_send n payload recipients ch =
      record_built n recipients ch
        (length_of (or_value (get_or "body" (text "") payload) (text ""))) (ch.build payload)

  unfoldable pub keep_outcome : ℕ → List String → Channel × Outcome → Channel × Outcome
  unfolding receipt
  keep_outcome n recipients (ch, received r) = keep r ch
  keep_outcome n recipients (ch, raised e) =
      keep (receipt n ch.name "failed" recipients "unknown" false e end) ch

  unfoldable pub send_to : ℕ → Fields → Channel → Option (List String) → Channel × Outcome
  unfolding record_send send_live is_live keep_outcome
  send_to n payload ch none = (ch, raised out.type_error)
  send_to n payload ch (some recipients) =
      if not (is_live (out.live_from_env n) ch)
      then record_send n payload recipients ch
      else keep_outcome n recipients (send_live n payload ch)

  -- `send`, as the n-th
  unfoldable pub send : ℕ → Fields → Channel → Channel × Outcome
  unfolding recipients_of send_to
  send n payload ch = send_to n payload ch (recipients_of payload)
