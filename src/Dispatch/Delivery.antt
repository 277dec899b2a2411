-- ===== src/Dispatch/Delivery.antt =====
-- tier3/dispatch/router.py: the delivery loop.
use mathlib.Core.Bool.{true≢false}
use mathlib.Core.Path.{subst}
use mathlib.Core.List.{append-nil, append_assoc}
use far_away.Prelude.{
  ℕ, suc, ◌++◌, str_eq_sym, ◌+◌, String, ◌≡◌, refl, sym, ap, ◌∙◌, true, false, Option, none, some,
  List, [], ◌∷◌, str_eq, arith, any, length, length-append, All, All-map, All-snoc, Bool-cases, inl,
  inr,
}
use far_away.Core.Value.{Fields}
use far_away.Core.Dict.{Dict, find, put, AllValues, put-AllValues, find-AllValues}
use far_away.Dispatch.Channel.{Channel, Outside, send}
use far_away.Dispatch.Router.{names_of, has_channel}
use far_away.Dispatch.Targets.{IsConfigured}
use far_away.Dispatch.Handle.{Delivered, receipt_of, deliver_found, deliver_on, deliver_all}
use far_away.Dispatch.Receipts.{
  HasStatus, GoodOutcome, GivesStatus, send-Sends, receipt_of-HasStatus,
}

find-has_channel :
    (name : String) (chs : Dict Channel) → find name chs ≡ none → has_channel name chs ≡ false
unfolding find
find-has_channel name [] h = refl
find-has_channel name ((k, ch) ∷ chs) h =
    ground (arith, str_eq_sym name k, find-has_channel name chs)

names_of-put :
    (name : String) (ch : Channel) (chs : Dict Channel)
    → has_channel name chs ≡ true
    → names_of (put name ch chs) ≡ names_of chs
unfolding put
names_of-put name ch [] h = cc
names_of-put name ch ((k, c) ∷ chs) h = elim (Bool-cases (str_eq k name)) [
  | inl e ↦ rw e
  | inr e ↦ rw e (ap (λ ns. k ∷ ns) (names_of-put name ch chs (ground (arith, str_eq_sym name k))))
]

gives_like : (ch' ch : Channel) → ch'.deliver ≡ ch.deliver → GivesStatus ch → GivesStatus ch'
gives_like ch' ch e h n i payload = subst (λ f. GoodOutcome (f n i payload)) (sym e) (h n i payload)

-- Each target in turn gets the payload through the channel of its name, whose state the send replaces,
-- and the receipts are those of the sends.
abbrev pub SendsTo :
    Outside → Fields → List String → Dict Channel → ℕ → List Fields → Dict Channel → Type 0
unfolding find put send
SendsTo out payload [] chs n receipts chs' = (receipts ≡ []) × (chs' ≡ chs)
SendsTo out payload (name ∷ rest) chs n receipts chs' =
    (ch : Channel) × (find name chs ≡ some ch)
    × ((later : List Fields) × (receipts
          ≡ receipt_of payload name (send out n payload ch).1 ∷ later)
        × SendsTo out payload rest (put name (send out n payload ch).0 chs) (suc n) later chs')

-- What a run over targets adds to what was delivered before.
pub record Delivers (targets : List String) (d d' : Delivered) : Type 0 where
  pub names : names_of d'.channels ≡ names_of d.channels
  pub counted : length d'.receipts ≡ length d.receipts + length targets
  pub numbered : d'.sends ≡ d.sends + length targets
  pub statuses : All HasStatus d.receipts → All HasStatus d'.receipts
  pub gives : AllValues GivesStatus d'.channels

module _ (out : Outside) (payload : Fields) where
  deliver_found-Delivers :
      (name : String) (d : Delivered) (o : Option Channel)
      → find name d.channels ≡ o
      → IsConfigured d.channels name
      → AllValues GivesStatus d.channels
      → Delivers (name ∷ []) d (deliver_found out payload name d o)
  unfolding deliver_found
  deliver_found-Delivers name d none e h all =
      absurd (true≢false (sym h ∙ find-has_channel name d.channels e))
  deliver_found-Delivers name d (some ch) e h all =
      let good = find-AllValues GivesStatus name d.channels all e in
      let s = send-Sends out d.sends payload ch good in
      let r = send out d.sends payload ch in
      record {
        names = names_of-put name r.0 d.channels h;
        counted = length-append d.receipts (receipt_of payload name r.1 ∷ []);
        numbered = omega arith;
        statuses = λ old.
            All-snoc HasStatus d.receipts (receipt_of payload name r.1) old
              (receipt_of-HasStatus out d.sends payload name r.1 s.good);
        gives = put-AllValues GivesStatus name r.0 d.channels (gives_like r.0 ch s.kept.1 good) all;
      }

  deliver_on-Delivers :
      (name : String) (d : Delivered)
      → IsConfigured d.channels name
      → AllValues GivesStatus d.channels
      → Delivers (name ∷ []) d (deliver_on out payload name d)
  unfolding deliver_on
  deliver_on-Delivers name d h all = deliver_found-Delivers name d (find name d.channels) refl h all

  pub deliver_all-Delivers :
      (targets : List String) (d : Delivered)
      → All (IsConfigured d.channels) targets
      → AllValues GivesStatus d.channels
      → Delivers targets d (deliver_all out payload targets d)
  unfolding deliver_all
  deliver_all-Delivers [] d t all = record {
    names = refl;
    counted = omega arith;
    numbered = omega arith;
    statuses = λ h. h;
    gives = all;
  }
  deliver_all-Delivers (name ∷ rest) d t all =
      let first = deliver_on-Delivers name d t.0 all in
      let d1 = deliver_on out payload name d in
      let later =
        deliver_all-Delivers rest d1
          (All-map (λ n h. ap (λ ns. any (str_eq n) ns) first.names ∙ h) rest t.1) first.gives in
      record {
        names = later.names ∙ first.names;
        counted = omega (arith, first.counted, later.counted);
        numbered = omega (arith, first.numbered, later.numbered);
        statuses = λ h. later.statuses (first.statuses h);
        gives = later.gives;
      }

  -- What a run over targets adds to the receipts is that of its sends.
  abbrev pub AddsSends : List String → Delivered → Delivered → Type 0
  AddsSends targets d d' =
      (later : List Fields) × (d'.receipts ≡ d.receipts ++ later)
      × SendsTo out payload targets d.channels d.sends later d'.channels

  deliver_on-SendsTo :
      (name : String) (rest : List String) (d d' : Delivered)
      → IsConfigured d.channels name
      → AddsSends rest (deliver_on out payload name d) d'
      → AddsSends (name ∷ rest) d d'
  unfolding deliver_on deliver_found SendsTo
  deliver_on-SendsTo name rest d d' h = found (find name d.channels) refl
    where
      found :
          (o : Option Channel)
          → find name d.channels ≡ o
          → AddsSends rest (deliver_found out payload name d o) d'
          → AddsSends (name ∷ rest) d d'
      found none e added = absurd (true≢false (sym h ∙ find-has_channel name d.channels e))
      found (some ch) e (later, same, sent) = (
        receipt_of payload name (send out d.sends payload ch).1 ∷ later,
        same
            ∙ append_assoc d.receipts (receipt_of payload name (send out d.sends payload ch).1 ∷ [])
                later,
        (ch, e, (later, refl, sent)),
      )

  pub deliver_all-SendsTo :
      (targets : List String) (d : Delivered)
      → All (IsConfigured d.channels) targets
      → AllValues GivesStatus d.channels
      → AddsSends targets d (deliver_all out payload targets d)
  unfolding deliver_all SendsTo
  deliver_all-SendsTo [] d t all = ([], sym (append-nil d.receipts), (refl, refl))
  deliver_all-SendsTo (name ∷ rest) d t all =
      let first = deliver_on-Delivers name d t.0 all in
      deliver_on-SendsTo name rest d (deliver_all out payload rest (deliver_on out payload name d))
        t.0
        (deliver_all-SendsTo rest (deliver_on out payload name d)
          (All-map (λ n h. ap (λ ns. any (str_eq n) ns) first.names ∙ h) rest t.1) first.gives)
