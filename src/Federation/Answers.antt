-- ===== src/Federation/Answers.antt =====
-- federation/coordinator.py: what `answer` offers.
use far_away.Prelude.{
  Bool-cases, ◌⊎◌, inl, inr, ℕ, String, ◌≡◌, refl, sym, ◌∙◌, true, false, ◌&&◌, some, arith, ltb,
  if◌then◌else◌, ◌>>=◌,
}
use far_away.Prelude.Int.{ℤ, pos, negsuc, lt_int, min_int}
use far_away.Core.Value.{Value, text}
use far_away.Core.Dict.{Dict}
use far_away.Federation.Model.{District, spare, spare_in, AidRequest, decline, AidOffer, is_offer}
use far_away.Federation.Messages.{Stamp, request_to_message, request_from_message}
use far_away.Federation.RoundTrips.{request_as_read, request_from_message-request_to_message}
use far_away.Federation.Coordinator.{Outside, ResourceGap, quantity_for, compose_request}
use far_away.Federation.Answering.{answer}

-- An answer to a request, from a pool.
pub record Answers {T : Type 0} (as_text : String → T) (pool : Dict ℤ) (home : District)
    (req : AidRequest T) (o : AidOffer T) : Type 0 where
  pub addressed :
      (o.request_id ≡ req.request_id)
      × (o.from_district ≡ as_text home.district_id)
      × (o.to_district ≡ req.from_district)
      × (o.asset_type ≡ req.asset_type)
  pub offers_if : is_offer o ≡ (lt_int (pos 0) req.quantity && ltb 0 (spare_in req.asset_type pool))
  pub declines : is_offer o ≡ false → (o.decision ≡ decline) × (o.quantity ≡ pos 0)
  pub gives :
      is_offer o ≡ true
      → (lt_int (pos 0) o.quantity ≡ true)
        × (lt_int req.quantity o.quantity ≡ false)
        × (lt_int (pos (spare_in req.asset_type pool)) o.quantity ≡ false)
        × ((o.quantity ≡ req.quantity) ⊎ (o.quantity ≡ pos (spare_in req.asset_type pool)))

-- What is given of n, and whether.
abbrev gift : ℤ → ℕ → ℤ
gift q n = if lt_int (pos 0) (min_int q (pos n)) then min_int q (pos n) else pos 0

gift-offers : (q : ℤ) (n : ℕ) → lt_int (pos 0) (min_int q (pos n)) ≡ (lt_int (pos 0) q && ltb 0 n)
gift-offers (pos k) n = ground arith
gift-offers (negsuc k) n = ground arith

gift_bounds :
    (q : ℤ) (n : ℕ)
    → lt_int (pos 0) (min_int q (pos n)) ≡ true
    → (lt_int (pos 0) (gift q n) ≡ true)
      × (lt_int q (gift q n) ≡ false)
      × (lt_int (pos n) (gift q n) ≡ false)
      × ((gift q n ≡ q) ⊎ (gift q n ≡ pos n))
gift_bounds (pos k) n h = ground arith
gift_bounds (negsuc k) n h = ground arith

is_offer-given :
    {T : Type 0} (out : Outside) (as_text : String → T) (pool : Dict ℤ) (home : District)
    (req : AidRequest T)
    → is_offer (answer out as_text pool home req)
      ≡ lt_int (pos 0) (min_int req.quantity (pos (spare_in req.asset_type pool)))
unfolding answer is_offer
is_offer-given out as_text pool home req =
    elim (Bool-cases (lt_int (pos 0) (min_int req.quantity (pos (spare_in req.asset_type pool))))) [
      | inl e ↦ rw e e
      | inr e ↦ rw e
    ]

gift-quantity_for :
    (s : ℤ) (n : ℕ)
    → lt_int (pos 0) s ≡ true
    → ltb 0 n ≡ true
    → (lt_int (pos 0) (min_int (quantity_for n s) (pos n)) ≡ true)
      × (gift (quantity_for n s) n ≡ quantity_for n s)
gift-quantity_for (pos k) n h e = (ground arith, ground arith)
gift-quantity_for (negsuc k) n h e = cc

-- An answer goes back to the requester under the request's id. It is an offer exactly where the
-- request is for at least one and the pool has at least one to spare; then it offers all that is
-- requested or all that is to spare, and never more than either. Else it declines, with nothing.
pub answer-Answers :
    {T : Type 0} (out : Outside) (as_text : String → T) (pool : Dict ℤ) (home : District)
    (req : AidRequest T)
    → Answers as_text pool home req (answer out as_text pool home req)
unfolding answer is_offer
answer-Answers out as_text pool home req =
    let n = spare_in req.asset_type pool in
    let given = is_offer-given out as_text pool home req in
    record {
      addressed = (refl, refl, refl, refl);
      offers_if = given ∙ gift-offers req.quantity n;
      declines = λ h. (rw (sym given ∙ h), rw (sym given ∙ h));
      gives = λ h. gift_bounds req.quantity n (sym given ∙ h);
    }

-- A gap's request asks its peer for what the peer can give: where the gap has a shortfall and the
-- peer has the asset type to spare, the peer reads the request from its message and its answer
-- from what it then has to spare is an offer of all that is requested.
pub answer-compose_request :
    (out : Outside) (n : ℕ) (stamp : Stamp) (sender : String) (incident_id : Value)
    (gap : ResourceGap) (home peer : District)
    → lt_int (pos 0) gap.shortfall ≡ true
    → ltb 0 (spare peer gap.asset_type) ≡ true
    → (let req = compose_request out n gap home peer in
        (o : AidOffer Value) × ((do
          read ← request_from_message (request_to_message stamp sender incident_id req)
          some (answer out text peer.available peer read))
          ≡ some o)
        × (is_offer o ≡ true)
        × (o.quantity ≡ req.quantity))
unfolding answer compose_request
answer-compose_request out n stamp sender incident_id gap home peer h e =
    let req = compose_request out n gap home peer in
    let o = answer out text peer.available peer (request_as_read req) in
    let full = gift-quantity_for gap.shortfall (spare peer gap.asset_type) h e in
    (
      o,
      rw ((request_from_message-request_to_message stamp sender incident_id req).0),
      is_offer-given out text peer.available peer (request_as_read req) ∙ full.0,
      full.1,
    )
