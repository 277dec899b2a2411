-- ===== src/Federation/Requests.antt =====
-- federation/coordinator.py: what `request_aid` does for each gap.
use mathlib.Core.List.{append-nil, append_assoc}
use mathlib.Core.Path.{subst}
use mathlib.Core.Bool.{true≢false}
use far_away.Prelude.{
  ℕ, String, ◌≡◌, refl, sym, ap, ◌∙◌, true, false, not, Option, none, some, List, [], ◌∷◌, ◌++◌,
  str_eq, ltb, arith, if◌then◌else◌, if-ind, All,
}
use far_away.Prelude.Int.{ℤ, pos, negsuc, lt_int}
use far_away.Core.Value.{Value}
use far_away.Core.Contracts.{escalation, query, cross_state_resource}
use far_away.Federation.Model.{District, AidRequest, spare}
use far_away.Federation.Messages.{FederationMessage, request_to_message, request_from_message}
use far_away.Federation.RoundTrips.{request_as_read, request_from_message-request_to_message}
use far_away.Federation.Coordinator.{
  Outside, ResourceGap, AidTicket, Coordinator, quantity_for, is_candidate, nearest_provider,
  compose_request, emit, ticket_of, status, failed, request_of, request_from, request_for,
  request_aid, collect,
}
use far_away.Federation.Nearest.{IsNearest, nearest-is_candidate, nearest_provider-IsNearest}

-- What a request for a gap asks of a peer, and how its message goes out.
pub record Serves (home : District) (gap : ResourceGap) (peer : District) (req : AidRequest String)
    (msg : FederationMessage) : Type 0 where
  pub asks_peer : req.to_district ≡ peer.district_id
  pub for_gap : (req.zone_id ≡ gap.zone_id) × (req.asset_type ≡ gap.asset_type)
  pub at_least_one : lt_int (pos 0) req.quantity ≡ true
  pub within_shortfall : lt_int gap.shortfall req.quantity ≡ false
  pub within_spare : lt_int (pos (spare peer gap.asset_type)) req.quantity ≡ false
  pub escalates :
      (msg.type ≡ (if str_eq peer.state home.state then query else escalation))
      × (msg.escalation_trigger
          ≡ (if str_eq peer.state home.state then none else some cross_state_resource))
  pub read_back : request_from_message msg ≡ some (request_as_read req)

module _ (out : Outside) (home : District) (peers : List District) where
  -- The gaps, and the tickets that serve them in their order.
  pub data Plan : List ResourceGap → List AidTicket → Type 0 where
    done : Plan [] []
    covered :
        (gap : ResourceGap) (gaps : List ResourceGap) (ts : List AidTicket)
        → lt_int (pos 0) gap.shortfall ≡ false
        → Plan gaps ts
        → Plan (gap ∷ gaps) ts
    unserved :
        (gap : ResourceGap) (gaps : List ResourceGap) (ts : List AidTicket)
        → IsNearest out home gap.asset_type [] peers none
        → Plan gaps ts
        → Plan (gap ∷ gaps) ts
    asked :
        (gap : ResourceGap) (gaps : List ResourceGap) (ts : List AidTicket) (peer : District)
        (t : AidTicket)
        → IsNearest out home gap.asset_type [] peers (some peer)
        → Serves home gap peer t.request t.message
        → Plan gaps ts
        → Plan (gap ∷ gaps) (t ∷ ts)

quantity_for_within :
    (n : ℕ) (shortfall : ℤ)
    → lt_int (pos 0) shortfall ≡ true
    → ltb 0 n ≡ true
    → (lt_int (pos 0) (quantity_for n shortfall) ≡ true)
      × (lt_int shortfall (quantity_for n shortfall) ≡ false)
      × (lt_int (pos n) (quantity_for n shortfall) ≡ false)
quantity_for_within n (pos k) h e = ground arith
quantity_for_within n (negsuc k) h e = cc

module _ (out : Outside) (incident_id : Value) (gap : ResourceGap) (peer : District)
    (c : Coordinator) where
  compose_request-Serves :
      lt_int (pos 0) gap.shortfall ≡ true
      → is_candidate gap.asset_type [] peer ≡ true
      → (let req = compose_request out c.draws gap c.home peer in
          Serves c.home gap peer req
            (request_to_message (out.stamp c.draws) c.sender incident_id req))
  unfolding compose_request request_to_message
  compose_request-Serves h e =
      let req = compose_request out c.draws gap c.home peer in
      let within = quantity_for_within (spare peer gap.asset_type) gap.shortfall h e in
      record {
        asks_peer = refl;
        for_gap = (refl, refl);
        at_least_one = within.0;
        within_shortfall = within.1;
        within_spare = within.2;
        escalates = (ground arith, ground arith);
        read_back =
            (request_from_message-request_to_message (out.stamp c.draws) c.sender incident_id
              req).0;
      }

-- What `_emit` keeps of the request and of the coordinator, and that a dry run calls no transport.
record Emits (req : AidRequest String) (msg : FederationMessage) (c : Coordinator)
    (r : Coordinator × AidTicket) : Type 0 where
  carries : (r.1.request ≡ req) × (r.1.message ≡ msg)
  same :
      (r.0.home ≡ c.home) × (r.0.peers ≡ c.peers) × (r.0.live ≡ c.live) × (r.0.tickets ≡ c.tickets)
  dry : c.live ≡ false → (r.0.posts ≡ c.posts) × (r.1.dispatched ≡ false)

emit-Emits :
    (out : Outside) (req : AidRequest String) (msg : FederationMessage) (peer : District)
    (c : Coordinator)
    → Emits req msg c (emit out req msg peer c)
unfolding emit
emit-Emits out req msg peer c =
    if-ind (Emits req msg c) (not c.live)
      (λ _. record {
        carries = (refl, refl);
        same = (refl, refl, refl, refl);
        dry = λ _. (refl, refl);
      })
      (λ e. record {
        carries =
            elim (out.post c.draws)
              as (λ x.
                ((ticket_of req msg x).request ≡ req) × ((ticket_of req msg x).message ≡ msg)) [
                  | status n ↦ (refl, refl)
                  | failed s ↦ (refl, refl)
                ];
        same = (refl, refl, refl, refl);
        dry = λ h. absurd (true≢false (sym (ap not h) ∙ e));
      })

-- One gap's ticket, if it gets one, and what the coordinator keeps.
record Step (out : Outside) (gap : ResourceGap) (c : Coordinator)
    (r : Coordinator × Option AidTicket) : Type 0 where
  plan :
      (gaps : List ResourceGap) (ts : List AidTicket)
      → Plan out c.home c.peers gaps ts
      → Plan out c.home c.peers (gap ∷ gaps) (collect r.1 ts)
  same : (r.0.home ≡ c.home) × (r.0.peers ≡ c.peers) × (r.0.live ≡ c.live)
  appended : r.0.tickets ≡ c.tickets ++ collect r.1 []
  dry : c.live ≡ false → (r.0.posts ≡ c.posts) × All (λ t. t.dispatched ≡ false) (collect r.1 [])

module _ (out : Outside) (incident_id : Value) (gap : ResourceGap) where
  request_from-Step :
      (o : Option District) (c : Coordinator)
      → lt_int (pos 0) gap.shortfall ≡ true
      → IsNearest out c.home gap.asset_type [] c.peers o
      → Step out gap c (request_from out incident_id gap o c)
  unfolding request_from request_of
  request_from-Step none c h is_nearest = record {
    plan = λ gaps ts p. unserved gap gaps ts is_nearest p;
    same = (refl, refl, refl);
    appended = sym (append-nil _);
    dry = λ _. (refl, tt);
  }
  request_from-Step (some peer) c h is_nearest =
      let req = compose_request out c.draws gap c.home peer in
      let msg = request_to_message (out.stamp c.draws) c.sender incident_id req in
      let em = emit-Emits out req msg peer c in
      let t = (emit out req msg peer c).1 in
      let serves =
        compose_request-Serves out incident_id gap peer c h
          (nearest-is_candidate out c.home gap.asset_type [] c.peers peer is_nearest) in
      record {
        plan = λ gaps ts p.
            asked gap gaps ts peer t is_nearest
              (subst (λ m. Serves c.home gap peer t.request m) (sym em.carries.1)
                (subst (λ r. Serves c.home gap peer r msg) (sym em.carries.0) serves))
              p;
        same = (em.same.0, em.same.1, em.same.2);
        appended = ap (λ ts. ts ++ t ∷ []) em.same.3;
        dry = λ off. ((em.dry off).0, ((em.dry off).1, tt));
      }

  request_for-Step : (c : Coordinator) → Step out gap c (request_for out incident_id gap c)
  unfolding request_for
  request_for-Step c =
      if-ind (Step out gap c) (not (lt_int (pos 0) gap.shortfall))
        (λ e. record {
          plan = λ gaps ts p. covered gap gaps ts (ground arith) p;
          same = (refl, refl, refl);
          appended = sym (append-nil _);
          dry = λ _. (refl, tt);
        })
        (λ e.
          request_from-Step (nearest_provider out gap.asset_type [] c) c (ground arith)
            (nearest_provider-IsNearest out gap.asset_type [] c))

collected :
    (old : List AidTicket) (o : Option AidTicket) (ts : List AidTicket)
    → (old ++ collect o []) ++ ts ≡ old ++ collect o ts
collected old none ts = ap (λ x. x ++ ts) (append-nil old)
collected old (some t) ts = append_assoc old (t ∷ []) ts

All-collect :
    (P : AidTicket → Type 0) (o : Option AidTicket) (ts : List AidTicket)
    → All P (collect o [])
    → All P ts
    → All P (collect o ts)
All-collect P none ts h all = all
All-collect P (some t) ts h all = (h.0, all)

-- What a run over gaps does.
pub record Requested (out : Outside) (gaps : List ResourceGap) (c : Coordinator)
    (r : Coordinator × List AidTicket) : Type 0 where
  pub plan : Plan out c.home c.peers gaps r.1
  pub appended : r.0.tickets ≡ c.tickets ++ r.1
  pub dry : c.live ≡ false → (r.0.posts ≡ c.posts) × All (λ t. t.dispatched ≡ false) r.1

-- A run goes through the gaps in their order: one without a shortfall or without a peer that has
-- the asset type to spare gets no ticket, and every other one gets a ticket that asks the nearest
-- such peer for at least one and at most the shortfall and what that peer has to spare, escalates
-- exactly where the states differ, and can be read back from its message. The tickets are added to
-- the ledger, and a dry run calls no transport and marks no ticket as dispatched.
pub request_aid-Requested :
    (out : Outside) (incident_id : Value) (gaps : List ResourceGap) (c : Coordinator)
    → Requested out gaps c (request_aid out incident_id gaps c)
unfolding request_aid
request_aid-Requested out incident_id [] c = record {
  plan = done;
  appended = sym (append-nil _);
  dry = λ _. (refl, tt);
}
request_aid-Requested out incident_id (gap ∷ gaps) c =
    let step = request_for-Step out incident_id gap c in
    let (c', o) = request_for out incident_id gap c in
    let rest = request_aid-Requested out incident_id gaps c' in
    let ts = (request_aid out incident_id gaps c').1 in
    record {
      plan = step.plan gaps ts (
          subst (λ ps. Plan out c.home ps gaps ts) step.same.1
            (subst (λ h. Plan out h c'.peers gaps ts) step.same.0 rest.plan));
      appended = rest.appended ∙ rw step.appended (collected c.tickets o ts);
      dry = λ off.
          let first = step.dry off in
          let later = rest.dry (step.same.2 ∙ off) in
          (later.0 ∙ first.0, All-collect (λ t. t.dispatched ≡ false) o ts first.1 later.1);
    }
