-- ===== src/Federation/Coordinator.antt =====
-- federation/coordinator.py: the requests that a district sends for its gaps.
use Prim.Native.String.{◌++◌ as append}
use far_away.Prelude.{
  ℕ, suc, String, Bool, true, false, not, ◌&&◌, ◌||◌, Option, none, some, List, [], ◌∷◌, ◌+◌, ◌++◌,
  str_eq, ltb, ◌==◌, if◌then◌else◌, any, filter, or_else,
}
use far_away.Prelude.Int.{ℤ, pos, lt_int, min_int}
use far_away.Core.Value.{Value, Fields}
use far_away.Core.Dict.{Dict, find, put}
use far_away.Core.TextOrder.{text_lt}
use far_away.Core.Contracts.{Priority, critical, high, medium}
use far_away.Federation.Model.{
  AssetType, asset_value, Decimal, District, spare_in, spare, AidRequest,
}
use far_away.Federation.Messages.{Stamp, FederationMessage, request_to_message}

-- `ResourceGap` of models/domain.py
pub record ResourceGap : Type 0 where
  pub zone_id : String
  pub asset_type : AssetType
  pub shortfall : ℤ
  pub note : String

-- How a call of the transport ends: with a status, or with an exception's text.
pub data Posted : Type 0 where
  status : ℤ → Posted
  failed : String → Posted

-- `AidTicket`
pub record AidTicket : Type 0 where
  pub request : AidRequest String
  pub message : FederationMessage
  pub dispatched : Bool
  pub status : Option ℤ
  pub error : Option String

-- `MutualAidCoordinator`. `draws` counts the requests made, and `posts` are the calls of the
-- transport.
pub record Coordinator : Type 0 where
  pub home : District
  pub peers : List District
  pub live : Bool
  pub sender : String
  pub tickets : List AidTicket
  pub draws : ℕ
  pub posts : List (String × Fields)

-- What comes from outside: for the n-th request the draw of `uuid4().hex[:12]`, the id and the
-- timestamp of its message and the transport's ending; `LatLon.distance_m`, whose float, not
-- negative, is given by its 64 bits, which order such floats; the decimal numeral of an integer.
pub record Outside : Type 0 where
  pub hex : ℕ → String
  pub stamp : ℕ → Stamp
  pub post : ℕ → Posted
  pub distance_m : Decimal × Decimal → Decimal × Decimal → ℕ
  pub numeral : ℤ → String

abbrev centroid : District → Decimal × Decimal
centroid d = (d.centroid_lat, d.centroid_lon)

-- `MutualAidCoordinator(...)`; an empty `sender` stands for `None`, which the code treats alike
unfoldable pub new_coordinator :
    (home : District) (peers : List District) (live : Bool) (sender : String) → Coordinator
new_coordinator home peers live sender = record {
  home = home;
  peers = peers;
  live = live;
  sender = if str_eq sender "" then append "federation." home.district_id else sender;
  tickets = [];
  draws = 0;
  posts = [];
}

-- `spare_from_assets`, on the type and the availability of each asset
unfoldable pub spare_from_assets : List (AssetType × Bool) → Dict ℕ → Dict ℕ
unfolding asset_value find put
spare_from_assets [] pool = pool
spare_from_assets ((t, available) ∷ rest) pool =
    let key = asset_value t in
    spare_from_assets rest
      (if available then put key (or_else (find key pool) 0 + 1) pool else pool)

-- `_priority_for_gap`
unfoldable pub priority_for_gap : ResourceGap → Priority
priority_for_gap gap =
    if not (lt_int gap.shortfall (pos 5))
    then critical
    else if not (lt_int gap.shortfall (pos 2))
    then high
    else medium

-- `qty` of `compose_request`
abbrev pub quantity_for : ℕ → ℤ → ℤ
quantity_for spare shortfall = if spare == 0 then shortfall else min_int shortfall (pos spare)

-- `_is_cross_state`
abbrev pub is_cross_state : District → District → Bool
is_cross_state home peer = not (str_eq peer.state home.state)

-- `p.district_id not in excl and p.spare(asset_type) > 0`
abbrev pub is_candidate : AssetType → List String → District → Bool
is_candidate asset_type exclude p =
    not (any (str_eq p.district_id) exclude) && ltb 0 (spare p asset_type)

-- the ticket of a call of the transport
abbrev pub ticket_of : AidRequest String → FederationMessage → Posted → AidTicket
ticket_of req msg (status n) = record {
  request = req;
  message = msg;
  dispatched = true;
  status = some n;
  error = none;
}
ticket_of req msg (failed text) = record {
  request = req;
  message = msg;
  dispatched = false;
  status = none;
  error = some text;
}

abbrev pub collect : Option AidTicket → List AidTicket → List AidTicket
collect none tickets = tickets
collect (some ticket) tickets = ticket ∷ tickets

module _ (out : Outside) where
  -- `_peer_distance`
  abbrev pub peer_distance : District → District → ℕ
  peer_distance home peer = out.distance_m (centroid home) (centroid peer)

  -- The order of the pairs of distance and id.
  unfoldable pub is_nearer : District → District → District → Bool
  is_nearer home a b =
      let (da, db) : ℕ × ℕ = (peer_distance home a, peer_distance home b) in
      ltb da db || (da == db && text_lt a.district_id b.district_id)

  -- `min` with that order: the first of the least
  unfoldable pub nearest_from : District → District → List District → District
  unfolding is_nearer
  nearest_from home best [] = best
  nearest_from home best (p ∷ rest) =
      nearest_from home (if is_nearer home p best then p else best) rest

  unfoldable pub nearest_of : District → List District → Option District
  unfolding nearest_from
  nearest_of home [] = none
  nearest_of home (p ∷ rest) = some (nearest_from home p rest)

  -- `nearest_provider`
  unfoldable pub nearest_provider :
      AssetType → (exclude : List String) → Coordinator → Option District
  unfolding nearest_of spare_in
  nearest_provider asset_type exclude c =
      nearest_of c.home (filter (is_candidate asset_type exclude) c.peers)

  -- `compose_request`, as the n-th request
  unfoldable pub compose_request : ℕ → ResourceGap → (home peer : District) → AidRequest String
  unfolding priority_for_gap spare_in
  compose_request n gap home peer =
      let cross = is_cross_state home peer in
      record {
        request_id = append "AID-REQ-" (out.hex n);
        from_district = home.district_id;
        to_district = peer.district_id;
        zone_id = gap.zone_id;
        asset_type = gap.asset_type;
        quantity = quantity_for (spare peer gap.asset_type) gap.shortfall;
        priority = priority_for_gap gap;
        cross_state = cross;
        note =
            if not (str_eq gap.note "")
            then gap.note
            else if cross
            then "cross-state mutual aid (escalates per PRD Step 7)"
            else "in-state adjacent-district mutual aid (PRD Step 4)";
      }

  -- `_emit`
  unfoldable pub emit :
      AidRequest String → FederationMessage → District → Coordinator → Coordinator × AidTicket
  emit req msg peer c =
      if not c.live
      then (
        c,
        record { request = req; message = msg; dispatched = false; status = none; error = none },
      )
      else (
        record c { posts = c.posts ++ (peer.endpoint, msg.payload) ∷ [] },
        ticket_of req msg (out.post c.draws),
      )

  -- the loop's body once the peer is chosen
  unfoldable pub request_of : Value → ResourceGap → District → Coordinator → Coordinator × AidTicket
  unfolding compose_request request_to_message emit
  request_of incident_id gap peer c =
      let req = compose_request c.draws gap c.home peer in
      let msg = request_to_message (out.stamp c.draws) c.sender incident_id req in
      let (c', ticket) = emit req msg peer c in
      (record c' { tickets = c'.tickets ++ ticket ∷ []; draws = suc c'.draws }, ticket)

  -- the loop's body from the choice of the peer on
  unfoldable pub request_from :
      Value → ResourceGap → Option District → Coordinator → Coordinator × Option AidTicket
  unfolding request_of
  request_from incident_id gap none c = (c, none)
  request_from incident_id gap (some peer) c =
      let (c', ticket) = request_of incident_id gap peer c in (c', some ticket)

  -- the loop's body
  unfoldable pub request_for : Value → ResourceGap → Coordinator → Coordinator × Option AidTicket
  unfolding nearest_provider request_from
  request_for incident_id gap c =
      if not (lt_int (pos 0) gap.shortfall)
      then (c, none)
      else request_from incident_id gap (nearest_provider gap.asset_type [] c) c

  -- `request_aid`
  unfoldable pub request_aid :
      (incident_id : Value) → List ResourceGap → Coordinator → Coordinator × List AidTicket
  unfolding request_for
  request_aid incident_id [] c = (c, [])
  request_aid incident_id (gap ∷ gaps) c =
      let (c', ticket) = request_for incident_id gap c in
      let (c'', tickets) = request_aid incident_id gaps c' in (c'', collect ticket tickets)
