-- ===== src/Federation/Tests.antt =====
-- The theorems on the federation at concrete districts.
use far_away.Prelude.{◌≡◌, refl, true, false, none, some, List, [], ◌∷◌, String}
use far_away.Prelude.Int.{ℤ, pos}
use far_away.Core.Value.{null}
use far_away.Core.Dict.{find}
use far_away.Core.Contracts.{high}
use far_away.Federation.Model.{
  boat, helicopter, asset_value, District, spare_in, AidRequest, AidOffer, offer,
}
use far_away.Federation.Messages.{
  Stamp, request_to_message, request_from_message, offer_from_message,
}
use far_away.Federation.RoundTrips.{request_as_read, request_from_message-request_to_message}
use far_away.Federation.Coordinator.{
  Outside, status, ResourceGap, Coordinator, nearest_provider, compose_request, request_aid,
  is_nearer, nearest_from, nearest_of, AidTicket, request_for, request_from, request_of, emit,
}
use far_away.Federation.Answering.{answer}
use far_away.Federation.Nearest.{IsNearest, nearest_provider-IsNearest}
use far_away.Federation.Requests.{Requested, request_aid-Requested}
use far_away.Federation.Answers.{Answers, answer-Answers}

abbrev a_stamp : Stamp
a_stamp = record { id = "m1"; timestamp = "2026-01-01T00:00:00+00:00" }

abbrev outside : Outside
outside = record {
  hex = λ n. "0123456789ab";
  stamp = λ n. a_stamp;
  post = λ n. status (pos 200);
  distance_m = λ a b. 7;
  numeral = λ n. "n";
}

abbrev district : String → String → ℤ → District
district district_id state boats = record {
  district_id = district_id;
  name = district_id;
  state = state;
  endpoint = "https://peer.example/aid";
  centroid_lat = (pos 0, 0);
  centroid_lon = (pos 0, 0);
  available = ("boat", boats) ∷ [];
}

abbrev three_peers : List District
three_peers =
    district "dc" "Odisha" (pos 3)
    ∷ district "da" "Odisha" (pos 0)
    ∷ district "db" "Andhra" (pos 2)
    ∷ []

abbrev coordinator : Coordinator
coordinator = record {
  home = district "home" "Odisha" (pos 4);
  peers = three_peers;
  live = false;
  sender = "federation.home";
  tickets = [];
  draws = 0;
  posts = [];
}

abbrev gaps : List ResourceGap
gaps =
    record { zone_id = "Z1"; asset_type = boat; shortfall = pos 5; note = "" }
    ∷ record { zone_id = "Z2"; asset_type = helicopter; shortfall = pos 1; note = "" }
    ∷ record { zone_id = "Z3"; asset_type = boat; shortfall = pos 1; note = "" }
    ∷ []

abbrev a_request : AidRequest String
a_request = record {
  request_id = "AID-REQ-1";
  from_district = "home";
  to_district = "db";
  zone_id = "Z1";
  asset_type = boat;
  quantity = pos 2;
  priority = high;
  cross_state = true;
  note = "";
}

abbrev an_offer : AidOffer String
an_offer = record {
  request_id = "AID-REQ-1";
  from_district = "db";
  to_district = "home";
  asset_type = boat;
  decision = offer;
  quantity = pos 2;
  note = "";
}

abbrev a_gap : ResourceGap
a_gap = record { zone_id = "Z1"; asset_type = boat; shortfall = pos 5; note = "" }

request_from_message-request_to_message_example :
    (request_from_message (request_to_message a_stamp "x" null a_request)
      ≡ some (request_as_read a_request))
    × (offer_from_message (request_to_message a_stamp "x" null a_request) ≡ none)
request_from_message-request_to_message_example =
    request_from_message-request_to_message a_stamp "x" null a_request

nearest_provider-IsNearest_example :
    IsNearest outside coordinator.home boat [] three_peers
      (nearest_provider outside boat [] coordinator)
nearest_provider-IsNearest_example = nearest_provider-IsNearest outside boat [] coordinator

-- Of two peers as far away, the one with the lesser id.
provider_of_boats :
    nearest_provider outside boat [] coordinator ≡ some (district "db" "Andhra" (pos 2))
unfolding nearest_provider nearest_of nearest_from is_nearer spare_in asset_value find
provider_of_boats = refl

request_aid-Requested_example :
    Requested outside gaps coordinator (request_aid outside null gaps coordinator)
request_aid-Requested_example = request_aid-Requested outside null gaps coordinator

answer-Answers_example :
    Answers
      (λ s. s)
      (("boat", pos 1) ∷ [])
      coordinator.home
      a_request
      (answer outside (λ s. s) (("boat", pos 1) ∷ []) coordinator.home a_request)
answer-Answers_example =
    answer-Answers outside (λ s. s) (("boat", pos 1) ∷ []) coordinator.home a_request

abbrev asked_of : List AidTicket → List (String × ℤ)
asked_of [] = []
asked_of (t ∷ ts) = (t.request.to_district, t.request.quantity) ∷ asked_of ts

-- A peer with two boats to spare is asked for three by the requests of one run.
three_asked :
    asked_of (request_aid outside null gaps coordinator).1 ≡ ("db", pos 2) ∷ ("db", pos 1) ∷ []
unfolding request_aid request_for request_from request_of compose_request emit nearest_provider
    nearest_of nearest_from is_nearer spare_in asset_value find
three_asked = refl
