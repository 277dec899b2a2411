-- ===== src/Federation/Answering.antt =====
-- federation/coordinator.py: the answers of a district to the requests of others.
use Prim.Native.String.{◌++◌ as append}
use far_away.Prelude.{String, if◌then◌else◌}
use far_away.Prelude.Int.{ℤ, pos, lt_int, min_int}
use far_away.Core.Value.{Value}
use far_away.Core.Dict.{Dict}
use far_away.Core.Contracts.{high}
use far_away.Federation.Model.{
  asset_value, District, spare_in, AidRequest, offer, decline, AidOffer,
}
use far_away.Federation.Messages.{Stamp, FederationMessage, offer_to_message}
use far_away.Federation.Coordinator.{Outside, Coordinator}

module _ (out : Outside) where
  -- `answer`, where the request's texts are of the type `T`
  unfoldable pub answer :
      {T : Type 0} → (String → T) → (pool : Dict ℤ) → (home : District) → AidRequest T → AidOffer T
  unfolding spare_in asset_value
  answer as_text pool home req =
      let give = min_int req.quantity (pos (spare_in req.asset_type pool)) in
      let given = lt_int (pos 0) give in
      record {
        request_id = req.request_id;
        from_district = as_text home.district_id;
        to_district = req.from_district;
        asset_type = req.asset_type;
        decision = if given then offer else decline;
        quantity = if given then give else pos 0;
        note = as_text (
            if given
            then append "offering " (
                append (out.numeral give) (
                  append " of " (
                    append (out.numeral req.quantity)
                      (append " requested " (asset_value req.asset_type)))))
            else append "no spare " (append (asset_value req.asset_type) " available"));
      }

  -- `answer_message`
  unfoldable pub answer_message :
      Stamp → (incident_id : Value) → AidRequest String → Coordinator → FederationMessage
  unfolding answer offer_to_message
  answer_message stamp incident_id req c =
      offer_to_message stamp c.sender incident_id high (answer (λ s. s) c.home.available c.home req)
