-- ===== src/Pipeline/Tests/Merge.antt =====
-- The merge of pipeline/ingest.py at concrete rows.
use data_effi.Prelude.{true, false, some, none, [], ◌∷◌, ◌≡◌, ◌≢◌, refl, ◌≤◌}
use data_effi.Decimal.{whole, decimal_eq}
use data_effi.Dict.{lookup, insert}
use data_effi.Pipeline.Mapping.Status.{CanonStatus, canon}
use data_effi.Pipeline.Models.{Value, Entity}
use data_effi.Pipeline.Merge.{
  ShipmentRecord, MergeOutcome, merge_shipment, apply_merge, empty_outcome,
}
use data_effi.Pipeline.Merge.Status.{
  rank, Sightings, StatusStep, merge-StatusStep, status_never_regresses, final_status_is_frozen,
}
use data_effi.Pipeline.Merge.Fields.{static_fills_gaps, money_newest_wins, HoldsNewest}
use data_effi.Pipeline.Merge.Idempotence.{merge_again}
use data_effi.Pipeline.Tests.{guide, row}

abbrev outcome : MergeOutcome
outcome = record {
  status = some ("delivered", some "Entregado");
  last_status_at = some 200;
  attrs = ("city_name", Value.text "Pasto") ∷ [];
  money = ("declared_value", whole 91000) ∷ [];
  last_batch_id = none;
  discrepancies =
      (record {
        entity = Entity.shipment;
        entity_key = "G1";
        field_name = "declared_value";
        old_value = whole 89900;
        new_value = whole 91000;
      })
      ∷ [];
  status_advanced = true;
}

delivered : merge_shipment guide row ≡ some outcome
unfolding merge_shipment canon lookup decimal_eq insert
delivered = refl

abbrev later : ShipmentRecord
later = apply_merge guide outcome

abbrev final : CanonStatus
final = record {
  code = "delivered";
  label = "Entregada";
  sort_order = 60;
  is_terminal = true;
  is_delivered = true;
  is_returned = false;
  bucket = "delivered";
}

is_final : canon later.status_code ≡ some final
unfolding apply_merge canon lookup
is_final = refl

not_lost : later.status_code ≢ "lost"
unfolding apply_merge
not_lost h = cc

status_never_regresses_example : rank guide.status_code ≤ rank later.status_code
status_never_regresses_example =
    status_never_regresses guide later (Sightings.again Sightings.first row outcome delivered refl)

-- A second sighting of the delivered guide.
abbrev again_later : ShipmentRecord
again_later = apply_merge later empty_outcome

final_status_is_frozen_example : again_later.status_code ≡ later.status_code
final_status_is_frozen_example =
    final_status_is_frozen later again_later final is_final refl not_lost
      (Sightings.again Sightings.first row empty_outcome (merge_again guide row delivered) refl)

merge-StatusStep_example : StatusStep guide.status_code later.status_code
merge-StatusStep_example = merge-StatusStep guide row delivered

static_fills_gaps_example : later.attr "city_name" ≡ some (Value.text "Pasto")
static_fills_gaps_example = static_fills_gaps guide row delivered "city_name" refl

money_newest_wins_example :
    HoldsNewest decimal_eq
      (guide.money "declared_value")
      (row.money "declared_value")
      (later.money "declared_value")
money_newest_wins_example = money_newest_wins guide row delivered "declared_value" refl

merge_again_example : merge_shipment later row ≡ some empty_outcome
merge_again_example = merge_again guide row delivered
