-- ===== src/Pipeline/Tests.antt =====
-- Concrete inputs for the theorems on pipeline/: a guide in transit that a second file delivers.
mod Merge
mod Store
pub mod Files
mod Rows
mod Engine
mod Profiles
mod Wallets
mod Readers
use data_effi.Prelude.{ℕ, String, Bool, Option, none, some, str_eq, if◌then◌else◌, or_else}
use data_effi.Decimal.{Decimal, whole}
use data_effi.Pipeline.Models.{Value, BatchKind, ShipmentInput, MovementInput, BatchContext}
use data_effi.Pipeline.Merge.{ShipmentRecord}

abbrev only {ℓ} : {A : Type ℓ} → String → A → String → Option A
only name value n = if str_eq name n then some value else none

abbrev guide : ShipmentRecord
guide = record {
  tracking_number = "G1";
  connection_id = 7;
  tenant_id = 1;
  country_code = "CO";
  status_code = "in_transit";
  status_raw = some "En ruta";
  last_status_at = some 100;
  attr = only "carrier_tracking_number" (Value.text "C9");
  money = only "declared_value" (whole 89900);
  first_batch_id = some 1;
  last_batch_id = some 1;
}

abbrev row : ShipmentInput
row = record {
  tracking_number = "G1";
  status_code = "delivered";
  status_raw = some "Entregado";
  last_status_at = some 200;
  attr = λ n.
      or_else (only "city_name" (Value.text "Pasto") n)
        (only "carrier_tracking_number" (Value.text "C9") n);
  money = only "declared_value" (whole 91000);
  source_row_number = 4;
}

abbrev context : BatchContext
context = record {
  batch_id = 2;
  tenant_id = 1;
  connection_id = 7;
  country_code = "CO";
  platform_code = "effi";
  kind = BatchKind.shipments;
}

abbrev payment : MovementInput
payment = record {
  movement_type_code = "cod_collected";
  movement_date = 20000;
  amount = whole 91000;
  currency_code = "COP";
  dedupe_key = "k1";
  tracking_number_raw = some "C9";
  external_ref = some "R1";
  description = none;
  source_row_number = 1;
}
