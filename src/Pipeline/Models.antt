-- ===== src/Pipeline/Models.antt =====
-- pipeline/models.py: the data that the engine and the stores share.
--
-- A UUID is only compared, so it is a number; a date is its day number, a timestamp its
-- microseconds, a ciphertext a number that is carried and never read. `getattr` by name is a
-- function from the field's name, one for the money fields and one for the others.
use data_effi.Prelude.{
  ℕ, String, ◌≡◌, refl, Bool, true, false, not, Option, List, [], ◌∷◌, ◌==◌, ◌+◌, str_eq,
  str_eq_refl, ==_iff, arith,
}
use data_effi.Prelude.Int.{ℤ, pos_part, neg_part}
use data_effi.Dict.{Dict}
use data_effi.Decimal.{Decimal, decimal_eq, decimal_eq_refl}

pub data BatchKind : Type 0 where
  shipments movements ads cs : BatchKind

pub data RowOutcome : Type 0 where
  inserted updated skipped failed : RowOutcome

-- what a field that is not money holds when it is not None
pub data Value : Type 0 where
  text : String → Value
  blob : ℕ → Value
  count : ℤ → Value
  date : ℕ → Value
  timestamp : ℕ → Value
  decimal : Decimal → Value
  flag : Bool → Value

abbrev int_eq : ℤ → ℤ → Bool
int_eq a b = pos_part a + neg_part b == pos_part b + neg_part a

abbrev bool_eq : Bool → Bool → Bool
bool_eq true b = b
bool_eq false b = not b

-- Python's `==`
unfoldable pub value_eq : Value → Value → Bool
value_eq (text a) (text b) = str_eq a b
value_eq (blob a) (blob b) = a == b
value_eq (count a) (count b) = int_eq a b
value_eq (date a) (date b) = a == b
value_eq (timestamp a) (timestamp b) = a == b
value_eq (decimal a) (decimal b) = decimal_eq a b
value_eq (flag a) (flag b) = bool_eq a b
value_eq _ _ = false

pub value_eq_refl : (v : Value) → value_eq v v ≡ true
unfolding value_eq
value_eq_refl (text a) = str_eq_refl a
value_eq_refl (blob a) = (==_iff a a).1 refl
value_eq_refl (count a) = (==_iff _ _).1 refl
value_eq_refl (date a) = (==_iff a a).1 refl
value_eq_refl (timestamp a) = (==_iff a a).1 refl
value_eq_refl (decimal a) = decimal_eq_refl a
value_eq_refl (flag a) = ground arith

abbrev pub static_fields : List String
static_fields =
    "external_order_id" ∷ "carrier_tracking_number" ∷ "customer_hash" ∷ "customer_name_enc"
    ∷ "customer_phone_enc" ∷ "customer_document_enc" ∷ "customer_address_enc" ∷ "customer_city_name"
    ∷ "carrier_name" ∷ "geo_level1" ∷ "city_name" ∷ "product_name" ∷ "supplier_name" ∷ "store_name"
    ∷ "quantity" ∷ "created_date" ∷ "created_at_source" ∷ "currency_code" ∷ "dispatched_at"
    ∷ "delivered_at" ∷ "returned_at" ∷ "expected_delivery_date" ∷ "service_level" ∷ "weight_kg"
    ∷ "discount_pct" ∷ "dispatch_batch_ref" ∷ "dispatched_batch_at" ∷ "distributor_name" ∷ []

abbrev pub money_fields : List String
money_fields =
    "declared_value" ∷ "cod_collected" ∷ "freight_cost" ∷ "return_freight_cost" ∷ "product_cost"
    ∷ "platform_fee" ∷ "insurance_cost" ∷ "collection_fee" ∷ "freight_base" ∷ "sale_total"
    ∷ "distributor_sale_total" ∷ "distributor_cost_total" ∷ "supplier_sale_total" ∷ []

abbrev pub progress_fields : List String
progress_fields =
    "settled_at" ∷ "settled_with_collection" ∷ "settled_any_at" ∷ "settled_return_at"
    ∷ "settled_return" ∷ "status_detail" ∷ []

pub record ShipmentInput : Type 0 where
  pub tracking_number : String
  pub status_code : String
  pub status_raw : Option String
  pub last_status_at : Option ℕ
  pub attr : String → Option Value
  pub money : String → Option Decimal
  pub source_row_number : ℕ

-- `amount` is a magnitude; the direction is the type's sign
pub record MovementInput : Type 0 where
  pub movement_type_code : String
  pub movement_date : ℕ
  pub amount : Decimal
  pub currency_code : String
  pub dedupe_key : String
  pub tracking_number_raw : Option String
  pub external_ref : Option String
  pub description : Option String
  pub source_row_number : ℕ

pub record BatchContext : Type 0 where
  pub batch_id : ℕ
  pub tenant_id : ℕ
  pub connection_id : ℕ
  pub country_code : String
  pub platform_code : String
  pub kind : BatchKind

pub data Entity : Type 0 where
  shipment movement : Entity

-- The values are kept as numbers; the source keeps the text that `str` gives for them.
pub record Discrepancy : Type 0 where
  pub entity : Entity
  pub entity_key : String
  pub field_name : String
  pub old_value : Decimal
  pub new_value : Decimal

pub record UpsertResult : Type 0 where
  pub outcome : RowOutcome
  pub entity_key : String
  pub discrepancies : List Discrepancy

pub record SourceRow : Type 0 where
  pub row_number : ℕ
  pub entity_key : Option String
  pub payload : Dict String (Option String)
  pub redacted_fields : List String

pub data Severity : Type 0 where
  warning error : Severity

-- The message that the source formats for the reader is left out: `code` names it.
pub record SanityIssue : Type 0 where
  pub row_number : ℕ
  pub entity_key : String
  pub code : String
  pub severity : Severity

-- What the source writes out as the message of a `RowError`.
pub data RowFault : Type 0 where
  country_mismatch : String → String → RowFault
  missing_columns : List String → RowFault
  no_tracking unreadable_date unreadable_amount raised : RowFault
  blocked : SanityIssue → RowFault

pub record RowError : Type 0 where
  pub row_number : ℕ
  pub fault : RowFault

-- `started_at`, `finished_at`, `warnings` and the profile's label are left out.
pub record IngestReport : Type 0 where
  pub batch_id : Option ℕ
  pub content_hash : String
  pub source_name : String
  pub kind : BatchKind
  pub already_loaded : Bool
  pub rows_total : ℕ
  pub rows_inserted : ℕ
  pub rows_updated : ℕ
  pub rows_skipped : ℕ
  pub rows_failed : ℕ
  pub discrepancies : List Discrepancy
  pub sanity_issues : List SanityIssue
  pub errors : List RowError
  pub unmapped_columns : List String
  pub profile_code : Option String
  pub detected_country_code : Option String
  pub rows_stored : ℕ

-- report.ok
unfoldable pub ok : IngestReport → Bool
ok r = r.rows_failed == 0
