-- ===== src/Pipeline/Rows/Guide.antt =====
-- `_handle_shipment_row` of pipeline/ingest.py.
use data_effi.Prelude.{
  ℕ, String, not, ◌&&◌, Option, none, some, List, [], ◌∷◌, ◌++◌, ltb, is_blank, if◌then◌else◌,
}
use data_effi.Prelude.Int.{ℤ, pos, pos_part}
use data_effi.Prelude.Equality.{string_eq}
use data_effi.Dict.{Dict, lookup}
use data_effi.Decimal.{Decimal}
use data_effi.Pipeline.Models.{Value, ShipmentInput, SanityIssue, RowFault}
use data_effi.Pipeline.Mapping.Resolve.{resolve_status}
use data_effi.Pipeline.Normalize.Runtime.{Cell}
use data_effi.Pipeline.Normalize.Text.{clean_text}
use data_effi.Pipeline.Normalize.Money.{parse_decimal, parse_int}
use data_effi.Pipeline.Normalize.Dates.{parse_date, parse_datetime}
use data_effi.Pipeline.Normalize.Keys.{normalize_tracking, normalize_currency, hash_customer}
use data_effi.Pipeline.Checks.{check_shipment, issue_if}
use data_effi.Pipeline.Rows.{
  Engine, Fields, get, is_true, warning, Verdict, abs_or_none, blocking, judged,
}

abbrev pub as_text : Option String → Option Value
as_text none = none
as_text (some s) = some (Value.text s)

abbrev pub as_date : Option ℕ → Option Value
as_date none = none
as_date (some d) = some (Value.date d)

abbrev pub as_timestamp : Option ℕ → Option Value
as_timestamp none = none
as_timestamp (some t) = some (Value.timestamp t)

abbrev pub as_decimal : Option Decimal → Option Value
as_decimal none = none
as_decimal (some d) = some (Value.decimal d)

-- `value if isinstance(value, bool) else None`
abbrev pub as_flag : Option Cell → Option Value
as_flag (some (Cell.bool b)) = some (Value.flag b)
as_flag _ = none

-- `max(parse_int(value, default=1) or 1, 1)`
abbrev pub at_least_one : Option ℤ → ℤ
at_least_one none = pos 1
at_least_one (some n) = if ltb 0 (pos_part n) then n else pos 1

-- encrypt_pii: no ciphertext of an empty text
abbrev pub ciphertext : (String → ℕ) → Option String → Option Value
ciphertext encrypt none = none
ciphertext encrypt (some s) = if is_blank s then none else some (Value.blob (encrypt s))

-- `_encrypt_contact`, one column
abbrev pub contact : Option (String → ℕ) → Option String → Option Value
contact none s = none
contact (some encrypt) s = ciphertext encrypt s

abbrev pub found : Option (Option Value) → Option Value
found none = none
found (some v) = v

abbrev pub found_amount : Option (Option Decimal) → Option Decimal
found_amount none = none
found_amount (some d) = d

-- the names of the amounts, each a column of its own
abbrev pub amount_names : List String
amount_names =
    "declared_value" ∷ "cod_collected" ∷ "freight_cost" ∷ "return_freight_cost" ∷ "product_cost"
    ∷ "platform_fee" ∷ "insurance_cost" ∷ "collection_fee" ∷ "freight_base" ∷ "sale_total"
    ∷ "distributor_sale_total" ∷ "distributor_cost_total" ∷ "supplier_sale_total" ∷ []

module _ (e : Engine) (row : ℕ) (mapped : Fields) (default_currency : String) where
  abbrev pub text_of : String → Option Value
  unfolding get clean_text
  text_of name = as_text (clean_text e.runtime (get mapped name))

  abbrev pub time_of : String → Option Value
  unfolding get parse_datetime
  time_of name = as_timestamp (parse_datetime e.runtime (get mapped name))

  abbrev pub contact_of : String → Option Value
  unfolding get clean_text
  contact_of name = contact e.encrypt (clean_text e.runtime (get mapped name))

  -- the attributes of the input, by name
  unfoldable pub attributes : ℕ → Dict String (Option Value)
  unfolding get parse_date parse_decimal parse_int normalize_tracking normalize_currency
      hash_customer
  attributes created =
      ("created_date", some (Value.date created))
      ∷ (
        "currency_code",
        some (
            Value.text
              (normalize_currency e.runtime (get mapped "currency_code") default_currency)),
      )
      ∷ ("status_detail", text_of "status_detail")
      ∷ (
        "carrier_tracking_number",
        as_text (normalize_tracking e.runtime (get mapped "carrier_tracking_number")),
      )
      ∷ ("external_order_id", text_of "external_order_id")
      ∷ (
        "customer_hash",
        as_text (hash_customer e.runtime (get mapped "customer_identifier") e.pii_salt),
      )
      ∷ ("customer_name_enc", contact_of "customer_name")
      ∷ ("customer_phone_enc", contact_of "customer_identifier")
      ∷ ("customer_document_enc", contact_of "customer_document")
      ∷ ("customer_address_enc", contact_of "customer_address")
      ∷ ("customer_city_name", text_of "city_name")
      ∷ ("carrier_name", text_of "carrier_name")
      ∷ ("geo_level1", text_of "geo_level1")
      ∷ ("city_name", text_of "city_name")
      ∷ ("product_name", text_of "product_name")
      ∷ ("supplier_name", text_of "supplier_name")
      ∷ ("store_name", text_of "store_name")
      ∷ (
        "quantity",
        some (
            Value.count
              (at_least_one (parse_int e.runtime (get mapped "quantity") (some (pos 1))))),
      )
      ∷ ("created_at_source", time_of "created_at_source")
      ∷ ("dispatched_at", time_of "dispatched_at")
      ∷ ("delivered_at", time_of "delivered_at")
      ∷ ("returned_at", time_of "returned_at")
      ∷ (
        "expected_delivery_date",
        as_date (parse_date e.runtime (get mapped "expected_delivery_date")),
      )
      ∷ ("settled_at", time_of "settled_at")
      ∷ ("settled_with_collection", as_flag (get mapped "settled_with_collection"))
      ∷ ("settled_any_at", time_of "settled_any_at")
      ∷ ("settled_return_at", time_of "settled_return_at")
      ∷ ("settled_return", as_flag (get mapped "settled_return"))
      ∷ ("service_level", text_of "service_level")
      ∷ ("weight_kg", as_decimal (parse_decimal e.runtime (get mapped "weight_kg")))
      ∷ ("discount_pct", as_decimal (parse_decimal e.runtime (get mapped "discount_pct")))
      ∷ ("dispatch_batch_ref", text_of "dispatch_batch_ref")
      ∷ ("dispatched_batch_at", time_of "dispatched_batch_at")
      ∷ ("distributor_name", text_of "distributor_name")
      ∷ []

  unfoldable pub amounts_of : List String → Dict String (Option Decimal)
  unfolding get parse_decimal abs_or_none
  amounts_of [] = []
  amounts_of (n ∷ ns) = (n, abs_or_none (parse_decimal e.runtime (get mapped n))) ∷ amounts_of ns

  unfoldable pub shipment_of : String → ℕ → ShipmentInput
  unfolding get clean_text parse_datetime resolve_status lookup amounts_of
  shipment_of tracking created = record {
    tracking_number = tracking;
    status_code = (resolve_status e.runtime (get mapped "status_raw")).0;
    status_raw = clean_text e.runtime (get mapped "status_raw");
    last_status_at = parse_datetime e.runtime (get mapped "last_status_at");
    attr = λ name. found (lookup name (attributes created));
    money = λ name. found_amount (lookup name (amounts_of amount_names));
    source_row_number = row;
  }

  -- what is said of the row before the checks
  abbrev pub notes : String → List SanityIssue
  unfolding get resolve_status
  notes tracking =
      issue_if
        (not (resolve_status e.runtime (get mapped "status_raw")).1
          && is_true (get mapped "status_raw"))
        (warning row tracking "unknown_status")
      ++ issue_if (is_true (get mapped "_extra_products"))
          (warning row tracking "multi_product_guide")

  unfoldable pub with_checks :
      ShipmentInput
      → List SanityIssue
      → Option (List SanityIssue)
      → List SanityIssue × Verdict ShipmentInput
  unfolding blocking
  with_checks shipment said none = (said, Verdict.refused RowFault.raised)
  with_checks shipment said (some issues) = (said ++ issues, judged shipment (blocking issues))

  unfoldable pub dated : String → Option ℕ → List SanityIssue × Verdict ShipmentInput
  unfolding shipment_of with_checks check_shipment
  dated tracking none = ([], Verdict.refused RowFault.unreadable_date)
  dated tracking (some created) =
      with_checks (shipment_of tracking created) (notes tracking)
        (check_shipment (shipment_of tracking created) e.today)

  unfoldable pub tracked : Option String → List SanityIssue × Verdict ShipmentInput
  unfolding dated get parse_date
  tracked none = ([], Verdict.refused RowFault.no_tracking)
  tracked (some tracking) = dated tracking (parse_date e.runtime (get mapped "created_date"))

  unfoldable pub handle_shipment_row : List SanityIssue × Verdict ShipmentInput
  unfolding tracked get normalize_tracking
  handle_shipment_row = tracked (normalize_tracking e.runtime (get mapped "tracking_number"))
