-- ===== src/Pipeline/Tests/Rows.antt =====
-- The mapping and the row handlers of pipeline/ at concrete rows.
use data_effi.Prelude.{true, false, not, ◌&&◌, Option, some, is_some, List, [], ◌∷◌, ◌≡◌, refl}
use data_effi.Prelude.Int.{pos}
use data_effi.Prelude.Equality.{nat_eq, string_eq}
use data_effi.Dict.{lookup, insert}
use data_effi.Decimal.{Decimal}
use data_effi.Pipeline.Models.{BatchKind, ShipmentInput, MovementInput, SanityIssue}
use data_effi.Pipeline.Mapping.Status.{CanonStatus, canon}
use data_effi.Pipeline.Mapping.Resolve.{resolve_status}
use data_effi.Pipeline.Mapping.Resolve.Longest.{Recognised, resolve_status-Recognised}
use data_effi.Pipeline.Mapping.Movements.{resolve_movement_type}
use data_effi.Pipeline.Mapping.Headers.{HeaderState, build_header_map}
use data_effi.Pipeline.Normalize.Runtime.{Cell, is_space}
use data_effi.Pipeline.Normalize.Text.{normalize_text}
use data_effi.Pipeline.Normalize.Dates.{parse_date}
use data_effi.Pipeline.Normalize.Keys.{normalize_tracking}
use data_effi.Pipeline.Checks.Blocking.{is_future}
use data_effi.Pipeline.Rows.{get, Verdict}
use data_effi.Pipeline.Rows.Guide.{handle_shipment_row, attributes, shipment_of}
use data_effi.Pipeline.Rows.Payment.{handle_movement_row, movement_of}
use data_effi.Pipeline.Rows.Accepted.{
  is_accepted, handle_shipment_row-accepts, handle_shipment_row-IsSound, IsSound,
}
use data_effi.Pipeline.Tests.{context}
use data_effi.Pipeline.Tests.Files.{ascii, engine, guide_headers, guide_fields, payment_fields}

abbrev pasto : Option Cell
pasto = some (Cell.text "entregado en agencia (pasto)")

pasto_text : normalize_text ascii pasto ≡ some "entregado en agencia (pasto)"
unfolding normalize_text is_space
pasto_text = refl

-- the longest alias wins: not delivered, but in the office
pasto_status : resolve_status ascii pasto ≡ ("in_office", true)
unfolding resolve_status normalize_text is_space
pasto_status = refl

resolve_status-Recognised_example : Recognised "entregado en agencia (pasto)" "in_office"
resolve_status-Recognised_example =
    resolve_status-Recognised ascii pasto "entregado en agencia (pasto)" "in_office" pasto_text
      pasto_status

freight : resolve_movement_type ascii (some (Cell.text "flete")) ≡ (some "freight_out", true)
unfolding resolve_movement_type normalize_text is_space lookup
freight = refl

abbrev headers_found : HeaderState
headers_found = record {
  mapped =
      (0, "tracking_number") ∷ (1, "created_date") ∷ (2, "status_raw") ∷ (3, "declared_value") ∷ [];
  unmapped = "color" ∷ [];
  taken = "declared_value" ∷ "status_raw" ∷ "created_date" ∷ "tracking_number" ∷ [];
}

map_found : build_header_map ascii guide_headers BatchKind.shipments ≡ some headers_found
unfolding build_header_map normalize_text is_space lookup insert
map_found = refl

abbrev delivered : CanonStatus
delivered = record {
  code = "delivered";
  label = "Entregada";
  sort_order = 60;
  is_terminal = true;
  is_delivered = true;
  is_returned = false;
  bucket = "delivered";
}

handle_shipment_row-accepts_example :
    is_accepted (handle_shipment_row engine 1 guide_fields "COP").1 ≡ (
      is_some (normalize_tracking ascii (get guide_fields "tracking_number"))
      && is_some (parse_date ascii (get guide_fields "created_date"))
      && not (is_future 20000 (parse_date ascii (get guide_fields "created_date"))))
handle_shipment_row-accepts_example = handle_shipment_row-accepts engine 1 guide_fields "COP"

abbrev guide_input : ShipmentInput
guide_input = shipment_of engine 1 guide_fields "COP" "G1" 19844

guide_taken : handle_shipment_row engine 1 guide_fields "COP" ≡ ([], Verdict.accepted guide_input)
unfolding handle_shipment_row is_space lookup canon attributes normalize_text
guide_taken = refl

handle_shipment_row-IsSound_example : IsSound guide_input
handle_shipment_row-IsSound_example =
    handle_shipment_row-IsSound engine 1 guide_fields "COP" [] guide_input guide_taken

abbrev freight_amount : Decimal
freight_amount = record { units = pos 123456; scale = 2 }

abbrev freight_input : MovementInput
freight_input = movement_of engine context 1 payment_fields "COP" freight_amount

abbrev freight_issues : List SanityIssue
freight_issues = (handle_movement_row engine context 1 payment_fields "COP").0

freight_taken :
    handle_movement_row engine context 1 payment_fields "COP"
    ≡ (freight_issues, Verdict.accepted freight_input)
unfolding handle_movement_row is_space lookup
freight_taken = refl
