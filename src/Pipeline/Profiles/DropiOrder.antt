-- ===== src/Pipeline/Profiles/DropiOrder.antt =====
-- `transform_dropi_order` of pipeline/profiles.py.
use Prim.Native.String.{◌++◌}
use text.Mathlib.Text.{starts_with}
use data_effi.Prelude.{String, Bool, false, ◌||◌, Option, none, some, or_else, ltb, if◌then◌else◌}
use data_effi.Prelude.Int.{ℤ, pos, pos_part}
use data_effi.Prelude.Equality.{string_eq}
use data_effi.Dict.{lookup, insert, has_key}
use data_effi.Pipeline.Normalize.Runtime.{Cell, Runtime}
use data_effi.Pipeline.Normalize.Text.{normalize_text, clean_text}
use data_effi.Pipeline.Rows.{Fields, get}
use data_effi.Pipeline.Profiles.{as_cell, or_empty}
use data_effi.Pipeline.Profiles.Contents.{int_of}

-- the carrier's number, or a number made of Dropi's
unfoldable pub order_number : Option String → Option String → Option String
order_number (some carrier_number) order_id = some carrier_number
order_number none (some order_id) = some ("DROPI-" ++ order_id)
order_number none none = none

positive_count : Option ℤ → Bool
positive_count none = false
positive_count (some n) = ltb 0 (pos_part n)

-- the indemnity counter is a number above zero
unfoldable pub is_compensated : Runtime → Option Cell → Bool
unfolding positive_count int_of
is_compensated r none = false
is_compensated r (some counter) = positive_count (int_of r counter)

unfoldable pub numbered : Runtime → Fields → Fields → Fields
unfolding insert get clean_text order_number
numbered r mapped out =
    let carrier_number = clean_text r (get mapped "carrier_tracking_number") in
    let order_id = clean_text r (get mapped "external_order_id") in
    insert "carrier_tracking_number" (as_cell carrier_number)
      (insert "tracking_number" (as_cell (order_number carrier_number order_id)) out)

-- the counter wins over the status of the file
unfoldable pub order_with_status : Runtime → Fields → Fields → Fields
unfolding insert get clean_text is_compensated
order_with_status r mapped out =
    let detail = clean_text r (get mapped "status_detail") in
    if is_compensated r (get mapped "compensation_count")
    then insert "status_detail"
        (as_cell (or_else (clean_text r (get mapped "compensation_concept")) detail))
        (insert "status_raw" (some (Cell.text "Indemnizada")) out)
    else insert "status_detail" (as_cell detail)
        (insert "status_raw" (as_cell (clean_text r (get mapped "status_raw"))) out)

-- an order that came back
unfoldable pub came_back : Runtime → Option Cell → Bool
unfolding normalize_text
came_back r status =
    let key = or_empty (normalize_text r status) in
    starts_with key "devolucion" || starts_with key "devuelt"

-- only the return is charged for it
unfoldable pub with_freight : Runtime → Fields → Fields
unfolding insert get came_back
with_freight r out =
    if came_back r (get out "status_raw") then insert "freight_cost" none out else out

-- out.setdefault("quantity", 1)
unfoldable pub order_with_quantity : Fields → Fields
unfolding insert lookup
order_with_quantity out =
    if has_key "quantity" out then out else insert "quantity" (some (Cell.integer (pos 1))) out

unfoldable pub transform_dropi_order : Runtime → Fields → Fields
unfolding numbered order_with_status with_freight order_with_quantity
transform_dropi_order r mapped =
    order_with_quantity (with_freight r (order_with_status r mapped (numbered r mapped mapped)))
