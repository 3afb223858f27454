-- ===== src/Pipeline/Profiles/EffiGuide.antt =====
-- `transform_effi_guide` of pipeline/profiles.py.
use data_effi.Prelude.{
  ℕ, String, Bool, not, ◌&&◌, Option, none, some, List, [], ◌∷◌, any, or_else, ltb, if◌then◌else◌,
}
use data_effi.Prelude.Int.{pos}
use data_effi.Prelude.Equality.{string_eq}
use data_effi.Dict.{insert}
use data_effi.Pipeline.Normalize.Runtime.{Cell, Runtime}
use data_effi.Pipeline.Normalize.Text.{normalize_text, clean_text}
use data_effi.Pipeline.Rows.{Fields, get, is_true}
use data_effi.Pipeline.Profiles.{as_cell, or_empty}
use data_effi.Pipeline.Profiles.Contents.{Content, contains, parse_content, is_yes}

abbrev pub returned_hints : List String
returned_hints = "devolucion" ∷ "devuelto" ∷ "devuelta" ∷ []

abbrev pub delivered_hints : List String
delivered_hints = "entregad" ∷ "retirado en oficina" ∷ []

-- any(hint in status for hint in hints)
unfoldable pub hinted : String → List String → Bool
unfolding contains
hinted status hints = any (contains status) hints

abbrev count_cell : ℕ → Option Cell
count_cell n = some (Cell.integer (pos n))

abbrev flag_cell : Option Bool → Option Cell
flag_cell none = none
flag_cell (some b) = some (Cell.bool b)

unfoldable pub identified : Runtime → Fields → Fields → Fields
unfolding insert get clean_text
identified r mapped out =
    let carrier_number = clean_text r (get mapped "carrier_tracking_number") in
    let effi_id = clean_text r (get mapped "external_order_id") in
    insert "carrier_tracking_number" (as_cell carrier_number)
      (insert "tracking_number" (as_cell (or_else carrier_number effi_id)) out)

unfoldable pub with_status : Runtime → Fields → Fields → Fields
unfolding insert get clean_text
with_status r mapped out =
    let detail = clean_text r (get mapped "status_detail") in
    insert "status_detail" (as_cell detail)
      (insert "status_raw" (as_cell (or_else (clean_text r (get mapped "status_raw")) detail)) out)

-- the status that says what the final date is the date of
unfoldable pub effective : Runtime → Fields → String
unfolding get normalize_text
effective r mapped = or_empty (
    or_else (normalize_text r (get mapped "return_status_raw")) (
      or_else (normalize_text r (get mapped "status_raw"))
        (normalize_text r (get mapped "status_detail"))))

unfoldable pub final_date : Option Cell → String → Fields → Fields
unfolding insert hinted
final_date final status out =
    if is_true final
    then insert "last_status_at" final (
        if hinted status returned_hints
        then insert "returned_at" final out
        else if hinted status delivered_hints
        then insert "delivered_at" final out
        else out)
    else out

unfoldable pub cancelled : Option Cell → Fields → Fields
unfolding insert get
cancelled moment out =
    if is_true moment && not (is_true (get out "returned_at"))
    then insert "last_status_at" moment out
    else out

unfoldable pub with_name : Option String → Fields → Fields
unfolding insert
with_name none out = out
with_name (some name) out = insert "product_name" (some (Cell.text name)) out

unfoldable pub with_quantity : Option ℕ → Fields → Fields
unfolding insert
with_quantity none out = out
with_quantity (some n) out = if ltb 0 n then insert "quantity" (count_cell n) out else out

unfoldable pub with_product : Content → Fields → Fields
unfolding insert with_name with_quantity
with_product c out =
    insert "_extra_products" (count_cell c.extra_items)
      (with_quantity c.quantity (with_name c.product_name out))

unfoldable pub settled : Runtime → Fields → Fields → Fields
unfolding insert get is_yes
settled r mapped out =
    let flagged = insert "settled_return" (flag_cell (is_yes r (get mapped "settled_return"))) (
      insert "settled_with_collection" (flag_cell (is_yes r (get mapped "settled_with_collection")))
        out) in
    if is_true (get mapped "settled_at") then flagged else insert "settled_at" none flagged

-- the steps of the transform before the product
unfoldable pub guide_dates : Runtime → Fields → Fields
unfolding identified with_status effective final_date cancelled get
guide_dates r mapped = cancelled (get mapped "cancelled_at") (
    final_date (get mapped "final_status_date") (effective r mapped)
      (with_status r mapped (identified r mapped mapped)))

with_content : Runtime → Fields → Option Content → Option Fields
unfolding guide_dates with_product settled
with_content r mapped none = none
with_content r mapped (some c) = some (settled r mapped (with_product c (guide_dates r mapped)))

-- None is the exception of `parse_content`
unfoldable pub transform_effi_guide : Runtime → Fields → Option Fields
unfolding with_content parse_content get
transform_effi_guide r mapped = with_content r mapped (parse_content r (get mapped "content_raw"))
