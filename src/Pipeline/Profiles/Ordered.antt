-- ===== src/Pipeline/Profiles/Ordered.antt =====
-- The fields of an order after `transform_dropi_order` of pipeline/profiles.py.
use data_effi.Prelude.{
  String, true, false, Option, none, some, List, [], ◌∷◌, ◌≡◌, refl, if◌then◌else◌, mentions,
}
use data_effi.Prelude.Equality.{string_eq}
use data_effi.Dict.{lookup, has_key}
use data_effi.Prelude.Int.{pos}
use data_effi.Pipeline.Normalize.Runtime.{Cell, Runtime}
use data_effi.Pipeline.Normalize.Text.{clean_text}
use data_effi.Pipeline.Rows.{Fields, get}
use data_effi.Pipeline.Profiles.{as_cell}
use data_effi.Pipeline.Profiles.Leaves.{
  Leaves, insert-Leaves, seq-Leaves, choose-Leaves, keep-Leaves,
}
use data_effi.Pipeline.Profiles.DropiOrder.{
  order_number, is_compensated, came_back, numbered, order_with_status, with_freight,
  order_with_quantity,
}

abbrev pub order_fields : List String
order_fields =
    "tracking_number" ∷ "carrier_tracking_number" ∷ "status_raw" ∷ "status_detail" ∷ "freight_cost"
    ∷ "quantity" ∷ []

-- The status that the handler is given.
abbrev pub order_status : Runtime → Fields → Option Cell
order_status r mapped =
    if is_compensated r (get mapped "compensation_count")
    then some (Cell.text "Indemnizada")
    else as_cell (clean_text r (get mapped "status_raw"))

-- The order that the handler is given.
pub record IsOrdered (r : Runtime) (mapped out : Fields) : Type 0 where
  pub others :
      (name : String) → mentions order_fields name ≡ false → lookup name out ≡ lookup name mapped
  pub number :
      get out "tracking_number"
      ≡ as_cell (
          order_number
            (clean_text r (get mapped "carrier_tracking_number"))
            (clean_text r (get mapped "external_order_id")))
  pub status : get out "status_raw" ≡ order_status r mapped
  pub freight :
      get out "freight_cost"
      ≡ (if came_back r (order_status r mapped) then none else get mapped "freight_cost")
  pub counted : has_key "quantity" out ≡ true

module _ (ns : List String) where
  numbered-Leaves :
      (r : Runtime) (mapped : Fields)
      → mentions ns "tracking_number" ≡ true
      → mentions ns "carrier_tracking_number" ≡ true
      → Leaves ns (numbered r mapped)
  unfolding numbered
  numbered-Leaves r mapped h k =
      seq-Leaves ns _ _ (insert-Leaves ns "tracking_number" _ h)
        (insert-Leaves ns "carrier_tracking_number" _ k)

  order_with_status-Leaves :
      (r : Runtime) (mapped : Fields)
      → mentions ns "status_raw" ≡ true
      → mentions ns "status_detail" ≡ true
      → Leaves ns (order_with_status r mapped)
  unfolding order_with_status
  order_with_status-Leaves r mapped h k =
      choose-Leaves ns (is_compensated r (get mapped "compensation_count")) _ _
        (seq-Leaves ns _ _ (insert-Leaves ns "status_raw" _ h)
          (insert-Leaves ns "status_detail" _ k))
        (seq-Leaves ns _ _ (insert-Leaves ns "status_raw" _ h)
          (insert-Leaves ns "status_detail" _ k))

  with_freight-Leaves :
      (r : Runtime) → mentions ns "freight_cost" ≡ true → Leaves ns (with_freight r)
  unfolding with_freight
  with_freight-Leaves r h name out =
      choose-Leaves ns (came_back r (get out "status_raw")) _ _
        (insert-Leaves ns "freight_cost" none h) (keep-Leaves ns) name out

  order_with_quantity-Leaves : mentions ns "quantity" ≡ true → Leaves ns order_with_quantity
  unfolding order_with_quantity
  order_with_quantity-Leaves h name out =
      choose-Leaves ns (has_key "quantity" out) _ _ (keep-Leaves ns)
        (insert-Leaves ns "quantity" (some (Cell.integer (pos 1))) h) name out

module _ (r : Runtime) (mapped : Fields) where
  abbrev with_number : Fields
  with_number = numbered r mapped mapped

  abbrev known : Fields
  known = order_with_status r mapped with_number

  abbrev charged : Fields
  charged = with_freight r known

  abbrev only_quantity : Leaves ("quantity" ∷ []) order_with_quantity
  only_quantity = order_with_quantity-Leaves ("quantity" ∷ []) refl

  abbrev only_freight : Leaves ("freight_cost" ∷ []) (with_freight r)
  only_freight = with_freight-Leaves ("freight_cost" ∷ []) r refl

  abbrev only_status : Leaves ("status_raw" ∷ "status_detail" ∷ []) (order_with_status r mapped)
  only_status = order_with_status-Leaves ("status_raw" ∷ "status_detail" ∷ []) r mapped refl refl

  abbrev only_number :
      Leaves ("tracking_number" ∷ "carrier_tracking_number" ∷ []) (numbered r mapped)
  only_number =
      numbered-Leaves ("tracking_number" ∷ "carrier_tracking_number" ∷ []) r mapped refl refl
