-- ===== src/Pipeline/Profiles/Wallet.antt =====
-- The movements of the two wallets in pipeline/profiles.py: their types and their transforms.
use text.Mathlib.Text.{starts_with}
use data_effi.Prelude.{
  String, Bool, true, false, ◌&&◌, Option, none, some, [], ◌∷◌, if◌then◌else◌, str_eq,
}
use data_effi.Prelude.Equality.{string_eq}
use data_effi.Dict.{Dict, lookup, insert}
use data_effi.Decimal.{Decimal, is_positive, decimal_neg}
use data_effi.Pipeline.Normalize.Runtime.{Cell, Runtime}
use data_effi.Pipeline.Normalize.Text.{normalize_text}
use data_effi.Pipeline.Normalize.Money.{parse_decimal}
use data_effi.Pipeline.Rows.{Fields, get}
use data_effi.Pipeline.Profiles.{as_cell}

-- EFFI_MOVEMENT_TYPES
abbrev pub effi_movement_types : Dict String String
effi_movement_types =
    ("recaudo de venta", "cod_collected")
    ∷ ("flete credito con recaudo", "freight_out")
    ∷ ("flete credito sin recaudo", "freight_out")
    ∷ ("flete credito devolucion", "freight_return")
    ∷ ("flete contado", "freight_out")
    ∷ ("compra de mercancia dropshipping a proveedor", "product_cost")
    ∷ ("compra de mercancia a proveedor", "product_cost")
    ∷ ("comision local por retiro de wallet", "withdrawal_fee")
    ∷ ("comision por recaudo", "collection_fee")
    ∷ ("retiro de dinero de cuenta", "withdrawal")
    ∷ ("retencion en la fuente a favor", "tax_withholding")
    ∷ ("retencion en la fuente", "tax_withholding")
    ∷ ("indemnizacion", "adjustment_in")
    ∷ ("ajuste manual", "adjustment_in")
    ∷ []

-- DROPI_MOVEMENT_TYPES
abbrev pub dropi_movement_types : Dict String String
dropi_movement_types =
    ("entrada por ganancia en la orden como dropshipper", "settlement_in")
    ∷ ("salida de cobro de devolucion por entrega no efectiva", "settlement_out")
    ∷ ("salida por nueva orden", "settlement_out")
    ∷ ("salida por peticion de retiro de saldo en cartera", "withdrawal")
    ∷ ("devolucion de dinero por garantia", "adjustment_in")
    ∷ []

-- the code of the first phrase, in the order of the table, that the text starts with
unfoldable pub first_phrase : String → Dict String String → Option String
first_phrase key [] = none
first_phrase key ((phrase, code) ∷ types) =
    let rest = first_phrase key types in if starts_with key phrase then some code else rest

abbrev pub recognised : Option String → Option String × Bool
recognised none = (none, false)
recognised (some code) = (some code, true)

dropi_type : Option String → Option String × Bool
unfolding first_phrase
dropi_type none = (none, false)
dropi_type (some key) = recognised (first_phrase key dropi_movement_types)

unfoldable pub resolve_dropi_movement_type : Runtime → Option Cell → Option String × Bool
unfolding dropi_type normalize_text
resolve_dropi_movement_type r description = dropi_type (normalize_text r description)

-- the whole text, or else a phrase that it starts with
effi_code : String → Option String → Option String × Bool
unfolding first_phrase
effi_code key (some code) = (some code, true)
effi_code key none = recognised (first_phrase key effi_movement_types)

effi_type : Option String → Option String × Bool
unfolding effi_code lookup
effi_type none = (none, false)
effi_type (some key) = effi_code key (lookup key effi_movement_types)

unfoldable pub resolve_effi_movement_type : Runtime → Option Cell → Option String × Bool
unfolding effi_type normalize_text
resolve_effi_movement_type r raw = effi_type (normalize_text r raw)

unfoldable pub typed : Option String × Bool → Fields → Fields
unfolding insert
typed (code, recognized) out =
    insert "_movement_type_recognized" (some (Cell.bool recognized))
      (insert "_movement_type_code" (as_cell code) out)

unfoldable pub transform_effi_movement : Runtime → Fields → Fields
unfolding typed resolve_effi_movement_type get
transform_effi_movement r mapped =
    typed (resolve_effi_movement_type r (get mapped "movement_type_raw")) mapped

-- `direction == "salida"`
abbrev pub is_out : Option String → Bool
is_out none = false
is_out (some direction) = str_eq direction "salida"

-- a magnitude that goes out is handed over negative
unfoldable pub directed : Option String → Option Decimal → Fields → Fields
unfolding insert decimal_neg
directed direction none out = out
directed direction (some amount) out =
    if is_out direction && is_positive amount
    then insert "amount" (some (Cell.decimal (decimal_neg amount))) out
    else out

unfoldable pub transform_dropi_movement : Runtime → Fields → Fields
unfolding typed directed resolve_dropi_movement_type normalize_text parse_decimal get
transform_dropi_movement r mapped =
    directed (normalize_text r (get mapped "direction_raw")) (parse_decimal r (get mapped "amount"))
      (typed (resolve_dropi_movement_type r (get mapped "description")) mapped)
