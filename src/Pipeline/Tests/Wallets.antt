-- ===== src/Pipeline/Tests/Wallets.antt =====
-- The transforms of pipeline/profiles.py at concrete rows.
use data_effi.Prelude.{true, false, ◌&&◌, Option, none, some, [], ◌∷◌, ◌≡◌, refl, is_some}
use data_effi.Prelude.Int.{pos}
use data_effi.Prelude.Equality.{string_eq}
use data_effi.Dict.{lookup, insert}
use data_effi.Decimal.{Decimal, decimal_abs, is_positive, whole}
use data_effi.Pipeline.Normalize.Runtime.{Cell, is_space}
use data_effi.Pipeline.Normalize.Text.{normalize_text}
use data_effi.Pipeline.Normalize.Money.{parse_decimal}
use data_effi.Pipeline.Rows.{Fields, get}
use data_effi.Pipeline.Rows.Payment.{movement_type}
use data_effi.Pipeline.Profiles.EffiGuide.{transform_effi_guide}
use data_effi.Pipeline.Profiles.DropiOrder.{transform_dropi_order}
use data_effi.Pipeline.Profiles.Wallet.{transform_effi_movement, transform_dropi_movement, is_out}
use data_effi.Pipeline.Profiles.Signed.{IsDirected, wallet_types-IsDirected}
use data_effi.Pipeline.Profiles.Outgoing.{transform_dropi_movement-amount}
use data_effi.Pipeline.Profiles.Guided.Result.{IsGuided, transform_effi_guide-IsGuided}
use data_effi.Pipeline.Tests.Files.{ascii, engine}
use data_effi.Pipeline.Tests.{context}

abbrev guide_row : Fields
guide_row =
    ("carrier_tracking_number", some (Cell.text "G1"))
    ∷ ("status_raw", some (Cell.text "entregada"))
    ∷ ("final_status_date", some (Cell.text "2024-05-01"))
    ∷ ("content_raw", some (Cell.text "3 * cafe , molido. 1 * te."))
    ∷ ("declared_value", some (Cell.text "89.900"))
    ∷ []

abbrev or_same : Option Fields → Fields
or_same none = []
or_same (some out) = out

or_same_lem : (o : Option Fields) → is_some o ≡ true → o ≡ some (or_same o)
or_same_lem none h = cc
or_same_lem (some out) h = refl

abbrev guided : Fields
guided = or_same (transform_effi_guide ascii guide_row)

transforms : is_some (transform_effi_guide ascii guide_row) ≡ true
unfolding transform_effi_guide lookup insert is_space
transforms = refl

product :
    (get guided "product_name" ≡ some (Cell.text "cafe molido"))
    × (get guided "quantity" ≡ some (Cell.integer (pos 3)))
    × (get guided "_extra_products" ≡ some (Cell.integer (pos 1)))
    × (get guided "delivered_at" ≡ some (Cell.text "2024-05-01"))
unfolding transform_effi_guide lookup insert is_space get
product = (refl, refl, refl, refl)

transform_effi_guide-IsGuided_example : IsGuided ascii guide_row guided
transform_effi_guide-IsGuided_example =
    transform_effi_guide-IsGuided ascii guide_row guided
      (or_same_lem (transform_effi_guide ascii guide_row) transforms)

abbrev order_row : Fields
order_row =
    ("external_order_id", some (Cell.text "77"))
    ∷ ("status_raw", some (Cell.text "devolucion"))
    ∷ ("freight_cost", some (Cell.text "12.000"))
    ∷ ("compensation_count", some (Cell.text "0"))
    ∷ []

numbered_by_dropi :
    get (transform_dropi_order ascii order_row) "tracking_number" ≡ some (Cell.text "DROPI-77")
unfolding transform_dropi_order lookup insert is_space get
numbered_by_dropi = refl

abbrev wallet_row : Fields
wallet_row =
    ("movement_type_raw", some (Cell.text "recaudo de venta (parcial)"))
    ∷ ("description", some (Cell.text "salida por nueva orden 77"))
    ∷ ("direction_raw", some (Cell.text "salida"))
    ∷ ("amount", some (Cell.decimal (whole 5000)))
    ∷ []

wallet_types-IsDirected_example :
    IsDirected
      (movement_type engine context 1 (transform_effi_movement engine.runtime wallet_row) "COP")
    × IsDirected
        (movement_type engine context 1 (transform_dropi_movement engine.runtime wallet_row) "COP")
wallet_types-IsDirected_example = wallet_types-IsDirected engine context 1 "COP" wallet_row

way : normalize_text ascii (get wallet_row "direction_raw") ≡ some "salida"
unfolding normalize_text get lookup is_space
way = refl

given : parse_decimal ascii (get wallet_row "amount") ≡ some (whole 5000)
unfolding parse_decimal get lookup
given = refl

transform_dropi_movement-amount_example :
    (b : Decimal) × (parse_decimal ascii (get (transform_dropi_movement ascii wallet_row) "amount")
      ≡ some b)
    × (decimal_abs b ≡ decimal_abs (whole 5000))
    × ((is_out (some "salida") && is_positive b) ≡ false)
    × (is_out (some "salida") ≡ false → b ≡ whole 5000)
transform_dropi_movement-amount_example =
    transform_dropi_movement-amount ascii wallet_row (some "salida") (whole 5000) way given
