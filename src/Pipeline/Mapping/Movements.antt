-- ===== src/Pipeline/Mapping/Movements.antt =====
-- The movement types of pipeline/mapping.py: their directions, their aliases, and their resolution.
use data_effi.Prelude.{
  String, Bool, true, false, Option, none, some, [], ◌∷◌, if◌then◌else◌, ◌≡◌, refl, arith,
  Option-cases, inl, inr, subst,
}
use data_effi.Prelude.Int.{ℤ, pos, negsuc}
use data_effi.Prelude.Equality.{string_eq}
use data_effi.Dict.{Dict, lookup, has_key, All, All-lookup, checks, checks-lookup}
use data_effi.Pipeline.Normalize.Runtime.{Cell, Runtime}
use data_effi.Pipeline.Normalize.Text.{normalize_text}

-- MOVEMENT_TYPE_SIGNS
abbrev pub movement_type_signs : Dict String ℤ
movement_type_signs =
    ("adjustment_in", pos 1)
    ∷ ("adjustment_out", negsuc 0)
    ∷ ("cod_collected", pos 1)
    ∷ ("collection_fee", negsuc 0)
    ∷ ("freight_out", negsuc 0)
    ∷ ("freight_return", negsuc 0)
    ∷ ("insurance", negsuc 0)
    ∷ ("platform_fee", negsuc 0)
    ∷ ("product_cost", negsuc 0)
    ∷ ("tax_withholding", pos 1)
    ∷ ("withdrawal", negsuc 0)
    ∷ ("withdrawal_fee", negsuc 0)
    ∷ ("settlement_in", pos 1)
    ∷ ("settlement_out", negsuc 0)
    ∷ []

-- MOVEMENT_TYPE_ALIASES
abbrev pub movement_type_aliases : Dict String String
movement_type_aliases =
    ("recaudo", "cod_collected")
    ∷ ("recaudo contraentrega", "cod_collected")
    ∷ ("cobro", "cod_collected")
    ∷ ("valor recaudado", "cod_collected")
    ∷ ("abono", "cod_collected")
    ∷ ("flete", "freight_out")
    ∷ ("flete envio", "freight_out")
    ∷ ("costo envio", "freight_out")
    ∷ ("flete devolucion", "freight_return")
    ∷ ("costo devolucion", "freight_return")
    ∷ ("costo producto", "product_cost")
    ∷ ("costo proveedor", "product_cost")
    ∷ ("comision", "platform_fee")
    ∷ ("comision plataforma", "platform_fee")
    ∷ ("seguro", "insurance")
    ∷ ("ajuste", "adjustment_in")
    ∷ ("ajuste positivo", "adjustment_in")
    ∷ ("ajuste negativo", "adjustment_out")
    ∷ ("descuento", "adjustment_out")
    ∷ []

-- MOVEMENT_TYPE_SIGN
abbrev pub movement_type_sign : Dict String ℤ
movement_type_sign =
    ("cod_collected", pos 1)
    ∷ ("freight_out", negsuc 0)
    ∷ ("freight_return", negsuc 0)
    ∷ ("product_cost", negsuc 0)
    ∷ ("platform_fee", negsuc 0)
    ∷ ("insurance", negsuc 0)
    ∷ ("adjustment_in", pos 1)
    ∷ ("adjustment_out", negsuc 0)
    ∷ []

-- by the alias that is found; no code of the table is empty
type_by_alias : String → Option String → Option String × Bool
type_by_alias key (some code) = (some code, true)
type_by_alias key none = if has_key key movement_type_sign then (some key, true) else (none, false)

type_of_key : Option String → Option String × Bool
unfolding type_by_alias
type_of_key none = (none, false)
type_of_key (some key) = type_by_alias key (lookup key movement_type_aliases)

unfoldable pub resolve_movement_type : Runtime → Option Cell → Option String × Bool
unfolding type_of_key
resolve_movement_type r raw = type_of_key (normalize_text r raw)

-- A direction that both tables of signs give.
abbrev pub Signed : String → Type 0
Signed code =
    (sign : ℤ) × (lookup code movement_type_signs ≡ some sign)
    × (lookup code movement_type_sign ≡ some sign)

aliases_signed : checks (λ alias code. has_key code movement_type_sign) movement_type_aliases ≡ true
unfolding lookup
aliases_signed = refl

signs_agree : All (λ code sign. lookup code movement_type_signs ≡ some sign) movement_type_sign
unfolding lookup
signs_agree = (refl, (refl, (refl, (refl, (refl, (refl, (refl, (refl, tt))))))))

known-Signed : (code : String) → has_key code movement_type_sign ≡ true → Signed code
known-Signed code h = elim (Option-cases (lookup code movement_type_sign)) [
  | inl absent ↦ ground arith
  | inr (sign, found) ↦ (
    sign,
    All-lookup (λ code sign. lookup code movement_type_signs ≡ some sign) movement_type_sign code
        sign signs_agree found,
    found,
  )
]

key-Signed :
    (key : Option String) (code : String) (recognized : Bool)
    → type_of_key key ≡ (some code, recognized)
    → (recognized ≡ true) × Signed code
unfolding type_of_key type_by_alias
key-Signed none code recognized h = cc
key-Signed (some key) code recognized h = elim (Option-cases (lookup key movement_type_aliases)) [
  | inl no_alias ↦
      let (is_known, known) : (recognized ≡ true) × (has_key code movement_type_sign ≡ true) =
        ground arith in
      (is_known, known-Signed code known)
  | inr (c, alias) ↦
      let (is_known, is_c) : (recognized ≡ true) × (c ≡ code) = ground arith in
      (
        is_known,
        known-Signed code (
            subst (λ (x : String). has_key x movement_type_sign ≡ true) is_c
              (checks-lookup (λ alias code. has_key code movement_type_sign) movement_type_aliases
                key c aliases_signed alias)),
      )
]

-- If resolve_movement_type returns a code, the code is recognised, and both MOVEMENT_TYPE_SIGNS
-- and MOVEMENT_TYPE_SIGN have it, with the same direction.
pub resolve_movement_type-Signed :
    (r : Runtime) (raw : Option Cell) (code : String) (recognized : Bool)
    → resolve_movement_type r raw ≡ (some code, recognized)
    → (recognized ≡ true) × Signed code
unfolding resolve_movement_type
resolve_movement_type-Signed r raw = key-Signed (normalize_text r raw)
