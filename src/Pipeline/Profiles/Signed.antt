-- ===== src/Pipeline/Profiles/Signed.antt =====
-- The movement types that the two wallets of pipeline/profiles.py give to the row handler.
use text.Mathlib.Text.{starts_with}
use data_effi.Prelude.{
  ℕ, String, Bool, true, false, ◌&&◌, Option, none, some, [], ◌∷◌, ◌≡◌, refl, arith, Bool-cases,
  Option-cases, inl, inr, str_eq, ◌∙◌,
}
use data_effi.Prelude.Equality.{string_eq}
use data_effi.Dict.{
  Dict, lookup, insert, has_key, lookup-insert, lookup-insert_self, checks, checks-lookup,
}
use data_effi.Decimal.{Decimal, decimal_neg}
use data_effi.Pipeline.Models.{BatchContext}
use data_effi.Pipeline.Normalize.Runtime.{Cell, Runtime}
use data_effi.Pipeline.Normalize.Text.{normalize_text}
use data_effi.Pipeline.Normalize.Money.{parse_decimal}
use data_effi.Pipeline.Mapping.Movements.{movement_type_signs}
use data_effi.Pipeline.Rows.{Engine, Fields, get}
use data_effi.Pipeline.Rows.Payment.{movement_type, code_in}
use data_effi.Pipeline.Profiles.{as_cell}
use data_effi.Pipeline.Profiles.Wallet.{
  first_phrase, recognised, effi_movement_types, dropi_movement_types, resolve_effi_movement_type,
  resolve_dropi_movement_type, typed, directed, transform_effi_movement, transform_dropi_movement,
}

abbrev AllSigned : Dict String String → Type 0
AllSigned types = checks (λ phrase code. has_key code movement_type_signs) types ≡ true

-- A type that comes with its mark, and has a direction in MOVEMENT_TYPE_SIGNS.
abbrev pub IsDirected : Option String × Bool → Type 0
IsDirected (none, recognized) = recognized ≡ false
IsDirected (some code, recognized) = (recognized ≡ true) × (has_key code movement_type_signs ≡ true)

and_left : (a b : Bool) → (a && b) ≡ true → a ≡ true
and_left a b h = ground arith

and_right : (a b : Bool) → (a && b) ≡ true → b ≡ true
and_right a b h = ground arith

first_phrase-signed :
    (key : String) (types : Dict String String)
    → AllSigned types
    → IsDirected (recognised (first_phrase key types))
unfolding first_phrase
first_phrase-signed key [] h = refl
first_phrase-signed key ((phrase, code) ∷ types) h = elim (Bool-cases (starts_with key phrase)) [
  | inl fits ↦ rw fits (refl, and_left _ _ h)
  | inr fits_not ↦ rw fits_not (first_phrase-signed key types (and_right _ _ h))
]

effi_signed : AllSigned effi_movement_types
unfolding lookup
effi_signed = refl

dropi_signed : AllSigned dropi_movement_types
unfolding lookup
dropi_signed = refl

effi_type-IsDirected :
    (r : Runtime) (raw : Option Cell) → IsDirected (resolve_effi_movement_type r raw)
unfolding resolve_effi_movement_type
effi_type-IsDirected r raw = elim (Option-cases (normalize_text r raw)) [
  | inl blank ↦ rw blank refl
  | inr (key, text) ↦ elim (Option-cases (lookup key effi_movement_types)) [
    | inl absent ↦ rw (text, absent) (first_phrase-signed key effi_movement_types effi_signed)
    | inr (code, listed) ↦
        rw (text, listed)
          (
            refl,
            checks-lookup (λ phrase code. has_key code movement_type_signs) effi_movement_types key
                code effi_signed listed,
          )
  ]
]

dropi_type-IsDirected :
    (r : Runtime) (raw : Option Cell) → IsDirected (resolve_dropi_movement_type r raw)
unfolding resolve_dropi_movement_type
dropi_type-IsDirected r raw = elim (Option-cases (normalize_text r raw)) [
  | inl blank ↦ rw blank refl
  | inr (key, text) ↦ rw text (first_phrase-signed key dropi_movement_types dropi_signed)
]

-- What the handler reads of a row that has been typed.
typed-code :
    (t : Option String × Bool) (out : Fields)
    → lookup "_movement_type_code" (typed t out) ≡ some (as_cell t.0)
unfolding typed
typed-code (code, recognized) out =
    lookup-insert "_movement_type_recognized" "_movement_type_code" (some (Cell.bool recognized))
      (insert "_movement_type_code" (as_cell code) out)
    ∙ lookup-insert_self "_movement_type_code" (as_cell code) out

typed-recognized :
    (t : Option String × Bool) (out : Fields)
    → lookup "_movement_type_recognized" (typed t out) ≡ some (some (Cell.bool t.1))
unfolding typed
typed-recognized (code, recognized) out =
    lookup-insert_self "_movement_type_recognized" (some (Cell.bool recognized))
      (insert "_movement_type_code" (as_cell code) out)

directed-lookup :
    (direction : Option String) (amount : Option Decimal) (name : String) (out : Fields)
    → str_eq "amount" name ≡ false
    → lookup name (directed direction amount out) ≡ lookup name out
unfolding directed
directed-lookup direction none name out h = refl
directed-lookup direction (some amount) name out h =
    ground (arith, lookup-insert "amount" name (some (Cell.decimal (decimal_neg amount))) out)

code_in-as_cell : (code : Option String) → code_in (as_cell code) ≡ code
code_in-as_cell none = refl
code_in-as_cell (some code) = refl

module _ (e : Engine) (ctx : BatchContext) (row : ℕ) (default_currency : String) where
  movement_type-typed :
      (t : Option String × Bool) (out : Fields)
      → lookup "_movement_type_code" out ≡ some (as_cell t.0)
      → lookup "_movement_type_recognized" out ≡ some (some (Cell.bool t.1))
      → movement_type e ctx row out default_currency ≡ t
  unfolding movement_type get
  movement_type-typed (code, recognized) out h k = rw (h, k, code_in-as_cell code)

  -- The type of a row of Effi's wallet.
  transform_effi_movement-IsDirected :
      (mapped : Fields)
      → IsDirected
          (movement_type e ctx row (transform_effi_movement e.runtime mapped) default_currency)
  unfolding transform_effi_movement
  transform_effi_movement-IsDirected mapped =
      let t = resolve_effi_movement_type e.runtime (get mapped "movement_type_raw") in
      rw (movement_type-typed t (typed t mapped) (typed-code t mapped) (typed-recognized t mapped))
        (effi_type-IsDirected e.runtime (get mapped "movement_type_raw"))

  -- The type of a row of Dropi's wallet.
  transform_dropi_movement-IsDirected :
      (mapped : Fields)
      → IsDirected
          (movement_type e ctx row (transform_dropi_movement e.runtime mapped) default_currency)
  unfolding transform_dropi_movement
  transform_dropi_movement-IsDirected mapped =
      let t = resolve_dropi_movement_type e.runtime (get mapped "description") in
      let direction = normalize_text e.runtime (get mapped "direction_raw") in
      let amount = parse_decimal e.runtime (get mapped "amount") in
      rw
        (movement_type-typed t (directed direction amount (typed t mapped))
          (directed-lookup direction amount "_movement_type_code" (typed t mapped) refl
            ∙ typed-code t mapped)
          (directed-lookup direction amount "_movement_type_recognized" (typed t mapped) refl
            ∙ typed-recognized t mapped))
        (dropi_type-IsDirected e.runtime (get mapped "description"))

  -- The movement type that the row handler takes from a row of Effi's wallet or of Dropi's wallet
  -- is either none and not recognised, or recognised and a type with a direction in
  -- MOVEMENT_TYPE_SIGNS.
  pub wallet_types-IsDirected :
      (mapped : Fields)
      → IsDirected
          (movement_type e ctx row (transform_effi_movement e.runtime mapped) default_currency)
        × IsDirected
            (movement_type e ctx row (transform_dropi_movement e.runtime mapped) default_currency)
  wallet_types-IsDirected mapped =
      (transform_effi_movement-IsDirected mapped, transform_dropi_movement-IsDirected mapped)
