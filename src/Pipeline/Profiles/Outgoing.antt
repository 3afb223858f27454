-- ===== src/Pipeline/Profiles/Outgoing.antt =====
-- The amounts that `transform_dropi_movement` of pipeline/profiles.py hands over.
use data_effi.Prelude.{
  ℕ, String, Bool, true, false, ◌&&◌, Option, some, ◌≡◌, refl, arith, ltb, Bool-cases, inl, inr,
  ◌∙◌, ap,
}
use data_effi.Prelude.Int.{ℤ, pos, negsuc, pos_part, neg, abs}
use data_effi.Prelude.Equality.{string_eq}
use data_effi.Dict.{insert, lookup-insert, lookup-insert_self}
use data_effi.Decimal.{Decimal, decimal_neg, decimal_abs, is_positive}
use data_effi.Pipeline.Normalize.Runtime.{Cell, Runtime}
use data_effi.Pipeline.Normalize.Text.{normalize_text}
use data_effi.Pipeline.Normalize.Money.{parse_decimal}
use data_effi.Pipeline.Rows.{Fields, get}
use data_effi.Pipeline.Profiles.{as_cell}
use data_effi.Pipeline.Profiles.Wallet.{
  resolve_dropi_movement_type, typed, directed, transform_dropi_movement, is_out,
}

neg-not_positive : (u : ℤ) → ltb 0 (pos_part u) ≡ true → ltb 0 (pos_part (neg u)) ≡ false
neg-not_positive (pos n) h = ground arith
neg-not_positive (negsuc n) h = ground arith

abs-neg : (u : ℤ) → abs (neg u) ≡ abs u
abs-neg (pos n) = ground arith
abs-neg (negsuc n) = ground arith

decimal_abs-neg : (a : Decimal) → decimal_abs (decimal_neg a) ≡ decimal_abs a
unfolding decimal_abs decimal_neg
decimal_abs-neg a =
    ap (λ (n : ℕ). let d : Decimal = record { units = pos n; scale = a.scale } in d)
      (abs-neg a.units)

neg_is_not_out :
    (out : Bool) (a : Decimal)
    → (out && is_positive a) ≡ true
    → (out && is_positive (decimal_neg a)) ≡ false
unfolding decimal_neg
neg_is_not_out true a h = neg-not_positive a.units h
neg_is_not_out false a h = refl

both : (a b : Bool) → (a && b) ≡ true → a ≡ false → ⊥
both a b h k = ground arith

typed-get :
    (t : Option String × Bool) (out : Fields) → get (typed t out) "amount" ≡ get out "amount"
unfolding typed get
typed-get (code, recognized) out = rw (
  lookup-insert "_movement_type_recognized" "amount" (some (Cell.bool recognized))
      (insert "_movement_type_code" (as_cell code) out),
  lookup-insert "_movement_type_code" "amount" (as_cell code) out,
)

-- A movement keeps its amount unless it goes out with a positive one.
directed-kept :
    (direction : Option String) (amount : Decimal) (out : Fields)
    → (is_out direction && is_positive amount) ≡ false
    → directed direction (some amount) out ≡ out
unfolding directed
directed-kept direction amount out h = rw h

directed-turned :
    (direction : Option String) (amount : Decimal) (out : Fields)
    → (is_out direction && is_positive amount) ≡ true
    → get (directed direction (some amount) out) "amount" ≡ some (Cell.decimal (decimal_neg amount))
unfolding directed get
directed-turned direction amount out h =
    rw (h, lookup-insert_self "amount" (some (Cell.decimal (decimal_neg amount))) out)

module _ (r : Runtime) (mapped : Fields) (direction : Option String) (amount : Decimal)
    (way : normalize_text r (get mapped "direction_raw") ≡ direction)
    (given : parse_decimal r (get mapped "amount") ≡ some amount) where
  handed_over :
      transform_dropi_movement r mapped
      ≡ directed direction
          (some amount)
          (typed (resolve_dropi_movement_type r (get mapped "description")) mapped)
  unfolding transform_dropi_movement
  handed_over =
      ap
        (λ (q : Option String × Option Decimal).
          directed q.0 q.1
            (typed (resolve_dropi_movement_type r (get mapped "description")) mapped))
        (λ i. (way i, given i))

  kept :
      (is_out direction && is_positive amount) ≡ false
      → parse_decimal r (get (transform_dropi_movement r mapped) "amount") ≡ some amount
  kept h =
      let t = resolve_dropi_movement_type r (get mapped "description") in
      rw (handed_over, directed-kept direction amount (typed t mapped) h, typed-get t mapped) given

  turned :
      (is_out direction && is_positive amount) ≡ true
      → parse_decimal r (get (transform_dropi_movement r mapped) "amount")
        ≡ some (decimal_neg amount)
  unfolding parse_decimal
  turned h =
      let t = resolve_dropi_movement_type r (get mapped "description") in
      ap (λ (o : Fields). parse_decimal r (get o "amount")) handed_over
      ∙ ap (parse_decimal r) (directed-turned direction amount (typed t mapped) h)

  -- If the amount of a row of Dropi's wallet can be read, the amount that the handler reads after
  -- the transform has the same magnitude; it is not positive if the row goes out, and it is
  -- unchanged if the row does not.
  pub transform_dropi_movement-amount :
      (b : Decimal) × (parse_decimal r (get (transform_dropi_movement r mapped) "amount") ≡ some b)
      × (decimal_abs b ≡ decimal_abs amount)
      × ((is_out direction && is_positive b) ≡ false)
      × (is_out direction ≡ false → b ≡ amount)
  transform_dropi_movement-amount = elim (Bool-cases (is_out direction && is_positive amount)) [
    | inl out ↦ (
      decimal_neg amount,
      turned out,
      decimal_abs-neg amount,
      neg_is_not_out (is_out direction) amount out,
      λ inward. absurd (both (is_out direction) (is_positive amount) out inward),
    )
    | inr stays ↦ (amount, kept stays, refl, stays, λ h. refl)
  ]
