-- ===== src/Pipeline/Profiles/Guided/Dates.antt =====
-- The date of the final state of a guide, in `transform_effi_guide` of pipeline/profiles.py.
use data_effi.Prelude.{
  String, false, not, ◌&&◌, Option, some, ◌≡◌, refl, ◌∙◌, Bool-cases, inl, inr, if◌then◌else◌,
  str_eq,
}
use data_effi.Prelude.Equality.{string_eq}
use data_effi.Dict.{lookup, insert, lookup-insert, lookup-insert_self}
use data_effi.Pipeline.Normalize.Runtime.{Cell}
use data_effi.Pipeline.Rows.{Fields, get, is_true}
use data_effi.Pipeline.Profiles.EffiGuide.{final_date, hinted, returned_hints, delivered_hints}

module _ (final : Option Cell) (status : String) (out : Fields) where
  unstamped :
      (name : String) (o : Fields)
      → str_eq "last_status_at" name ≡ false
      → lookup name (insert "last_status_at" final o) ≡ lookup name o
  unstamped name o h =
      let e : lookup name (insert "last_status_at" final o)
          ≡ (if str_eq "last_status_at" name then some final else lookup name o) =
        lookup-insert "last_status_at" name final o in
      e ∙ (rw h)

  pub final_date-returned :
      get (final_date final status out) "returned_at"
      ≡ (if is_true final && hinted status returned_hints then final else get out "returned_at")
  unfolding final_date get
  final_date-returned = elim (Bool-cases (is_true final)) [
    | inl dated ↦ elim (Bool-cases (hinted status returned_hints)) [
      | inl back ↦ rw (
        dated,
        back,
        unstamped "returned_at" (insert "returned_at" final out) refl,
        lookup-insert_self "returned_at" final out,
      )
      | inr not_back ↦ elim (Bool-cases (hinted status delivered_hints)) [
        | inl arrived ↦ rw (
          dated,
          not_back,
          arrived,
          unstamped "returned_at" (insert "delivered_at" final out) refl,
          lookup-insert "delivered_at" "returned_at" final out,
        )
        | inr open_still ↦ rw (dated, not_back, open_still, unstamped "returned_at" out refl)
      ]
    ]
    | inr undated ↦ rw undated
  ]

  pub final_date-delivered : get (final_date final status out) "delivered_at" ≡ (
      if is_true final && not (hinted status returned_hints) && hinted status delivered_hints
      then final
      else get out "delivered_at")
  unfolding final_date get
  final_date-delivered = elim (Bool-cases (is_true final)) [
    | inl dated ↦ elim (Bool-cases (hinted status returned_hints)) [
      | inl back ↦ rw (
        dated,
        back,
        unstamped "delivered_at" (insert "returned_at" final out) refl,
        lookup-insert "returned_at" "delivered_at" final out,
      )
      | inr not_back ↦ elim (Bool-cases (hinted status delivered_hints)) [
        | inl arrived ↦ rw (
          dated,
          not_back,
          arrived,
          unstamped "delivered_at" (insert "delivered_at" final out) refl,
          lookup-insert_self "delivered_at" final out,
        )
        | inr open_still ↦ rw (dated, not_back, open_still, unstamped "delivered_at" out refl)
      ]
    ]
    | inr undated ↦ rw undated
  ]
