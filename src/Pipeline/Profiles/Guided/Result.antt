-- ===== src/Pipeline/Profiles/Guided/Result.antt =====
-- The fields of a guide after `transform_effi_guide` of pipeline/profiles.py.
use data_effi.Prelude.{
  String, true, false, not, ◌&&◌, Option, none, some, List, [], ◌∷◌, ◌≡◌, refl, ◌∙◌, ap,
  Option-cases, inl, inr, if◌then◌else◌, mentions, or_else, some_inj, all, all-mentions, subst,
}
use data_effi.Prelude.Equality.{string_eq}
use data_effi.Dict.{lookup, insert, lookup-insert, lookup-insert_self}
use data_effi.Pipeline.Normalize.Runtime.{Cell, Runtime}
use data_effi.Pipeline.Normalize.Text.{clean_text}
use data_effi.Pipeline.Rows.{Fields, get, is_true}
use data_effi.Pipeline.Profiles.{as_cell}
use data_effi.Pipeline.Profiles.Contents.{Content, parse_content}
use data_effi.Pipeline.Profiles.EffiGuide.{
  identified, with_status, effective, final_date, cancelled, with_product, settled, guide_dates,
  hinted, returned_hints, delivered_hints, transform_effi_guide,
}
use data_effi.Pipeline.Profiles.Guided.{
  written, identified-Leaves, with_status-Leaves, final_date-Leaves, cancelled-Leaves,
  with_product-Leaves, settled-Leaves,
}
use data_effi.Pipeline.Profiles.Guided.Dates.{final_date-returned, final_date-delivered}
use data_effi.Pipeline.Profiles.Leaves.{Leaves, seq-Leaves}

-- The guide that the handler is given.
pub record IsGuided (r : Runtime) (mapped out : Fields) : Type 0 where
  pub others :
      (name : String) → mentions written name ≡ false → lookup name out ≡ lookup name mapped
  pub number :
      get out "tracking_number"
      ≡ as_cell (
          or_else
            (clean_text r (get mapped "carrier_tracking_number"))
            (clean_text r (get mapped "external_order_id")))
  pub returned : get out "returned_at" ≡ (
      if is_true (get mapped "final_status_date") && hinted (effective r mapped) returned_hints
      then get mapped "final_status_date"
      else get mapped "returned_at")
  pub delivered : get out "delivered_at" ≡ (
      if is_true (get mapped "final_status_date")
        && not (hinted (effective r mapped) returned_hints)
        && hinted (effective r mapped) delivered_hints
      then get mapped "final_status_date"
      else get mapped "delivered_at")

tail_names : List String
tail_names =
    "last_status_at" ∷ "product_name" ∷ "quantity" ∷ "_extra_products" ∷ "settled_with_collection"
    ∷ "settled_return" ∷ "settled_at" ∷ []

head_names : List String
head_names = "tracking_number" ∷ "carrier_tracking_number" ∷ "status_raw" ∷ "status_detail" ∷ []

module _ (r : Runtime) (mapped : Fields) (c : Content) where
  abbrev head : Fields → Fields
  head out = with_status r mapped (identified r mapped out)

  abbrev dates : Fields → Fields
  dates = final_date (get mapped "final_status_date") (effective r mapped)

  abbrev tail : Fields → Fields
  tail out = settled r mapped (with_product c (cancelled (get mapped "cancelled_at") out))

  tail-Leaves : (ns : List String) → all (mentions ns) tail_names ≡ true → Leaves ns tail
  unfolding tail_names
  tail-Leaves ns h =
      let covers = λ (name : String) (m : mentions tail_names name ≡ true).
        all-mentions (mentions ns) tail_names name h m in
      seq-Leaves ns _ _
        (cancelled-Leaves ns (get mapped "cancelled_at") (covers "last_status_at" refl))
        (seq-Leaves ns _ _
          (with_product-Leaves ns c (covers "product_name" refl) (covers "quantity" refl)
            (covers "_extra_products" refl))
          (settled-Leaves ns r mapped (covers "settled_with_collection" refl)
            (covers "settled_return" refl) (covers "settled_at" refl)))

  head-Leaves : (ns : List String) → all (mentions ns) head_names ≡ true → Leaves ns head
  unfolding head_names
  head-Leaves ns h =
      let covers = λ (name : String) (m : mentions head_names name ≡ true).
        all-mentions (mentions ns) head_names name h m in
      seq-Leaves ns _ _
        (identified-Leaves ns r mapped (covers "tracking_number" refl)
          (covers "carrier_tracking_number" refl))
        (with_status-Leaves ns r mapped (covers "status_raw" refl) (covers "status_detail" refl))

  abbrev steps : Fields → Fields
  steps out = tail (dates (head out))

  steps-Leaves : Leaves written steps
  unfolding tail_names head_names
  steps-Leaves = seq-Leaves written _ _ (head-Leaves written refl) (
      seq-Leaves written _ _
        (final_date-Leaves written (get mapped "final_status_date") (effective r mapped) refl refl
          refl)
        (tail-Leaves written refl))

  number_lem :
      lookup "tracking_number" (steps mapped)
      ≡ some (
          as_cell (
            or_else
              (clean_text r (get mapped "carrier_tracking_number"))
              (clean_text r (get mapped "external_order_id"))))
  unfolding tail_names identified
  number_lem =
      let numbered = as_cell (
        or_else (clean_text r (get mapped "carrier_tracking_number"))
          (clean_text r (get mapped "external_order_id"))) in
      let dated = dates (head mapped) in
      let kept = with_status-Leaves ("status_raw" ∷ "status_detail" ∷ []) r mapped refl refl in
      tail-Leaves tail_names refl "tracking_number" dated refl
      ∙ final_date-Leaves ("returned_at" ∷ "delivered_at" ∷ "last_status_at" ∷ [])
          (get mapped "final_status_date") (effective r mapped) refl refl refl "tracking_number"
          (head mapped) refl
      ∙ kept "tracking_number" (identified r mapped mapped) refl
      ∙ lookup-insert "carrier_tracking_number" "tracking_number"
          (as_cell (clean_text r (get mapped "carrier_tracking_number")))
          (insert "tracking_number" numbered mapped)
      ∙ lookup-insert_self "tracking_number" numbered mapped

  -- the dates are what the middle step makes of the row
  date_lem :
      (name : String)
      → mentions tail_names name ≡ false
      → mentions head_names name ≡ false
      → (lookup name (steps mapped) ≡ lookup name (dates (head mapped)))
        × (lookup name (head mapped) ≡ lookup name mapped)
  unfolding tail_names head_names
  date_lem name h k = (
    tail-Leaves tail_names refl name (dates (head mapped)) h,
    head-Leaves head_names refl name mapped k,
  )

get-eq : (name : String) (a b : Fields) → lookup name a ≡ lookup name b → get a name ≡ get b name
unfolding get
get-eq name a b h = rw h

get-some : (name : String) (a : Fields) (v : Option Cell) → lookup name a ≡ some v → get a name ≡ v
unfolding get
get-some name a v h = rw h

module _ (r : Runtime) (mapped : Fields) where
  steps-IsGuided : (c : Content) → IsGuided r mapped (steps r mapped c mapped)
  unfolding tail_names head_names
  steps-IsGuided c =
      let final = get mapped "final_status_date" in
      let status = effective r mapped in
      let moment =
        λ (name : String) (h : mentions tail_names name ≡ false)
            (k : mentions head_names name ≡ false).
          get-eq name (steps r mapped c mapped) (dates r mapped c (head r mapped c mapped))
            (date_lem r mapped c name h k).0 in
      let before =
        λ (name : String) (h : mentions tail_names name ≡ false)
            (k : mentions head_names name ≡ false).
          get-eq name (head r mapped c mapped) mapped (date_lem r mapped c name h k).1 in
      record {
        others = λ name m. steps-Leaves r mapped c name mapped m;
        number = get-some "tracking_number" (steps r mapped c mapped) _ (number_lem r mapped c);
        returned =
            moment "returned_at" refl refl
            ∙ final_date-returned final status (head r mapped c mapped)
            ∙ ap
                (λ (v : Option Cell).
                  if is_true final && hinted status returned_hints then final else v)
                (before "returned_at" refl refl);
        delivered =
            moment "delivered_at" refl refl
            ∙ final_date-delivered final status (head r mapped c mapped)
            ∙ ap
                (λ (v : Option Cell).
                  if is_true final
                    && not (hinted status returned_hints)
                    && hinted status delivered_hints
                  then final
                  else v)
                (before "delivered_at" refl refl);
      }

  -- If transform_effi_guide returns, the tracking number is the carrier's, or Effi's where there
  -- is none; the final date becomes the return date if the status tells of a return, and the
  -- delivery date if it does not and tells of a delivery, and these two dates are otherwise as
  -- they were; all fields but the thirteen that the transform writes are as they were.
  pub transform_effi_guide-IsGuided :
      (out : Fields) → transform_effi_guide r mapped ≡ some out → IsGuided r mapped out
  unfolding transform_effi_guide guide_dates
  transform_effi_guide-IsGuided out h =
      elim (Option-cases (parse_content r (get mapped "content_raw"))) [
        | inl raised ↦ let no : none ≡ some out = (rw raised at h) in cc
        | inr (c, parsed) ↦
            subst (IsGuided r mapped) (some_inj ((rw parsed at h))) (steps-IsGuided c)
      ]
