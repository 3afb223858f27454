-- ===== src/Pipeline/Profiles/Guided.antt =====
-- What `transform_effi_guide` of pipeline/profiles.py writes, and what it leaves.
pub mod Result
pub mod Dates
use data_effi.Prelude.{
  ℕ, String, Bool, true, false, not, ◌&&◌, ◌||◌, Option, none, some, List, [], ◌∷◌, ◌≡◌, refl, sym,
  ◌∙◌, ap, arith, Bool-cases, Option-cases, inl, inr, if◌then◌else◌, str_eq, mentions, or_else, ltb,
  some_inj, str_eq_iff, subst,
}
use data_effi.Prelude.Equality.{string_eq}
use data_effi.Dict.{lookup, insert, lookup-insert, lookup-insert_self}
use data_effi.Pipeline.Normalize.Runtime.{Cell, Runtime}
use data_effi.Pipeline.Normalize.Text.{normalize_text, clean_text}
use data_effi.Pipeline.Rows.{Fields, get, is_true}
use data_effi.Pipeline.Profiles.{as_cell}
use data_effi.Pipeline.Profiles.Leaves.{
  Leaves, insert-Leaves, seq-Leaves, choose-Leaves, keep-Leaves,
}
use data_effi.Pipeline.Profiles.Contents.{Content, parse_content}
use data_effi.Pipeline.Profiles.EffiGuide.{
  identified, with_status, effective, final_date, cancelled, with_product, with_name, with_quantity,
  settled, guide_dates, hinted, returned_hints, delivered_hints, transform_effi_guide,
}

-- The fields that the transform may write.
abbrev pub written : List String
written =
    "tracking_number" ∷ "carrier_tracking_number" ∷ "status_raw" ∷ "status_detail" ∷ "returned_at"
    ∷ "delivered_at" ∷ "last_status_at" ∷ "product_name" ∷ "quantity" ∷ "_extra_products"
    ∷ "settled_with_collection" ∷ "settled_return" ∷ "settled_at" ∷ []

module _ (ns : List String) where
  abbrev Covers : String → Type 0
  Covers name = mentions ns name ≡ true

  identified-Leaves :
      (r : Runtime) (mapped : Fields)
      → Covers "tracking_number"
      → Covers "carrier_tracking_number"
      → Leaves ns (identified r mapped)
  unfolding identified
  identified-Leaves r mapped h k =
      seq-Leaves ns _ _ (insert-Leaves ns "tracking_number" _ h)
        (insert-Leaves ns "carrier_tracking_number" _ k)

  with_status-Leaves :
      (r : Runtime) (mapped : Fields)
      → Covers "status_raw"
      → Covers "status_detail"
      → Leaves ns (with_status r mapped)
  unfolding with_status
  with_status-Leaves r mapped h k =
      seq-Leaves ns _ _ (insert-Leaves ns "status_raw" _ h) (insert-Leaves ns "status_detail" _ k)

  final_date-Leaves :
      (final : Option Cell) (status : String)
      → Covers "returned_at"
      → Covers "delivered_at"
      → Covers "last_status_at"
      → Leaves ns (final_date final status)
  unfolding final_date
  final_date-Leaves final status h k l =
      choose-Leaves ns (is_true final) _ _
        (seq-Leaves ns _ _
          (choose-Leaves ns (hinted status returned_hints) _ _
            (insert-Leaves ns "returned_at" final h)
            (choose-Leaves ns (hinted status delivered_hints) _ _
              (insert-Leaves ns "delivered_at" final k) (keep-Leaves ns)))
          (insert-Leaves ns "last_status_at" final l))
        (keep-Leaves ns)

  cancelled-Leaves : (moment : Option Cell) → Covers "last_status_at" → Leaves ns (cancelled moment)
  unfolding cancelled
  cancelled-Leaves moment h name out =
      choose-Leaves ns (is_true moment && not (is_true (get out "returned_at"))) _ _
        (insert-Leaves ns "last_status_at" moment h) (keep-Leaves ns) name out

  with_name-Leaves : (name : Option String) → Covers "product_name" → Leaves ns (with_name name)
  unfolding with_name
  with_name-Leaves none h = (keep-Leaves ns)
  with_name-Leaves (some n) h = insert-Leaves ns "product_name" _ h

  with_quantity-Leaves : (n : Option ℕ) → Covers "quantity" → Leaves ns (with_quantity n)
  unfolding with_quantity
  with_quantity-Leaves none h = (keep-Leaves ns)
  with_quantity-Leaves (some n) h =
      choose-Leaves ns (ltb 0 n) _ _ (insert-Leaves ns "quantity" _ h) (keep-Leaves ns)

  with_product-Leaves :
      (c : Content)
      → Covers "product_name"
      → Covers "quantity"
      → Covers "_extra_products"
      → Leaves ns (with_product c)
  unfolding with_product
  with_product-Leaves c h k l =
      seq-Leaves ns _ _
        (seq-Leaves ns _ _ (with_name-Leaves c.product_name h) (with_quantity-Leaves c.quantity k))
        (insert-Leaves ns "_extra_products" _ l)

  settled-Leaves :
      (r : Runtime) (mapped : Fields)
      → Covers "settled_with_collection"
      → Covers "settled_return"
      → Covers "settled_at"
      → Leaves ns (settled r mapped)
  unfolding settled
  settled-Leaves r mapped h k l =
      let flags =
        seq-Leaves ns _ _ (insert-Leaves ns "settled_with_collection" _ h)
          (insert-Leaves ns "settled_return" _ k) in
      choose-Leaves ns (is_true (get mapped "settled_at")) _ _ flags
        (seq-Leaves ns _ _ flags (insert-Leaves ns "settled_at" none l))
