-- ===== src/Pipeline/Rows/Identity.antt =====
-- The identity of a movement in pipeline/ingest.py: which rows are the same movement.
use data_effi.Prelude.{ℕ, ◌≡◌, String, some, Option-cases, inl, inr}
use data_effi.Decimal.{Decimal}
use data_effi.Pipeline.Models.{BatchContext}
use data_effi.Pipeline.Normalize.Text.{clean_text}
use data_effi.Pipeline.Normalize.Dates.{parse_date}
use data_effi.Pipeline.Rows.{Engine, Fields, get}
use data_effi.Pipeline.Rows.Payment.{movement_of, movement_dedupe_key, date_text}

-- Two rows of the same connection that carry the same external reference have the same dedupe key,
-- whatever their other fields, their amounts, their row numbers and their batches are.
pub movement_of-dedupe_key_ref :
    (e : Engine) (c d : BatchContext) (row row' : ℕ) (mapped mapped' : Fields)
    → (currency currency' : String) (amount amount' : Decimal) (ref : String)
    → c.connection_id ≡ d.connection_id
    → clean_text e.runtime (get mapped "external_ref") ≡ some ref
    → clean_text e.runtime (get mapped' "external_ref") ≡ some ref
    → (movement_of e c row mapped currency amount).dedupe_key
      ≡ (movement_of e d row' mapped' currency' amount').dedupe_key
unfolding movement_of movement_dedupe_key
movement_of-dedupe_key_ref e c d row row' mapped mapped' currency currency' amount amount' ref
      same_connection here there =
    rw (here, there, same_connection)

-- The dedupe key of a row does not depend on the day of the load, also where the row has no date
-- that can be read.
pub movement_of-dedupe_key_today :
    (e : Engine) (later : ℕ) (ctx : BatchContext) (row : ℕ) (mapped : Fields) (currency : String)
    (amount : Decimal)
    → (movement_of (record e { today = later }) ctx row mapped currency amount).dedupe_key
      ≡ (movement_of e ctx row mapped currency amount).dedupe_key
unfolding movement_of movement_dedupe_key date_text
movement_of-dedupe_key_today e later ctx row mapped currency amount =
    elim (Option-cases (clean_text e.runtime (get mapped "external_ref"))) [
      | inl no_ref ↦ elim (Option-cases (parse_date e.runtime (get mapped "movement_date"))) [
        | inl undated ↦ rw (no_ref, undated)
        | inr (date, on) ↦ rw (no_ref, on)
      ]
      | inr (ref, has_ref) ↦ rw has_ref
    ]
