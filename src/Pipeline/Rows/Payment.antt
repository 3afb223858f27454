-- ===== src/Pipeline/Rows/Payment.antt =====
-- `_handle_movement_row` of pipeline/ingest.py.
use data_effi.Prelude.{
  ℕ, String, Bool, false, not, ◌&&◌, Option, none, some, List, [], ◌∷◌, ◌++◌, ltb, if◌then◌else◌,
  is_some,
}
use data_effi.Prelude.Int.{ℤ, pos_part, neg_part}
use data_effi.Prelude.Equality.{string_eq}
use data_effi.Dict.{lookup, has_key}
use data_effi.Decimal.{Decimal, decimal_abs, is_positive, is_zero}
use data_effi.Pipeline.Models.{MovementInput, SanityIssue, RowFault, BatchContext}
use data_effi.Pipeline.Mapping.Movements.{resolve_movement_type, movement_type_signs}
use data_effi.Pipeline.Normalize.Runtime.{Cell, str}
use data_effi.Pipeline.Normalize.Text.{clean_text}
use data_effi.Pipeline.Normalize.Money.{parse_decimal}
use data_effi.Pipeline.Normalize.Dates.{parse_date}
use data_effi.Pipeline.Normalize.Keys.{normalize_tracking, normalize_currency, dedupe_key}
use data_effi.Pipeline.Checks.{check_movement, issue_if}
use data_effi.Pipeline.Rows.{
  Engine, Fields, get, is_true, show_row, warning, Verdict, blocking, judged,
}

-- the code that a profile wrote, which is a text or None
abbrev pub code_in : Option Cell → Option String
code_in (some (Cell.text s)) = some s
code_in _ = none

-- the type that is taken from the sign of the amount where none is known
abbrev pub guessed_type : Decimal → Option String → String
guessed_type amount none = if is_positive amount then "cod_collected" else "freight_out"
guessed_type amount (some code) = code

-- the direction of the file against the direction of the type
abbrev pub conflicts : Decimal → Option ℤ → Bool
conflicts amount none = false
conflicts amount (some sign) =
    not (is_zero amount)
    && (if is_positive amount then ltb 0 (neg_part sign) else ltb 0 (pos_part sign))

abbrev pub or_default : ℕ → Option ℕ → ℕ
or_default today none = today
or_default today (some d) = d

abbrev pub text_or : Option String → String → String
text_or none s = s
text_or (some t) s = t

module _ (e : Engine) (ctx : BatchContext) (row : ℕ) (mapped : Fields)
    (default_currency : String) where
  -- `str(mapped.get("external_ref") or row_number)`
  unfoldable pub row_key : String
  unfolding get str
  row_key =
      if is_true (get mapped "external_ref")
      then text_or (shown (get mapped "external_ref")) ""
      else show_row e.runtime row
    where
      shown : Option Cell → Option String
      shown none = none
      shown (some c) = some (str e.runtime c)

  -- the code, and whether it is recognised; a profile may have resolved it
  unfoldable pub movement_type : Option String × Bool
  unfolding lookup get resolve_movement_type
  movement_type =
      if has_key "_movement_type_code" mapped
      then (
        code_in (get mapped "_movement_type_code"),
        is_true (get mapped "_movement_type_recognized"),
      )
      else resolve_movement_type e.runtime (get mapped "movement_type_raw")

  abbrev pub type_issues : Option String → Bool → List SanityIssue
  type_issues none recognized = warning row row_key "unknown_movement_type" ∷ []
  type_issues (some code) recognized =
      issue_if (not recognized) (warning row (show_row e.runtime row) "unknown_movement_type")

  -- the text that stands for the date in the key: the date that the file wrote
  unfoldable pub date_text : Option ℕ → Option String
  unfolding get clean_text
  date_text (some d) = some (e.runtime.show (Cell.date d))
  date_text none = clean_text e.runtime (get mapped "movement_date")

  -- the source's own id is the identity; without one, the fields are
  unfoldable pub movement_dedupe_key :
      Option String → Option String → String → Option ℕ → Decimal → String
  unfolding dedupe_key
  movement_dedupe_key (some ref) tracking code date magnitude =
      dedupe_key e.runtime (some (e.show_id ctx.connection_id) ∷ some ref ∷ [])
  movement_dedupe_key none tracking code date magnitude = dedupe_key e.runtime (
      some (e.show_id ctx.connection_id)
      ∷ tracking
      ∷ none
      ∷ some code
      ∷ date_text date
      ∷ some (e.runtime.show (Cell.decimal magnitude))
      ∷ [])

  unfoldable pub movement_of : Decimal → MovementInput
  unfolding get clean_text normalize_tracking normalize_currency parse_date movement_dedupe_key
      decimal_abs movement_type
  movement_of amount =
      let code = guessed_type amount movement_type.0 in
      let tracking = normalize_tracking e.runtime (get mapped "tracking_number_raw") in
      let external_ref = clean_text e.runtime (get mapped "external_ref") in
      let date = parse_date e.runtime (get mapped "movement_date") in
      record {
        movement_type_code = code;
        movement_date = or_default e.today date;
        amount = decimal_abs amount;
        currency_code = normalize_currency e.runtime (get mapped "currency_code") default_currency;
        dedupe_key = movement_dedupe_key external_ref tracking code date (decimal_abs amount);
        tracking_number_raw = tracking;
        external_ref = external_ref;
        description = clean_text e.runtime (get mapped "description");
        source_row_number = row;
      }

  -- what is said of the row before the checks
  unfoldable pub remarks : Decimal → List SanityIssue
  unfolding get parse_date clean_text lookup
  remarks amount =
      issue_if (not (is_some (parse_date e.runtime (get mapped "movement_date"))))
        (warning row row_key "movement_without_date")
      ++ type_issues movement_type.0 movement_type.1
      ++ issue_if
          (conflicts amount (lookup (guessed_type amount movement_type.0) movement_type_signs))
          (warning row
            (text_or (clean_text e.runtime (get mapped "external_ref")) (show_row e.runtime row))
            "movement_sign_conflict")

  unfoldable pub valued : Option Decimal → List SanityIssue × Verdict MovementInput
  unfolding movement_of check_movement blocking
  valued none = ([], Verdict.refused RowFault.unreadable_amount)
  valued (some amount) =
      let issues = check_movement (movement_of amount) e.today in
      (remarks amount ++ issues, judged (movement_of amount) (blocking issues))

  unfoldable pub handle_movement_row : List SanityIssue × Verdict MovementInput
  unfolding valued get parse_decimal
  handle_movement_row = valued (parse_decimal e.runtime (get mapped "amount"))
