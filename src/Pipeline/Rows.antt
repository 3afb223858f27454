-- ===== src/Pipeline/Rows.antt =====
-- The row handlers of `IngestEngine` (pipeline/ingest.py): from the mapped fields of a row to an
-- input for the store, or to the reason why the row is refused.
--
-- A handler of the source writes to the report and to a list that waits for the store. Here it
-- returns what it writes: the issues, and the verdict.
pub mod Guide
pub mod Payment
pub mod Accepted
pub mod Identity
use Prim.Native.String.{count}
use data_effi.Prelude.{
  ℕ, String, Bool, true, false, not, ◌||◌, Option, none, some, List, [], ◌∷◌, is_blank, is_some,
  if◌then◌else◌,
}
use data_effi.Prelude.Int.{ℤ, pos, pos_part, neg_part}
use data_effi.Prelude.Equality.{string_eq}
use data_effi.Dict.{Dict, lookup}
use data_effi.Decimal.{Decimal, decimal_abs, is_zero}
use data_effi.Pipeline.Models.{SanityIssue, Severity, RowFault}
use data_effi.Pipeline.Normalize.Runtime.{Cell, Runtime, str}
use data_effi.Pipeline.Checks.{is_error}

-- What an engine is made with. `encrypt` is `encrypt_pii` of a text, None without a key; `show_id`
-- is `str` of a UUID.
pub record Engine : Type 0 where
  pub runtime : Runtime
  pub show_id : ℕ → String
  pub encrypt : Option (String → ℕ)
  pub pii_salt : String
  pub today : ℕ
  pub archive_rows : Bool

abbrev pub Fields : Type 0
Fields = Dict String (Option Cell)

abbrev or_nothing : Option (Option Cell) → Option Cell
or_nothing none = none
or_nothing (some value) = value

-- mapped.get(name)
unfoldable pub get : Fields → String → Option Cell
unfolding lookup
get mapped name = or_nothing (lookup name mapped)

-- bool(value)
abbrev pub is_true : Option Cell → Bool
is_true none = false
is_true (some (Cell.text s)) = not (is_blank s)
is_true (some (Cell.decimal d)) = not (is_zero d)
is_true (some (Cell.integer n)) = not (is_zero (record { units = n; scale = 0 }))
is_true (some (Cell.float d)) = not (is_zero d)
is_true (some (Cell.bool b)) = b
is_true (some (Cell.date d)) = true
is_true (some (Cell.timestamp t)) = true
is_true (some (Cell.other n)) = true

-- str(row_number)
abbrev pub show_row : Runtime → ℕ → String
show_row r row = r.show (Cell.integer (pos row))

abbrev pub warning : ℕ → String → String → SanityIssue
warning row key code = record {
  row_number = row;
  entity_key = key;
  code = code;
  severity = Severity.warning;
}

pub data Verdict {ℓ} (A : Type ℓ) : Type ℓ where
  accepted : A → Verdict A
  refused : RowFault → Verdict A

-- _abs_or_none
unfoldable pub abs_or_none : Option Decimal → Option Decimal
unfolding decimal_abs
abs_or_none none = none
abs_or_none (some d) = some (decimal_abs d)

-- the first issue of severity error
unfoldable pub blocking : List SanityIssue → Option SanityIssue
blocking [] = none
blocking (i ∷ is) = if is_error i then some i else blocking is

-- the row goes on to the store unless an issue blocks it
abbrev pub judged {ℓ} : {A : Type ℓ} → A → Option SanityIssue → Verdict A
judged a none = accepted a
judged a (some i) = refused (RowFault.blocked i)
