-- ===== src/Pipeline/Readers.antt =====
-- `iter_records` of pipeline/readers.py: the rows of a file, each by the fields of its columns.
pub mod Bytes
pub mod Html
pub mod Tables
pub mod Kept
use Prim.Native.String.{◌++◌}
use data_effi.Prelude.{ℕ, suc, zero, String, Option, none, some, List, [], ◌∷◌}
use data_effi.Prelude.Int.{pos}
use data_effi.Prelude.Equality.{nat_eq, string_eq}
use data_effi.Dict.{Dict, lookup, insert}
use data_effi.Pipeline.Normalize.Runtime.{Cell, Runtime, str}
use data_effi.Pipeline.Rows.{Fields}

-- None if value is None else str(value)
abbrev shown : Runtime → Option Cell → Option String
shown r none = none
shown r (some c) = some (str r c)

-- headers[position], or a name made of the position beyond their end
unfoldable pub header_at : Runtime → ℕ → ℕ → List String → String
header_at r position n [] = "col_" ++ r.show (Cell.integer (pos position))
header_at r position zero (h ∷ hs) = h
header_at r position (suc n) (h ∷ hs) = header_at r position n hs

abbrev put_field : Option String → Option Cell → Fields → Fields
put_field none value mapped = mapped
put_field (some name) value mapped = insert name value mapped

record_from :
    Runtime
    → List String
    → Dict ℕ String
    → ℕ
    → List (Option Cell)
    → Fields × Dict String (Option String)
    → Fields × Dict String (Option String)
unfolding header_at lookup
record_from r headers header_map position [] acc = acc
record_from r headers header_map position (value ∷ row) (mapped, raw) =
    record_from r headers header_map (suc position) row (
      put_field (lookup position header_map) value mapped,
      insert (header_at r position position headers) (shown r value) raw,
    )

-- the mapped fields of a row, and its raw payload
unfoldable pub record_of :
    Runtime
    → List String
    → Dict ℕ String
    → List (Option Cell)
    → Fields × Dict String (Option String)
unfolding record_from
record_of r headers header_map row = record_from r headers header_map 0 row ([], [])
