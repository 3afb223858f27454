-- ===== src/Pipeline/Readers/Tables.antt =====
-- `read_tabular` of pipeline/readers.py and the three readers behind it.
use Prim.Native.Char.{Char}
use data_effi.Prelude.{
  Bool, true, not, ◌&&◌, String, Option, none, some, List, [], ◌∷◌, ◌++◌, ltb, is_blank, is_empty,
  all, if◌then◌else◌, map, take,
}
use data_effi.Pipeline.Normalize.Runtime.{Cell, Runtime, str}
use data_effi.Pipeline.Normalize.Text.{strip}
use data_effi.Pipeline.Normalize.Money.{occurrences}
use data_effi.Pipeline.Readers.Bytes.{Bytes, Format, sniff_format}
use data_effi.Pipeline.Readers.Html.{raw_rows, raw_headers, raw_cells, clean_cells}

abbrev pub Cells : Type 0
Cells = List (Option Cell)

-- Headers and rows.
pub record Table : Type 0 where
  pub headers : List String
  pub rows : List Cells

-- What the readers take from libraries. `decode` is bytes.decode with None for UnicodeDecodeError,
-- `sniff` csv.Sniffer with None for csv.Error, `reader` csv.reader, `workbook` the values of the
-- first sheet, `unescape` html.unescape.
pub record Libraries : Type 0 where
  pub decode : String → Bytes → Option String
  pub sniff : String → Option Char
  pub reader : Char → String → List (List String)
  pub workbook : Bytes → List Cells
  pub unescape : String → String

-- A table, or UnsupportedFileError, or EmptyFileError.
pub data Reading : Type 0 where
  table : Table → Reading
  unsupported empty_file : Reading

-- _ENCODINGS
abbrev encodings : List String
encodings = "utf-8-sig" ∷ "utf-8" ∷ "cp1252" ∷ "latin-1" ∷ []

decode_by : Libraries → Bytes → List String → Option String
decode_by l payload [] = none
decode_by l payload (encoding ∷ rest) = elim (l.decode encoding payload) [
  | some text ↦ some text
  | none ↦ decode_by l payload rest
]

-- _decode
unfoldable pub decode : Libraries → Bytes → Option String
unfolding decode_by
decode l payload = decode_by l payload encodings

-- the first separator of the largest count
most_frequent : String → Char → List Char → Char
unfolding occurrences
most_frequent sample best [] = best
most_frequent sample best (sep ∷ seps) =
    most_frequent sample
      (if ltb (occurrences best sample) (occurrences sep sample) then sep else best) seps

guess_delimiter : String → Char
unfolding most_frequent occurrences
guess_delimiter sample =
    let best = most_frequent sample ";" ("," ∷ "\t" ∷ "|" ∷ []) in
    if ltb 0 (occurrences best sample) then best else ","

-- _sniff_delimiter
sniff_delimiter : Libraries → String → Char
unfolding guess_delimiter
sniff_delimiter l sample = elim (l.sniff sample) [ some c ↦ c | none ↦ guess_delimiter sample ]

abbrev is_blank_cell : Runtime → Option Cell → Bool
unfolding str strip
is_blank_cell r none = true
is_blank_cell r (some c) = is_blank (strip (str r c))

-- _is_blank
unfoldable pub is_blank_row : Runtime → Cells → Bool
unfolding str strip
is_blank_row r row = all (is_blank_cell r) row

abbrev header_text : Runtime → Option Cell → String
unfolding str strip
header_text r none = ""
header_text r (some c) = strip (str r c)

unfoldable pub header_texts : Runtime → Cells → List String
unfolding str strip
header_texts r [] = []
header_texts r (c ∷ cs) = header_text r c ∷ header_texts r cs

-- the body of the loop of _read_csv and of _read_xlsx
unfoldable pub take_row : Runtime → Cells → Table → Table
unfolding is_blank_row header_texts
take_row r row t =
    if is_blank_row r row
    then t
    else if is_empty t.headers
    then record t { headers = header_texts r row }
    else record t { rows = t.rows ++ row ∷ [] }

unfoldable pub take_rows : Runtime → List Cells → Table → Table
unfolding take_row
take_rows r [] t = t
take_rows r (row ∷ rows) t = take_rows r rows (take_row r row t)

abbrev pub no_table : Table
no_table = record { headers = []; rows = [] }

abbrev text_cells : List String → Cells
text_cells = map (λ s. some (Cell.text s))

-- the texts of csv.reader
csv_table : Runtime → Libraries → String → Table
unfolding take_rows sniff_delimiter take
csv_table r l text =
    take_rows r (map text_cells (l.reader (sniff_delimiter l (take 65536 text)) text)) no_table

csv_reading : Runtime → Libraries → Option String → Reading
unfolding csv_table
csv_reading r l none = Reading.unsupported
csv_reading r l (some text) = Reading.table (csv_table r l text)

-- _read_csv
read_csv : Runtime → Libraries → Bytes → Reading
unfolding csv_reading decode
read_csv r l payload = csv_reading r l (decode l payload)

-- _read_xlsx
read_xlsx : Runtime → Libraries → Bytes → Reading
unfolding take_rows
read_xlsx r l payload = Reading.table (take_rows r (l.workbook payload) no_table)

-- a row of HTML that is not the row of `<th>` cells
take_cells : List String → Table → Table
take_cells cells t =
    if all is_blank cells
    then t
    else if is_empty t.headers
    then record t { headers = cells }
    else record t { rows = t.rows ++ text_cells cells ∷ [] }

-- the body of the loop of _read_html_table
take_html_row : (String → String) → String → Table → Table
unfolding take_cells raw_headers raw_cells clean_cells
take_html_row unescape row t =
    let header_cells = raw_headers row in
    if is_empty t.headers && not (is_empty header_cells)
    then record t { headers = clean_cells unescape header_cells }
    else take_cells (clean_cells unescape (raw_cells row)) t

take_html_rows : (String → String) → List String → Table → Table
unfolding take_html_row
take_html_rows unescape [] t = t
take_html_rows unescape (row ∷ rows) t = take_html_rows unescape rows (take_html_row unescape row t)

html_reading : Libraries → List String → Reading
unfolding take_html_rows
html_reading l [] = Reading.empty_file
html_reading l (row ∷ rows) = Reading.table (take_html_rows l.unescape (row ∷ rows) no_table)

html_of_text : Libraries → Option String → Reading
unfolding html_reading raw_rows
html_of_text l none = Reading.unsupported
html_of_text l (some text) = html_reading l (raw_rows text)

-- _read_html_table
read_html_table : Libraries → Bytes → Reading
unfolding html_of_text decode
read_html_table l payload = html_of_text l (decode l payload)

-- a table without headers or without rows is refused
usable : Reading → Reading
usable (table t) =
    if is_empty t.headers
    then Reading.empty_file
    else if is_empty t.rows
    then Reading.empty_file
    else Reading.table t
usable unsupported = Reading.unsupported
usable empty_file = Reading.empty_file

read_as : Runtime → Libraries → Format → Bytes → Reading
unfolding read_csv read_xlsx read_html_table
read_as r l Format.xlsx payload = read_xlsx r l payload
read_as r l Format.html payload = read_html_table l payload
read_as r l Format.xls_binary payload = Reading.unsupported
read_as r l Format.csv payload = read_csv r l payload

-- `ends_with` is the test of the lowered file name by str.endswith
unfoldable pub read_tabular : Runtime → Libraries → Bytes → (String → Bool) → Reading
unfolding usable read_as sniff_format
read_tabular r l payload ends_with = usable (read_as r l (sniff_format payload ends_with) payload)
