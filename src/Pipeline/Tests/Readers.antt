-- ===== src/Pipeline/Tests/Readers.antt =====
-- The readers of pipeline/readers.py at concrete contents.
use data_effi.Prelude.{String, true, false, none, some, List, [], ◌∷◌, ◌≡◌, refl, arith}
use data_effi.Pipeline.Normalize.Runtime.{Cell, is_space}
use data_effi.Pipeline.Readers.Bytes.{Format, sniff_format}
use data_effi.Pipeline.Readers.Tables.{Libraries, Reading, Cells, no_table, read_tabular, take_rows}
use data_effi.Pipeline.Readers.Kept.{kept, table_of, take_rows-kept, sniff_format-content}
use data_effi.Pipeline.Tests.Files.{ascii}

-- The libraries at a text that is known: nothing is a delimiter that the sniffer finds.
abbrev libraries : String → Libraries
libraries text = record {
  decode = λ encoding payload. some text;
  sniff = λ sample. none;
  reader =
      λ delimiter s. ("guia" ∷ "estado" ∷ []) ∷ ("" ∷ " " ∷ []) ∷ ("G1" ∷ "entregada" ∷ []) ∷ [];
  workbook = λ payload. [];
  unescape = λ s. s;
}

abbrev page : String
page = "<table><tr><TH>Guia</th><th> Estado </th></tr><tr><td>G1<br>x</td><td>ok</td></tr></table>"

-- A page that is named like a workbook.
html_page :
    read_tabular ascii (libraries page) (0x0a ∷ 0x3c ∷ []) (λ ending. true)
    ≡ Reading.table (record {
      headers = "Guia" ∷ "Estado" ∷ [];
      rows = (some (Cell.text "G1 x") ∷ some (Cell.text "ok") ∷ []) ∷ [];
    })
unfolding read_tabular is_space
html_page = refl

delimited :
    read_tabular ascii (libraries "") (0x67 ∷ []) (λ ending. false)
    ≡ Reading.table (record {
      headers = "guia" ∷ "estado" ∷ [];
      rows = (some (Cell.text "G1") ∷ some (Cell.text "entregada") ∷ []) ∷ [];
    })
unfolding read_tabular is_space
delimited = refl

empty_page :
    read_tabular ascii (libraries "<p>nada</p>") (0x3c ∷ []) (λ ending. false) ≡ Reading.empty_file
unfolding read_tabular is_space
empty_page = refl

old_workbook :
    read_tabular ascii
      (libraries "")
      (0xd0 ∷ 0xcf ∷ 0x11 ∷ 0xe0 ∷ 0xa1 ∷ 0xb1 ∷ 0x1a ∷ 0xe1 ∷ [])
      (λ ending. true)
    ≡ Reading.unsupported
unfolding read_tabular
old_workbook = refl

sniff_format-content_example :
    sniff_format (0x20 ∷ 0x0a ∷ 0x3c ∷ 0x70 ∷ []) (λ ending. true) ≡ Format.html
sniff_format-content_example =
    sniff_format-content (0x20 ∷ 0x0a ∷ []) (0x70 ∷ []) (λ ending. true) refl (omega arith)

abbrev sheet : List Cells
sheet =
    (none ∷ some (Cell.text " ") ∷ [])
    ∷ (some (Cell.text " guia ") ∷ none ∷ [])
    ∷ (none ∷ [])
    ∷ (some (Cell.text "G1") ∷ [])
    ∷ []

take_rows-kept_example : take_rows ascii sheet no_table ≡ table_of ascii (kept ascii sheet)
take_rows-kept_example = take_rows-kept ascii sheet
