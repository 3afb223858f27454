-- ===== src/Pipeline/Tests/Files.antt =====
-- Concrete files: a runtime for ASCII texts, an engine, a table of guides and one of movements.
use Prim.Native.Char.{Char, code}
use data_effi.Prelude.{
  ◌-◌, ◌*◌, String, Bool, false, ◌&&◌, none, some, List, [], ◌∷◌, leb, str_eq, if◌then◌else◌,
}
use data_effi.Pipeline.Models.{BatchKind}
use data_effi.Pipeline.Normalize.Runtime.{Cell, Runtime}
use data_effi.Pipeline.Rows.{Engine, Fields}
use data_effi.Pipeline.Engine.Upload.{Upload}

abbrev pub digit : Char → Bool
digit c = leb 48 (code c) && leb (code c) 57

abbrev pub ascii : Runtime
ascii = record {
  show = λ c. "7";
  nfkd = λ s. s;
  is_combining = λ c. false;
  is_digit = digit;
  is_digit_like = digit;
  digit_value = λ c. code c - 48;
  is_alpha = λ c. leb 65 (code c) && leb (code c) 90;
  lower = λ s. s;
  upper = λ s. s;
  strptime = λ s f. if str_eq s "2024-05-01" then some (19844 * 86400000000) else none;
  sha256 = λ s. s;
}

abbrev pub engine : Engine
engine = record {
  runtime = ascii;
  show_id = λ n. "c";
  encrypt = none;
  pii_salt = "salt";
  today = 20000;
  archive_rows = false;
}

abbrev pub guide_headers : List String
guide_headers = "guia" ∷ "fecha" ∷ "estado" ∷ "valor" ∷ "color" ∷ []

abbrev pub guide_fields : Fields
guide_fields =
    ("tracking_number", some (Cell.text "G1"))
    ∷ ("created_date", some (Cell.text "2024-05-01"))
    ∷ ("status_raw", some (Cell.text "entregado en agencia (pasto)"))
    ∷ ("declared_value", some (Cell.text "-89.900"))
    ∷ []

abbrev pub payment_fields : Fields
payment_fields =
    ("amount", some (Cell.text "1.234,56"))
    ∷ ("movement_date", some (Cell.text "2024-05-01"))
    ∷ ("movement_type_raw", some (Cell.text "flete"))
    ∷ ("external_ref", some (Cell.text "R1"))
    ∷ []

abbrev pub moved_fields : Fields
moved_fields =
    ("amount", some (Cell.text "1.234,56"))
    ∷ ("movement_date", some (Cell.text "2024-01-05"))
    ∷ ("external_ref", some (Cell.text "R1"))
    ∷ []

abbrev pub upload : Upload
upload = record {
  fresh = 2;
  digest = "d1";
  read = some (
    guide_headers,
    (some (Cell.text "G1")
          ∷ some (Cell.text "2024-05-01")
          ∷ some (Cell.text "entregado")
          ∷ some (Cell.text "89.900")
          ∷ none
          ∷ [])
        ∷ (none ∷ some (Cell.text "2024-05-01") ∷ [])
        ∷ [],
  );
  source_name = "guias.csv";
  kind = BatchKind.shipments;
  tenant_id = 1;
  connection_id = 7;
  country_code = "CO";
  platform_code = "effi";
  default_currency = "COP";
  reprocess = false;
}
