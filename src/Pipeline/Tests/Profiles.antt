-- ===== src/Pipeline/Tests/Profiles.antt =====
-- The profiles of pipeline/profiles.py at a concrete row.
use data_effi.Prelude.{String, Option, none, some, List, [], ◌∷◌, ◌≡◌, refl}
use data_effi.Dict.{Dict, lookup}
use data_effi.Pipeline.Models.{BatchKind}
use data_effi.Pipeline.Profiles.{SourceProfile, redact_row}
use data_effi.Pipeline.Profiles.Named.{named, field_at}
use data_effi.Prelude.Equality.{nat_eq, string_eq}
use data_effi.Pipeline.Profiles.Concealed.{Redacted, redact_row-Redacted}
use data_effi.Pipeline.Normalize.Runtime.{is_space}
use data_effi.Pipeline.Normalize.Text.{normalize_text}
use data_effi.Pipeline.Tests.Files.{ascii}

abbrev raw_row : Dict String (Option String)
raw_row =
    ("nombre", some " Ana ")
    ∷ ("color", some "rojo")
    ∷ ("telefono", some "  ")
    ∷ ("guia", none)
    ∷ []

abbrev kept_row : Dict String (Option String)
kept_row =
    ("nombre", some "sha256:salt:Ana")
    ∷ ("color", some "rojo")
    ∷ ("telefono", none)
    ∷ ("guia", none)
    ∷ []

hides : redact_row ascii raw_row ("telefono" ∷ "nombre" ∷ []) "salt" ≡ (kept_row, "nombre" ∷ [])
unfolding redact_row is_space
hides = refl

redact_row-Redacted_example :
    Redacted ascii
      ("telefono" ∷ "nombre" ∷ [])
      "salt"
      raw_row
      ((redact_row ascii raw_row ("telefono" ∷ "nombre" ∷ []) "salt").0)
      ((redact_row ascii raw_row ("telefono" ∷ "nombre" ∷ []) "salt").1)
redact_row-Redacted_example = redact_row-Redacted ascii raw_row ("telefono" ∷ "nombre" ∷ []) "salt"

abbrev orders : SourceProfile
orders = record {
  code = "orders";
  platform_code = "shop";
  kind = BatchKind.shipments;
  label = "Orders";
  signature = "id" ∷ "guia" ∷ [];
  columns = ("guia", "tracking_number") ∷ ("valor", "declared_value") ∷ ("id", "") ∷ [];
  derived = [];
  pii_columns = [];
  country_column = none;
  transform = λ f. some f;
}

abbrev order_headers : List String
order_headers = "id" ∷ "" ∷ " guia" ∷ "color" ∷ "valor" ∷ []

expected : field_at ascii orders.columns 2 order_headers ≡ some "tracking_number"
unfolding field_at named lookup is_space normalize_text
expected = refl
