-- ===== src/Pipeline/Profiles/Concealed.antt =====
-- What `redact_row` of pipeline/profiles.py keeps of the cells of a row.
use Prim.Native.String.{◌++◌}
use data_effi.Prelude.{
  String, true, false, Option, none, some, List, [], ◌∷◌, ◌≡◌, Bool-cases, Option-cases, inl, inr,
  take, is_some, if◌then◌else◌,
}
use data_effi.Dict.{Dict}
use data_effi.Pipeline.Normalize.Runtime.{Cell, Runtime}
use data_effi.Pipeline.Normalize.Text.{normalize_text, clean_text}
use data_effi.Pipeline.Profiles.{redact_row, is_personal, hidden, as_cell}

-- The row that is kept, with the names of its hidden columns: the same headers in the same order,
-- a cell as it stood where the column is not personal, and no cell or a digest where it is.
pub data Redacted (r : Runtime) (pii : List String) (salt : String)
    : Dict String (Option String) → Dict String (Option String) → List String → Type 0 where
  done : Redacted r pii salt [] [] []
  clear :
      {raw payload : Dict String (Option String)} {names : List String} (header : String)
      (value : Option String)
      → is_personal pii (normalize_text r (some (Cell.text header))) ≡ false
      → Redacted r pii salt raw payload names
      → Redacted r pii salt ((header, value) ∷ raw) ((header, value) ∷ payload) names
  empty :
      {raw payload : Dict String (Option String)} {names : List String} (header : String)
      (value : Option String)
      → is_personal pii (normalize_text r (some (Cell.text header))) ≡ true
      → clean_text r (as_cell value) ≡ none
      → Redacted r pii salt raw payload names
      → Redacted r pii salt ((header, value) ∷ raw) ((header, none) ∷ payload) names
  digest :
      {raw payload : Dict String (Option String)} {names : List String} (header : String)
      (value : Option String) (s : String)
      → is_personal pii (normalize_text r (some (Cell.text header))) ≡ true
      → clean_text r (as_cell value) ≡ some s
      → Redacted r pii salt raw payload names
      → Redacted r pii salt
          ((header, value) ∷ raw)
          ((header, some ("sha256:" ++ take 32 (r.sha256 (salt ++ ":" ++ s)))) ∷ payload)
          (header ∷ names)

hidden-Redacted :
    (r : Runtime) (pii : List String) (salt header : String) (value : Option String)
    {raw payload : Dict String (Option String)} {names : List String}
    → is_personal pii (normalize_text r (some (Cell.text header))) ≡ true
    → Redacted r pii salt raw payload names
    → Redacted r pii salt
        ((header, value) ∷ raw)
        ((header, hidden r salt (clean_text r (as_cell value))) ∷ payload)
        (if is_some (clean_text r (as_cell value)) then header ∷ names else names)
hidden-Redacted r pii salt header value p rest =
    elim (Option-cases (clean_text r (as_cell value))) [
      | inl n ↦ rw (n) (Redacted.empty header value p n rest)
      | inr (s, q) ↦ rw (q) (Redacted.digest header value s p q rest)
    ]

-- redact_row keeps every header in its place. Under a header that is not personal the cell is
-- unchanged; under a personal one it is None if the cell has no text after cleaning, and otherwise
-- the salted digest of that text. The names returned are the headers of the digests, in order.
pub redact_row-Redacted :
    (r : Runtime) (raw : Dict String (Option String)) (pii : List String) (salt : String)
    → Redacted r pii salt raw ((redact_row r raw pii salt).0) ((redact_row r raw pii salt).1)
unfolding redact_row
redact_row-Redacted r [] pii salt = Redacted.done
redact_row-Redacted r ((header, value) ∷ raw) pii salt =
    let rest = redact_row-Redacted r raw pii salt in
    elim (Bool-cases (is_personal pii (normalize_text r (some (Cell.text header))))) [
      | inl p ↦ rw (p) (hidden-Redacted r pii salt header value p rest)
      | inr p ↦ rw (p) (Redacted.clear header value p rest)
    ]
