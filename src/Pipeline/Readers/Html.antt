-- ===== src/Pipeline/Readers/Html.antt =====
-- The regular expressions of the HTML table reader of pipeline/readers.py, as scans of a text.
--
-- A scan knows where it is: outside a match, inside the opening tag, or inside the match, whose
-- characters it holds in `seen`; `skip` counts the characters of a closing tag that are passed over.
-- An element that is not closed is no match, and nothing after it can be one.
use Prim.Native.Char.{Char, code}
use data_effi.Prelude.{
  ℕ, zero, suc, ◌+◌, Bool, true, false, not, ◌&&◌, ◌||◌, String, List, [], ◌∷◌, ◌==◌, leb,
  if◌then◌else◌, any,
}
use Prim.Native.String.{◌++◌}
use data_effi.Pipeline.Normalize.Text.{strip, collapse}
use data_effi.Pipeline.Normalize.Money.{char_eq}

-- the code of a character with its ASCII capital lowered, as re.IGNORECASE compares
abbrev pub folded : Char → ℕ
folded c = if leb 65 (code c) && leb (code c) 90 then code c + 32 else code c

-- the text goes on with this tag, in any case
opens_with : String → String → Bool
opens_with s String.[] = true
opens_with String.[] (String.◌∷◌ d p) = false
opens_with (String.◌∷◌ c s) (String.◌∷◌ d p) = folded c == folded d && opens_with s p

pub data Place : Type 0 where
  outside opening inside : Place

abbrev found : String → List String → List String
found s rest = s ∷ rest

-- findall of `<tag[^>]*>(.*?)</tag>`, for the tags that open and those that close
find_elements : List String → List String → Place → ℕ → String → String → List String
unfolding opens_with
find_elements open_tags close_tags place skip seen String.[] = []
find_elements open_tags close_tags place (suc skip) seen (String.◌∷◌ c s) =
    find_elements open_tags close_tags place skip seen s
find_elements open_tags close_tags Place.outside zero seen (String.◌∷◌ c s) =
    find_elements open_tags close_tags
      (if any (opens_with (String.◌∷◌ c s)) open_tags then Place.opening else Place.outside)
      (if any (opens_with (String.◌∷◌ c s)) open_tags then 2 else 0) "" s
find_elements open_tags close_tags Place.opening zero seen (String.◌∷◌ c s) =
    find_elements open_tags close_tags (if char_eq c ">" then Place.inside else Place.opening) 0 ""
      s
find_elements open_tags close_tags Place.inside zero seen (String.◌∷◌ c s) =
    let closed = find_elements open_tags close_tags Place.outside 4 "" s in
    let more =
      find_elements open_tags close_tags Place.inside 0 (seen ++ String.◌∷◌ c String.[]) s in
    if any (opens_with (String.◌∷◌ c s)) close_tags then found seen closed else more

-- `>` is still to come
unfoldable pub closes : String → Bool
closes String.[] = false
closes (String.◌∷◌ c s) = char_eq c ">" || closes s

-- a tag has a character at least
starts_tag : String → Bool
unfolding closes
starts_tag String.[] = false
starts_tag (String.◌∷◌ c s) = not (char_eq c ">") && closes s

-- _TAG_RE.sub(" ", s)
without_tags : Bool → String → String
unfolding starts_tag
without_tags in_tag String.[] = String.[]
without_tags true (String.◌∷◌ c s) = without_tags (not (char_eq c ">")) s
without_tags false (String.◌∷◌ c s) =
    let tag = char_eq c "<" && starts_tag s in
    String.◌∷◌ (if tag then " " else c) (without_tags tag s)

-- `unescape` is html.unescape
clean_cell : (String → String) → String → String
unfolding without_tags strip collapse
clean_cell unescape fragment = strip (collapse (unescape (without_tags false fragment)))

unfoldable pub clean_cells : (String → String) → List String → List String
unfolding clean_cell
clean_cells unescape [] = []
clean_cells unescape (f ∷ fs) = clean_cell unescape f ∷ clean_cells unescape fs

abbrev elements : List String → List String → String → List String
unfolding find_elements
elements open_tags close_tags s = find_elements open_tags close_tags Place.outside 0 "" s

-- _ROW_RE, _HEADER_CELL_RE and _CELL_RE
unfoldable pub raw_rows : String → List String
unfolding find_elements
raw_rows s = elements ("<tr" ∷ []) ("</tr>" ∷ []) s

unfoldable pub raw_headers : String → List String
unfolding find_elements
raw_headers s = elements ("<th" ∷ []) ("</th>" ∷ []) s

unfoldable pub raw_cells : String → List String
unfolding find_elements
raw_cells s = elements ("<td" ∷ "<th" ∷ []) ("</td>" ∷ "</th>" ∷ []) s
