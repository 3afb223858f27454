-- ===== src/Pipeline/Profiles/Country.antt =====
-- The country of a report, by `detect_country` of pipeline/profiles.py.
use data_effi.Prelude.{
  ℕ, suc, zero, String, Bool, true, false, Option, none, some, List, [], ◌∷◌, ltb, is_blank,
  if◌then◌else◌, str_eq,
}
use data_effi.Prelude.Equality.{nat_eq, string_eq}
use data_effi.Dict.{Dict, lookup, insert}
use data_effi.Pipeline.Normalize.Runtime.{Cell, Runtime}
use data_effi.Pipeline.Normalize.Text.{normalize_text, clean_text}
use data_effi.Pipeline.Profiles.Source.{SourceProfile}

-- COUNTRY_ALIASES
abbrev country_aliases : Dict String String
country_aliases =
    ("colombia", "CO")
    ∷ ("co", "CO")
    ∷ ("col", "CO")
    ∷ ("republica de colombia", "CO")
    ∷ ("ecuador", "EC")
    ∷ ("ec", "EC")
    ∷ ("ecu", "EC")
    ∷ ("republica del ecuador", "EC")
    ∷ ("mexico", "MX")
    ∷ ("mx", "MX")
    ∷ ("mex", "MX")
    ∷ ("estados unidos mexicanos", "MX")
    ∷ ("peru", "PE")
    ∷ ("pe", "PE")
    ∷ ("per", "PE")
    ∷ ("chile", "CL")
    ∷ ("cl", "CL")
    ∷ ("chl", "CL")
    ∷ ("panama", "PA")
    ∷ ("pa", "PA")
    ∷ ("pan", "PA")
    ∷ ("guatemala", "GT")
    ∷ ("gt", "GT")
    ∷ ("gtm", "GT")
    ∷ ("honduras", "HN")
    ∷ ("hn", "HN")
    ∷ ("hnd", "HN")
    ∷ ("republica de honduras", "HN")
    ∷ ("costa rica", "CR")
    ∷ ("cr", "CR")
    ∷ ("cri", "CR")
    ∷ ("republica de costa rica", "CR")
    ∷ ("republica dominicana", "DO")
    ∷ ("dominicana", "DO")
    ∷ ("santo domingo", "DO")
    ∷ ("do", "DO")
    ∷ ("dom", "DO")
    ∷ ("rd", "DO")
    ∷ ("venezuela", "VE")
    ∷ ("ve", "VE")
    ∷ ("ven", "VE")
    ∷ ("republica bolivariana de venezuela", "VE")
    ∷ []

country_of_key : Option String → Option String
unfolding lookup
country_of_key none = none
country_of_key (some key) = lookup key country_aliases

resolve_country : Runtime → Option Cell → Option String
unfolding country_of_key
resolve_country r raw = country_of_key (normalize_text r raw)

abbrev pub same_text : Option String → Option String → Bool
same_text none none = true
same_text (some a) (some b) = str_eq a b
same_text _ _ = false

-- the position of the first header that is normalised to the same text
position_of : Runtime → Option String → ℕ → List String → Option ℕ
position_of r target position [] = none
position_of r target position (h ∷ hs) =
    let later = position_of r target (suc position) hs in
    if same_text (normalize_text r (some (Cell.text h))) target then some position else later

-- row[position], None beyond its end
cell_at : ℕ → List (Option Cell) → Option Cell
cell_at n [] = none
cell_at zero (c ∷ cs) = c
cell_at (suc n) (c ∷ cs) = cell_at n cs

abbrev seen_count : Option ℕ → ℕ
seen_count none = 0
seen_count (some n) = n

see : Dict String ℕ → Option String → Dict String ℕ
unfolding lookup
see seen none = seen
see seen (some v) = insert v (suc (seen_count (lookup v seen))) seen

-- how often each value stands in the column, over the first rows
tally_column : Runtime → ℕ → ℕ → List (List (Option Cell)) → Dict String ℕ → Dict String ℕ
unfolding see cell_at clean_text
tally_column r zero position rows seen = seen
tally_column r (suc n) position [] seen = seen
tally_column r (suc n) position (row ∷ rows) seen =
    tally_column r n position rows (see seen (clean_text r (cell_at position row)))

-- max(seen, key=…): the first of the largest
most_common : Dict String ℕ → Option (String × ℕ)
most_common [] = none
most_common ((v, n) ∷ d) = elim (most_common d) [
  | none ↦ some (v, n)
  | some (w, m) ↦ if ltb n m then some (w, m) else some (v, n)
]

named_country : Runtime → Option (String × ℕ) → Option String
unfolding resolve_country
named_country r none = none
named_country r (some (v, n)) = resolve_country r (some (Cell.text v))

column_country : Runtime → List (List (Option Cell)) → Option ℕ → Option String
unfolding named_country most_common tally_column
column_country r rows none = none
column_country r rows (some position) =
    named_country r (most_common (tally_column r 50 position rows []))

header_country : Runtime → List String → List (List (Option Cell)) → Option String → Option String
unfolding column_country position_of
header_country r headers rows none = none
header_country r headers rows (some column) =
    if is_blank column
    then none
    else column_country r rows
        (position_of r (normalize_text r (some (Cell.text column))) 0 headers)

-- the country's code; the raw value is left out
unfoldable pub detect_country :
    Runtime → List String → List (List (Option Cell)) → SourceProfile → Option String
unfolding header_country
detect_country r headers rows p = header_country r headers rows p.country_column
