-- ===== src/Pipeline/Normalize/Dates.antt =====
-- The dates of pipeline/normalize.py: `parse_date` and `parse_datetime`.
--
-- A date is its day number, a datetime its microseconds from the same midnight; both are without a
-- time zone, as in the source.
use Prim.Native.Char.{Char, code}
use Prim.Native.String.{[], ◌∷◌}
use data_effi.Prelude.{
  ℕ, ◌*◌, ◌/◌, String, Option, none, some, List, is_blank, if◌then◌else◌, ◌==◌, or_else, not,
}
use data_effi.Pipeline.Normalize.Runtime.{Cell, Runtime, str}
use data_effi.Pipeline.Normalize.Text.{strip, filter}

abbrev day_length : ℕ
day_length = 86400000000

-- dt.date() and datetime(d.year, d.month, d.day)
abbrev pub date_of : ℕ → ℕ
date_of t = t / day_length

abbrev pub midnight : ℕ → ℕ
midnight d = d * day_length

-- s.split(c)[0]
unfoldable pub before : Char → String → String
before c [] = []
before c (d ∷ s) = if code d == code c then [] else d ∷ before c s

-- _DATE_FORMATS
abbrev date_formats : List String
date_formats = List.◌∷◌ "%Y-%m-%d" (
    List.◌∷◌ "%d/%m/%Y" (
      List.◌∷◌ "%d-%m-%Y"
        (List.◌∷◌ "%d/%m/%y" (List.◌∷◌ "%Y/%m/%d" (List.◌∷◌ "%m/%d/%Y" List.[])))))

-- _DATETIME_FORMATS
abbrev datetime_formats : List String
datetime_formats = List.◌∷◌ "%Y-%m-%d %H:%M:%S" (
    List.◌∷◌ "%Y-%m-%dT%H:%M:%S" (
      List.◌∷◌ "%Y-%m-%d %H:%M" (
        List.◌∷◌ "%d/%m/%Y %H:%M:%S" (
          List.◌∷◌ "%d/%m/%Y %H:%M"
            (List.◌∷◌ "%d-%m-%Y %H:%M:%S" (List.◌∷◌ "%d-%m-%Y %H:%M" List.[]))))))

-- the first format that reads the text
unfoldable pub first_format : Runtime → String → List String → Option ℕ
first_format r s List.[] = none
first_format r s (List.◌∷◌ f fs) = or_else (r.strptime s f) (first_format r s fs)

abbrev date_part : Option ℕ → Option ℕ
date_part none = none
date_part (some t) = some (date_of t)

abbrev at_midnight : Option ℕ → Option ℕ
at_midnight none = none
at_midnight (some d) = some (midnight d)

unfoldable pub parse_date_text : Runtime → String → Option ℕ
unfolding strip before first_format
parse_date_text r s =
    let trimmed = strip s in
    if is_blank trimmed
    then none
    else date_part (first_format r (strip (before "T" (before " " trimmed))) date_formats)

unfoldable pub parse_date : Runtime → Option Cell → Option ℕ
unfolding parse_date_text str
parse_date r none = none
parse_date r (some (Cell.timestamp t)) = some (date_of t)
parse_date r (some (Cell.date d)) = some d
parse_date r (some (Cell.text s)) = parse_date_text r s
parse_date r (some (Cell.decimal d)) = parse_date_text r (str r (Cell.decimal d))
parse_date r (some (Cell.integer n)) = parse_date_text r (str r (Cell.integer n))
parse_date r (some (Cell.float d)) = parse_date_text r (str r (Cell.float d))
parse_date r (some (Cell.bool b)) = parse_date_text r (str r (Cell.bool b))
parse_date r (some (Cell.other n)) = parse_date_text r (str r (Cell.other n))

-- `text.replace("Z", "").split(".")[0].strip()`, then the formats, then a date alone
unfoldable pub parse_datetime_text : Runtime → String → Option ℕ
unfolding strip before filter first_format parse_date_text
parse_datetime_text r s =
    let trimmed = strip s in
    if is_blank trimmed
    then none
    else let plain = strip (before "." (filter (λ c. not (code c == 90)) trimmed)) in
      or_else (first_format r plain datetime_formats) (at_midnight (parse_date_text r plain))

unfoldable pub parse_datetime : Runtime → Option Cell → Option ℕ
unfolding parse_datetime_text str
parse_datetime r none = none
parse_datetime r (some (Cell.timestamp t)) = some t
parse_datetime r (some (Cell.date d)) = some (midnight d)
parse_datetime r (some (Cell.text s)) = parse_datetime_text r s
parse_datetime r (some (Cell.decimal d)) = parse_datetime_text r (str r (Cell.decimal d))
parse_datetime r (some (Cell.integer n)) = parse_datetime_text r (str r (Cell.integer n))
parse_datetime r (some (Cell.float d)) = parse_datetime_text r (str r (Cell.float d))
parse_datetime r (some (Cell.bool b)) = parse_datetime_text r (str r (Cell.bool b))
parse_datetime r (some (Cell.other n)) = parse_datetime_text r (str r (Cell.other n))
