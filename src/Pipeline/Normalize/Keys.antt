-- ===== src/Pipeline/Normalize/Keys.antt =====
-- The keys of pipeline/normalize.py: tracking numbers, currencies, the customer's hash and the
-- identity of a movement.
use Prim.Native.Char.{Char, code}
use Prim.Native.String.{[], ◌∷◌, count, ◌++◌}
use data_effi.Prelude.{
  ◌/◌, ◌%◌, ◌^◌, String, Bool, true, false, not, ◌&&◌, ◌||◌, Option, none, some, List, ltb,
  is_blank, if◌then◌else◌, ◌==◌,
}
use data_effi.Prelude.Int.{ℤ, pos_part, neg_part, sub_ℕ}
use data_effi.Decimal.{Decimal}
use data_effi.Pipeline.Normalize.Runtime.{Cell, Runtime, str}
use data_effi.Pipeline.Normalize.Text.{strip, filter, clean_text, or_none}
use data_effi.Pipeline.Normalize.Money.{all_chars}
use data_effi.Pipeline.Normalize.Dates.{before}

abbrev is_quote : Char → Bool
is_quote c = code c == 39 || code c == 34

-- s.strip("'\"")
unfoldable pub unquoted_left : String → String
unquoted_left [] = []
unquoted_left (c ∷ s) = if is_quote c then unquoted_left s else c ∷ s

unfoldable pub unquoted_right : String → String
unquoted_right [] = []
unquoted_right (c ∷ s) =
    let rest = unquoted_right s in if is_quote c && is_blank rest then [] else c ∷ rest

-- re.fullmatch(r"\d+\.0+", s), after the first digit or before it
abbrev is_zero : Char → Bool
is_zero c = code c == 48

digits_then_zeros : Runtime → Bool → String → Bool
unfolding all_chars
digits_then_zeros r seen [] = false
digits_then_zeros r seen (c ∷ s) =
    let rest = digits_then_zeros r true s in
    if r.is_digit c then rest else seen && code c == 46 && not (is_blank s) && all_chars is_zero s

-- int(value) of a float that is an integer
abbrev whole_float : Decimal → Option ℤ
whole_float d =
    if pos_part d.units % 10 ^ d.scale == 0 && neg_part d.units % 10 ^ d.scale == 0
    then some (sub_ℕ (pos_part d.units / 10 ^ d.scale) (neg_part d.units / 10 ^ d.scale))
    else none

-- the text of a cell, an integral float as an integer
abbrev key_text : Runtime → Cell → String
key_text r (Cell.float d) = elim (whole_float d) [
  | some n ↦ r.show (Cell.integer n)
  | none ↦ r.show (Cell.float d)
]
key_text r (Cell.text s) = s
key_text r (Cell.decimal d) = r.show (Cell.decimal d)
key_text r (Cell.integer n) = r.show (Cell.integer n)
key_text r (Cell.bool b) = r.show (Cell.bool b)
key_text r (Cell.date d) = r.show (Cell.date d)
key_text r (Cell.timestamp t) = r.show (Cell.timestamp t)
key_text r (Cell.other n) = r.show (Cell.other n)

-- `str(value).strip().strip("'\"").replace(" ", "")`
abbrev compact : String → String
compact s = filter (λ c. not (code c == 32)) (unquoted_right (unquoted_left (strip s)))

unfoldable pub normalize_tracking : Runtime → Option Cell → Option String
unfolding strip filter unquoted_left unquoted_right digits_then_zeros before or_none
normalize_tracking r none = none
normalize_tracking r (some value) =
    let s = compact (key_text r value) in
    or_none (r.upper (if digits_then_zeros r false s then before "." s else s))

currency_of : Runtime → Option String → String → String
unfolding all_chars
currency_of r none default = r.upper default
currency_of r (some s) default =
    if count s == 3 && all_chars r.is_alpha s then r.upper s else r.upper default

unfoldable pub normalize_currency : Runtime → Option Cell → String → String
unfolding clean_text currency_of
normalize_currency r value default = currency_of r (clean_text r value) default

-- the salt is there: the engine refuses to start without one
unfoldable pub hash_customer : Runtime → Option Cell → String → Option String
unfolding str filter
hash_customer r none salt = none
hash_customer r (some value) salt =
    let digits = filter r.is_digit (str r value) in
    if is_blank salt || ltb (count digits) 6 then none else some (r.sha256 (salt ++ ":" ++ digits))

-- "|".join(…)
unfoldable pub joined : List String → String
joined List.[] = ""
joined (List.◌∷◌ s List.[]) = s
joined (List.◌∷◌ s (List.◌∷◌ t ts)) = s ++ "|" ++ joined (List.◌∷◌ t ts)

abbrev part : Runtime → Option String → String
part r none = ""
part r (some s) = r.lower (strip s)

abbrev parts_of : Runtime → List (Option String) → List String
parts_of r List.[] = List.[]
parts_of r (List.◌∷◌ p ps) = List.◌∷◌ (part r p) (parts_of r ps)

-- the parts are the texts that `str` gives
unfoldable pub dedupe_key : Runtime → List (Option String) → String
unfolding joined strip
dedupe_key r parts = r.sha256 (joined (parts_of r parts))
