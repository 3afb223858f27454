-- ===== src/Pipeline/Profiles/Contents.antt =====
-- The column `Contenido` of Effi: `parse_content` of pipeline/profiles.py, `is_yes`, and the
-- methods of `str` that they and the transforms call.
use Prim.Native.Char.{Char}
use Prim.Native.String.{count}
use text.Mathlib.Text.{starts_with}
use data_effi.Prelude.{
  ℕ, String, Bool, true, false, ◌&&◌, ◌||◌, Option, none, some, List, [], ◌∷◌, not, leb, is_blank,
  mentions, if◌then◌else◌, length,
}
use data_effi.Prelude.Int.{ℤ, pos, neg}
use data_effi.Pipeline.Normalize.Runtime.{Cell, Runtime}
use data_effi.Pipeline.Normalize.Text.{normalize_text, clean_text, strip, filter, collapse, or_none}
use data_effi.Pipeline.Normalize.Money.{truncated, char_eq, all_chars, digits_from}

-- `part in s`
unfoldable pub contains : String → String → Bool
contains String.[] part = is_blank part
contains (String.◌∷◌ c s) part = starts_with (String.◌∷◌ c s) part || contains s part

abbrev join_first : Char → List String → List String
join_first c [] = (String.◌∷◌ c String.[]) ∷ []
join_first c (w ∷ ws) = (String.◌∷◌ c w) ∷ ws

-- s.split(sep)
unfoldable pub split : Char → String → List String
split sep String.[] = "" ∷ []
split sep (String.◌∷◌ c s) =
    let rest = split sep s in if char_eq c sep then "" ∷ rest else join_first c rest

-- the parts of a text that are not blank, stripped
unfoldable pub segments : List String → List String
unfolding strip
segments [] = []
segments (w ∷ ws) = let rest = segments ws in if is_blank (strip w) then rest else strip w ∷ rest

-- s.partition(sep), None where the separator is not in the text
unfoldable pub partition : Char → String → Option (String × String)
partition sep String.[] = none
partition sep (String.◌∷◌ c s) =
    let rest = partition sep s in if char_eq c sep then some ("", s) else after c rest
  where
    after : Char → Option (String × String) → Option (String × String)
    after c none = none
    after c (some (before, tail)) = some (String.◌∷◌ c before, tail)

-- " ".join(s.split())
unfoldable pub squeeze : String → String
unfolding strip collapse
squeeze s = strip (collapse s)

-- s.replace(old, new), of one character
unfoldable pub replace : Char → Char → String → String
replace old new String.[] = String.[]
replace old new (String.◌∷◌ c s) = String.◌∷◌ (if char_eq c old then new else c) (replace old new s)

-- int(s) of a text without a sign, None for the ValueError; int() reads at most 4300 digits
unfoldable pub int_of_digits : Runtime → String → Option ℕ
unfolding all_chars digits_from
int_of_digits r s =
    if all_chars r.is_digit s && not (is_blank s) && leb (count s) 4300
    then some (digits_from r 0 s)
    else none

-- the digits of a number, where one underscore may stand between two of them
without_underscores : Bool → String → Option String
without_underscores after_digit String.[] = if after_digit then some String.[] else none
without_underscores after_digit (String.◌∷◌ c s) =
    let rest = without_underscores (not (char_eq c "_")) s in
    if char_eq c "_" then (if after_digit then rest else none) else push c rest
  where
    push : Char → Option String → Option String
    push c none = none
    push c (some s) = some (String.◌∷◌ c s)

read_digits : Runtime → Option String → Option ℕ
unfolding int_of_digits
read_digits r none = none
read_digits r (some s) = int_of_digits r s

minus : Option ℕ → Option ℤ
minus none = none
minus (some n) = some (neg (pos n))

plus : Option ℕ → Option ℤ
plus none = none
plus (some n) = some (pos n)

signed_digits : Runtime → String → Option ℤ
unfolding read_digits without_underscores plus minus
signed_digits r String.[] = none
signed_digits r (String.◌∷◌ c s) =
    if char_eq c "-"
    then minus (read_digits r (without_underscores false s))
    else plus
        (read_digits r (without_underscores false (if char_eq c "+" then s else String.◌∷◌ c s)))

-- int(value), None for the TypeError or ValueError
unfoldable pub int_of : Runtime → Cell → Option ℤ
unfolding signed_digits strip
int_of r (Cell.text s) = signed_digits r (strip s)
int_of r (Cell.decimal d) = some (truncated d)
int_of r (Cell.integer n) = some n
int_of r (Cell.float d) = some (truncated d)
int_of r (Cell.bool b) = some (pos (if b then 1 else 0))
int_of r (Cell.date d) = none
int_of r (Cell.timestamp t) = none
int_of r (Cell.other n) = none

-- What the field holds: the quantity, the product, and how many more products there are.
pub record Content : Type 0 where
  pub quantity : Option ℕ
  pub product_name : Option String
  pub extra_items : ℕ

abbrev pub no_content : Content
no_content = record { quantity = none; product_name = none; extra_items = 0 }

abbrev described : Option ℕ → String → ℕ → Content
unfolding squeeze replace or_none
described quantity name extra = record {
  quantity = quantity;
  product_name = or_none (squeeze (replace "," " " name));
  extra_items = extra;
}

-- the digits before the asterisk, one if there are none
unfoldable pub quantity_of : Runtime → String → Option ℕ
unfolding int_of_digits filter
quantity_of r text =
    let digits = filter r.is_digit_like text in
    if is_blank digits then some 1 else int_of_digits r digits

quantified : Option ℕ → String → ℕ → Option Content
unfolding described
quantified none name extra = none
quantified (some n) name extra = some (described (some n) name extra)

first_segment : Runtime → String → Option (String × String) → ℕ → Option Content
unfolding quantity_of quantified described
first_segment r first none extra = some (described (some 1) first extra)
first_segment r first (some (quantity, name)) extra = quantified (quantity_of r quantity) name extra

from_segments : Runtime → List String → Option Content
unfolding first_segment partition
from_segments r [] = some no_content
from_segments r (first ∷ rest) = first_segment r first (partition "*" first) (length rest)

content_of : Runtime → Option String → Option Content
unfolding from_segments segments split
content_of r none = some no_content
content_of r (some text) = from_segments r (segments (split "." text))

-- None is the ValueError of `int`
unfoldable pub parse_content : Runtime → Option Cell → Option Content
unfolding content_of clean_text
parse_content r raw = content_of r (clean_text r raw)

abbrev yes_words : List String
yes_words = "si" ∷ "sí" ∷ "yes" ∷ "true" ∷ "1" ∷ []

abbrev no_words : List String
no_words = "no" ∷ "false" ∷ "0" ∷ []

yes_of : Option String → Option Bool
yes_of none = none
yes_of (some text) =
    if mentions yes_words text
    then some true
    else if mentions no_words text
    then some false
    else none

unfoldable pub is_yes : Runtime → Option Cell → Option Bool
unfolding yes_of normalize_text
is_yes r value = yes_of (normalize_text r value)
