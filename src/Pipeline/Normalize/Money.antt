-- ===== src/Pipeline/Normalize/Money.antt =====
-- The numbers of pipeline/normalize.py: `parse_decimal` and `parse_int`.
--
-- A text is read in any of the ways in which money is written; the positions that the source counts
-- in the text are numbers here as well.
use Prim.Native.Char.{Char, code}
use Prim.Native.String.{[], ◌∷◌, count, ◌++◌}
use data_effi.Prelude.{
  ℕ, zero, suc, ◌+◌, ◌*◌, ◌/◌, ◌^◌, max, String, Bool, true, false, ◌&&◌, ◌||◌, Option, none, some,
  leb, is_blank, take, str_eq, if◌then◌else◌, ◌==◌,
}
use data_effi.Prelude.Int.{ℤ, pos, pos_part, neg_part, sub_ℕ}
use data_effi.Decimal.{Decimal, decimal_neg}
use data_effi.Pipeline.Normalize.Runtime.{Cell, Runtime, str}
use data_effi.Pipeline.Normalize.Text.{strip, filter}

-- c == d
abbrev pub char_eq : Char → Char → Bool
char_eq c d = code c == code d

-- s[n:]
unfoldable pub drop : ℕ → String → String
drop zero s = s
drop (suc n) [] = []
drop (suc n) (c ∷ s) = drop n s

-- s.rfind(c), where None is -1
unfoldable pub rfind : Char → String → Option ℕ
rfind c [] = none
rfind c (d ∷ s) = elim (rfind c s) [
  | some i ↦ some (suc i)
  | none ↦ if char_eq c d then some 0 else none
]

-- s.count(c)
unfoldable pub occurrences : Char → String → ℕ
occurrences c [] = 0
occurrences c (d ∷ s) = (if char_eq c d then 1 else 0) + occurrences c s

-- the last character, s[-1:]
unfoldable pub last : String → String
last [] = []
last (c ∷ s) = if is_blank s then c ∷ [] else last s

-- s[:-1]
unfoldable pub without_last : String → String
without_last [] = []
without_last (c ∷ s) = if is_blank s then [] else c ∷ without_last s

unfoldable pub all_chars : (Char → Bool) → String → Bool
all_chars p [] = true
all_chars p (c ∷ s) = p c && all_chars p s

-- the number that a text of digits spells
unfoldable pub digits_from : Runtime → ℕ → String → ℕ
digits_from r n [] = n
digits_from r n (c ∷ s) = digits_from r (n * 10 + r.digit_value c) s

-- _MONEY_ALLOWED_RE
abbrev is_money : Runtime → Char → Bool
is_money r c = r.is_digit c || char_eq c "," || char_eq c "." || char_eq c "-"

-- _NON_DIGIT_RE.sub("", s)
digits : Runtime → String → String
unfolding filter
digits r s = filter r.is_digit s

-- the branch of one kind of separator: the integer part and the decimal part
one_separator : Runtime → Char → ℕ → String → String × String
unfolding drop occurrences all_chars digits take
one_separator r sep at s =
    let tail = drop (suc at) s in
    if occurrences sep s == 1
      && leb 1 (count tail)
      && leb (count tail) 2
      && all_chars r.is_digit tail
    then (digits r (take at s), tail)
    else (digits r s, "")

-- by the positions of the last point and of the last comma
split_amount : Runtime → Option ℕ → Option ℕ → String → String × String
unfolding one_separator drop digits take
split_amount r (some dot) (some comma) s =
    let at = max dot comma in (digits r (take at s), digits r (drop (suc at) s))
split_amount r (some dot) none s = one_separator r "." dot s
split_amount r none (some comma) s = one_separator r "," comma s
split_amount r none none s = (digits r s, "")

-- Decimal(candidate); both parts are digits, so it is never invalid
spelled : Runtime → String × String → Option Decimal
unfolding digits_from
spelled r (integer_part, decimal_part) =
    if is_blank integer_part && is_blank decimal_part
    then none
    else some (record {
      units = pos (digits_from r 0 (integer_part ++ decimal_part));
      scale = count decimal_part;
    })

signed : Bool → Option Decimal → Option Decimal
unfolding decimal_neg
signed negative none = none
signed negative (some amount) = some (if negative then decimal_neg amount else amount)

-- the text without its sign, and whether it is negative
unsigned : Bool → String → String × Bool
unfolding drop
unsigned negative s = if str_eq (first s) "-" then (drop 1 s, true) else (s, negative)
  where
    first : String → String
    first [] = []
    first (c ∷ s) = c ∷ []

read_amount : Runtime → String × Bool → Option Decimal
unfolding rfind split_amount spelled signed
read_amount r (s, negative) =
    signed negative (spelled r (split_amount r (rfind "." s) (rfind "," s) s))

-- `text in {"-", ".", ","}`
abbrev is_lone_mark : String → Bool
is_lone_mark s = str_eq s "-" || str_eq s "." || str_eq s ","

money_text : Runtime → String × Bool → Option Decimal
unfolding filter read_amount unsigned
money_text r (s, negative) =
    let kept = filter (is_money r) s in
    if is_blank kept || is_lone_mark kept then none else read_amount r (unsigned negative kept)

-- brackets around a text make it negative
unbracketed : String → String × Bool
unfolding last without_last drop take
unbracketed s =
    if str_eq (take 1 s) "(" && str_eq (last s) ")"
    then (without_last (drop 1 s), true)
    else (s, false)

unfoldable pub parse_money_text : Runtime → String → Option Decimal
unfolding strip unbracketed money_text
parse_money_text r s =
    let trimmed = strip s in if is_blank trimmed then none else money_text r (unbracketed trimmed)

unfoldable pub parse_decimal : Runtime → Option Cell → Option Decimal
unfolding parse_money_text str
parse_decimal r none = none
parse_decimal r (some (Cell.decimal d)) = some d
parse_decimal r (some (Cell.bool b)) = none
parse_decimal r (some (Cell.integer n)) = some (record { units = n; scale = 0 })
parse_decimal r (some (Cell.float d)) = some d
parse_decimal r (some (Cell.text s)) = parse_money_text r s
parse_decimal r (some (Cell.date d)) = parse_money_text r (str r (Cell.date d))
parse_decimal r (some (Cell.timestamp t)) = parse_money_text r (str r (Cell.timestamp t))
parse_decimal r (some (Cell.other n)) = parse_money_text r (str r (Cell.other n))

-- int(d) rounds towards zero
abbrev pub truncated : Decimal → ℤ
truncated d = sub_ℕ (pos_part d.units / 10 ^ d.scale) (neg_part d.units / 10 ^ d.scale)

unfoldable pub parse_int : Runtime → Option Cell → Option ℤ → Option ℤ
unfolding parse_decimal
parse_int r value default = elim (parse_decimal r value) [
  | none ↦ default
  | some d ↦ some (truncated d)
]
