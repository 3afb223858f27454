-- ===== src/Pipeline/Normalize/Runtime.antt =====
-- What pipeline/normalize.py takes from the Python runtime: the values that a cell of a file may
-- hold, `str`, the whitespace characters and the Unicode database.
use Prim.Native.Char.{Char, code}
use data_effi.Prelude.{ℕ, String, Bool, Option, ◌&&◌, ◌||◌, leb, ◌==◌}
use data_effi.Prelude.Int.{ℤ}
use data_effi.Decimal.{Decimal}

-- A cell that is not None. A float is finite, and held as the decimal that its `str` spells; a date
-- is its day number, a datetime its microseconds. `other` is any other object, of which the code
-- only asks `str`.
pub data Cell : Type 0 where
  text : String → Cell
  decimal : Decimal → Cell
  integer : ℤ → Cell
  float : Decimal → Cell
  bool : Bool → Cell
  date : ℕ → Cell
  timestamp : ℕ → Cell
  other : ℕ → Cell

-- `show` is `str` of a value that is no text, `strptime` is `datetime.strptime` with None for its
-- ValueError, `sha256` is the hexadecimal digest; the others are the Unicode database's. A character
-- is_digit if `\d` matches it and is_digit_like if `str.isdigit` holds, as it does of a superscript.
pub record Runtime : Type 0 where
  pub show : Cell → String
  pub nfkd : String → String
  pub is_combining : Char → Bool
  pub is_digit : Char → Bool
  pub is_digit_like : Char → Bool
  pub digit_value : Char → ℕ
  pub is_alpha : Char → Bool
  pub lower : String → String
  pub upper : String → String
  pub strptime : String → String → Option ℕ
  pub sha256 : String → String

-- str(value)
unfoldable pub str : Runtime → Cell → String
str r (text s) = s
str r (decimal d) = r.show (decimal d)
str r (integer n) = r.show (integer n)
str r (float n) = r.show (float n)
str r (bool b) = r.show (bool b)
str r (date d) = r.show (date d)
str r (timestamp t) = r.show (timestamp t)
str r (other n) = r.show (other n)

-- `str.isspace`, which is also what `\s` matches
unfoldable pub is_space : Char → Bool
is_space c =
    (leb 9 n && leb n 13)
    || (leb 28 n && leb n 32)
    || n == 133
    || n == 160
    || n == 5760
    || (leb 8192 n && leb n 8202)
    || n == 8232
    || n == 8233
    || n == 8239
    || n == 8287
    || n == 12288
  where
    n : ℕ
    n = code c
