-- ===== src/Ai/Sql/Fence.antt =====
-- `_strip_markdown_fence` of ai/nl2sql.py: what stands inside the first fence of a text.
--
-- The expression is three backticks, an optional `sql`, blanks, a text that is not empty and three
-- backticks. The language and the blanks are taken whenever the rest then matches, as many blanks as
-- can be, and the text is as short as can be. If the first three backticks start no match, no later
-- ones do.
use Prim.Native.Char.{Char, code}
use data_effi.Prelude.{
  Bool, ◌&&◌, ◌||◌, String, Option, none, some, ◌==◌, if◌then◌else◌, or_else, is_some,
}
use data_effi.Pipeline.Normalize.Runtime.{is_space}
use data_effi.Pipeline.Normalize.Money.{char_eq}
use data_effi.Pipeline.Readers.Html.{folded}

-- the text after three backticks that it starts with
fence : String → Option String
fence (String.◌∷◌ a (String.◌∷◌ b (String.◌∷◌ c s))) =
    if char_eq a "`" && char_eq b "`" && char_eq c "`" then some s else none
fence s = none

-- the text after the first three backticks
after_fence : String → Option String
unfolding fence
after_fence String.[] = none
after_fence (String.◌∷◌ c s) = or_else (fence (String.◌∷◌ c s)) (after_fence s)

abbrev cons_some : Char → Option String → Option String
cons_some c none = none
cons_some c (some s) = some (String.◌∷◌ c s)

-- the text before the first three backticks
until_fence : String → Option String
unfolding fence
until_fence String.[] = none
until_fence (String.◌∷◌ c s) =
    if is_some (fence (String.◌∷◌ c s)) then some "" else cons_some c (until_fence s)

-- (.+?)```
body : String → Option String
unfolding until_fence
body String.[] = none
body (String.◌∷◌ c s) = cons_some c (until_fence s)

-- \s*(.+?)```
spaced_body : String → Option String
unfolding body is_space
spaced_body String.[] = none
spaced_body (String.◌∷◌ c s) =
    let here = body (String.◌∷◌ c s) in if is_space c then or_else (spaced_body s) here else here

-- an s of re.IGNORECASE, the long one included
abbrev is_s : Char → Bool
is_s c = folded c == 115 || code c == 383

abbrev after_sql : String → Option String
after_sql (String.◌∷◌ a (String.◌∷◌ b (String.◌∷◌ c s))) =
    if is_s a && folded b == 113 && folded c == 108 then some s else none
after_sql s = none

abbrev with_language : Option String → Option String
with_language none = none
with_language (some rest) = spaced_body rest

-- (?:sql)?\s*(.+?)```
fenced : String → Option String
unfolding spaced_body
fenced s = or_else (with_language (after_sql s)) (spaced_body s)

abbrev inside : Option String → Option String
inside none = none
inside (some rest) = fenced rest

abbrev or_text : String → Option String → String
or_text text none = text
or_text text (some s) = s

-- _strip_markdown_fence
unfoldable pub strip_markdown_fence : String → String
unfolding fenced after_fence
strip_markdown_fence text = or_text text (inside (after_fence text))
