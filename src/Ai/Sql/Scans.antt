-- ===== src/Ai/Sql/Scans.antt =====
-- The regular expressions of `validate_sql` of ai/nl2sql.py, as scans of a text.
--
-- `is_word` is the class `\w` of re. A word of the two lists starts and ends with a letter, so that
-- `\b` before it asks that no character of the class is before it, and likewise after it.
use Prim.Native.Char.{Char}
use data_effi.Prelude.{Bool, true, false, not, ◌&&◌, ◌||◌, String, is_blank, if◌then◌else◌}
use data_effi.Pipeline.Normalize.Runtime.{is_space}
use data_effi.Pipeline.Normalize.Text.{lstrip}
use data_effi.Pipeline.Normalize.Money.{char_eq}

-- the text goes on with a `(`
abbrev opens_call : String → Bool
opens_call String.[] = false
opens_call (String.◌∷◌ c s) = char_eq c "("

abbrev ends_word : (Char → Bool) → String → Bool
ends_word is_word String.[] = true
ends_word is_word (String.◌∷◌ c s) = not (is_word c)

-- the text goes on with the word, and what is after it passes a test
word_then : (String → Bool) → String → String → Bool
word_then test s String.[] = test s
word_then test String.[] (String.◌∷◌ d w) = false
word_then test (String.◌∷◌ c s) (String.◌∷◌ d w) = char_eq c d && word_then test s w

-- the word stands in the text, after no character of the class, and the test holds after it
has_word : (Char → Bool) → (String → Bool) → String → Bool → String → Bool
unfolding word_then
has_word is_word test word after_word String.[] = false
has_word is_word test word after_word (String.◌∷◌ c s) =
    (not after_word && word_then test (String.◌∷◌ c s) word)
    || has_word is_word test word (is_word c) s

-- re.search(rf"\b{word}\s*\(", s)
unfoldable pub calls : (Char → Bool) → String → String → Bool
unfolding has_word lstrip is_space
calls is_word s word = has_word is_word (λ rest. opens_call (lstrip rest)) word false s

-- re.search(rf"\b{word}\b", s)
unfoldable pub names : (Char → Bool) → String → String → Bool
unfolding has_word
names is_word s word = has_word is_word (ends_word is_word) word false s

-- s.rstrip(";")
unfoldable pub rstrip_semicolons : String → String
rstrip_semicolons String.[] = String.[]
rstrip_semicolons (String.◌∷◌ c s) =
    let rest = rstrip_semicolons s in
    if char_eq c ";" && is_blank rest then String.[] else String.◌∷◌ c rest

-- ";" in s
unfoldable pub has_semicolon : String → Bool
has_semicolon String.[] = false
has_semicolon (String.◌∷◌ c s) = char_eq c ";" || has_semicolon s
