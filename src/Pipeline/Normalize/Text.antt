-- ===== src/Pipeline/Normalize/Text.antt =====
-- The text functions of pipeline/normalize.py: `normalize_text` and `clean_text`, and the methods
-- of `str` and `re` that they call.
use Prim.Native.Char.{Char}
use Prim.Native.String.{[], ◌∷◌}
use data_effi.Prelude.{String, Bool, false, not, ◌&&◌, Option, none, some, is_blank, if◌then◌else◌}
use data_effi.Pipeline.Normalize.Runtime.{Cell, Runtime, str, is_space}

-- s.lstrip()
unfoldable pub lstrip : String → String
lstrip [] = []
lstrip (c ∷ s) = if is_space c then lstrip s else c ∷ s

-- s.rstrip()
unfoldable pub rstrip : String → String
rstrip [] = []
rstrip (c ∷ s) = let rest = rstrip s in if is_space c && is_blank rest then [] else c ∷ rest

-- s.strip()
unfoldable pub strip : String → String
unfolding lstrip rstrip
strip s = rstrip (lstrip s)

-- "".join(ch for ch in s if keep(ch))
unfoldable pub filter : (Char → Bool) → String → String
filter keep [] = []
filter keep (c ∷ s) = let rest = filter keep s in if keep c then c ∷ rest else rest

abbrev space : Char
space = " "

-- `in_run` tells that the character before was a space
collapse_from : Bool → String → String
collapse_from in_run [] = []
collapse_from in_run (c ∷ s) =
    let rest = collapse_from (is_space c) s in
    if is_space c then (if in_run then rest else space ∷ rest) else c ∷ rest

-- re.sub(r"\s+", " ", s)
unfoldable pub collapse : String → String
unfolding collapse_from
collapse s = collapse_from false s

-- s or None
unfoldable pub or_none : String → Option String
or_none s = if is_blank s then none else some s

unfoldable pub normalize_text : Runtime → Option Cell → Option String
unfolding str strip filter collapse or_none
normalize_text r none = none
normalize_text r (some value) =
    let trimmed = strip (str r value) in
    if is_blank trimmed
    then none
    else let stripped = filter (λ c. not (r.is_combining c)) (r.nfkd trimmed) in
      or_none (r.lower (strip (collapse stripped)))

unfoldable pub clean_text : Runtime → Option Cell → Option String
unfolding str strip collapse or_none
clean_text r none = none
clean_text r (some value) = or_none (strip (collapse (str r value)))
