-- ===== src/Pipeline/Mapping/Resolve.antt =====
-- `resolve_status` of pipeline/mapping.py: from the text of a file to a status of the ladder.
pub mod Longest
pub mod Ladder
use Prim.Native.String.{count, ◌++◌}
use text.Mathlib.Text.{starts_with}
use data_effi.Prelude.{
  ℕ, ◌≤◌, String, Bool, true, false, not, ◌&&◌, ◌||◌, Option, none, some, List, [], ◌∷◌, foldl, ltb,
  leb, ◌≡◌, refl, sym, ◌∙◌, ap, arith, is_some, Option-cases, Bool-cases, inl, inr, ◌⊎◌, str_eq,
  str_eq_iff, leb→le, if◌then◌else◌, subst, some_inj, all,
}
use data_effi.Prelude.Equality.{string_eq}
use data_effi.Dict.{Dict, lookup, checks, checks-lookup}
use data_effi.Pipeline.Normalize.Runtime.{Cell, Runtime}
use data_effi.Pipeline.Normalize.Text.{normalize_text}
use data_effi.Pipeline.Mapping.Status.{CanonStatus, canon}
use data_effi.Pipeline.Mapping.Aliases.{status_aliases, default_status}

-- sorted(…, key=len, reverse=True), which is stable, on the items of the table
abbrev insert_longest : String × String → Dict String String → Dict String String
insert_longest e [] = e ∷ []
insert_longest e (f ∷ fs) =
    if ltb (count f.0) (count e.0) then e ∷ f ∷ fs else f ∷ insert_longest e fs

abbrev longest_first : Dict String String → Dict String String
longest_first d = foldl (λ sorted e. insert_longest e sorted) [] d

-- _ALIASES_LONGEST_FIRST, each alias with its code
abbrev aliases_longest_first : Dict String String
aliases_longest_first = longest_first status_aliases

-- the test of the loop
abbrev pub decorates : String → String → Bool
decorates key alias =
    starts_with key (alias ++ " ")
    || starts_with key (alias ++ "-")
    || starts_with key (alias ++ "(")

first_decorated : String → Dict String String → String × Bool
first_decorated key [] = (default_status, false)
first_decorated key ((alias, code) ∷ d) =
    if decorates key alias then (code, true) else first_decorated key d

-- no code of the table is empty
status_by_alias : String → Option String → String × Bool
unfolding first_decorated
status_by_alias key (some code) = (code, true)
status_by_alias key none = first_decorated key aliases_longest_first

status_of_key : Option String → String × Bool
unfolding status_by_alias lookup
status_of_key none = (default_status, false)
status_of_key (some key) = status_by_alias key (lookup key status_aliases)

unfoldable pub resolve_status : Runtime → Option Cell → String × Bool
unfolding status_of_key
resolve_status r raw = status_of_key (normalize_text r raw)
