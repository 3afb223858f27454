-- ===== src/Pipeline/Mapping/Resolve/Longest.antt =====
-- How `resolve_status` of pipeline/mapping.py recognises a text: by a longest alias of the table.
use Prim.Native.String.{count}
use data_effi.Prelude.{
  ◌≤◌, String, Bool, true, false, not, ◌&&◌, ◌||◌, Option, none, some, [], ◌∷◌, leb, ◌≡◌, refl, sym,
  ◌∙◌, ap, arith, is_some, Option-cases, Bool-cases, inl, inr, str_eq, str_eq_iff, leb→le, subst,
  some_inj,
}
use data_effi.Prelude.Equality.{string_eq}
use data_effi.Dict.{Dict, lookup, checks, checks-lookup}
use data_effi.Pipeline.Normalize.Runtime.{Cell, Runtime}
use data_effi.Pipeline.Normalize.Text.{normalize_text}
use data_effi.Pipeline.Mapping.Aliases.{status_aliases, default_status}
use data_effi.Pipeline.Mapping.Resolve.{
  aliases_longest_first, decorates, first_decorated, status_by_alias, status_of_key, resolve_status,
}

-- the sorted table has the items of the table, each before the shorter ones
abbrev has_code : String → Option String → Bool
has_code code none = false
has_code code (some c) = str_eq c code

abbrev is_sorted : Dict String String → Bool
is_sorted [] = true
is_sorted (e ∷ d) = checks (λ alias code. leb (count alias) (count e.0)) d && is_sorted d

sorted_from_table :
    checks (λ alias code. has_code code (lookup alias status_aliases)) aliases_longest_first ≡ true
unfolding lookup
sorted_from_table = refl

table_in_sorted :
    checks (λ alias code. is_some (lookup alias aliases_longest_first)) status_aliases ≡ true
unfolding lookup
table_in_sorted = refl

sorted_by_length : is_sorted aliases_longest_first ≡ true
sorted_by_length = refl

checks_mono :
    (p q : String → String → Bool) (d : Dict String String)
    → ((a c : String) → p a c ≡ true → q a c ≡ true)
    → checks p d ≡ true
    → checks q d ≡ true
checks_mono p q [] step h = refl
checks_mono p q ((a, c) ∷ d) step h = ground (arith, step a c, checks_mono p q d step)

-- no alias of the table that decorates the key is longer
abbrev no_longer : String → String → String → String → Bool
no_longer key alias other code = not (decorates key other) || leb (count other) (count alias)

-- In a sorted table the first alias that decorates a key is a longest one.
first_decorated-longest :
    (key code : String) (d : Dict String String)
    → is_sorted d ≡ true
    → first_decorated key d ≡ (code, true)
    → (alias : String) × (decorates key alias ≡ true)
      × (checks (no_longer key alias) d ≡ true)
      × ((p : String → String → Bool) → checks p d ≡ true → p alias code ≡ true)
unfolding first_decorated
first_decorated-longest key code [] sorted h = ground arith
first_decorated-longest key code ((a, c) ∷ d) sorted h = elim (Bool-cases (decorates key a)) [
  | inl here ↦
      let same_code : c ≡ code = ground arith in
      let shorter : checks (λ (b e : String). leb (count b) (count a)) d ≡ true = ground arith in
      (
        a,
        here,
        ground (
          arith,
          checks_mono (λ (b e : String). leb (count b) (count a)) (no_longer key a) d
              (λ b e. ground arith) shorter,
        ),
        λ p holds. subst (λ (x : String). p a x ≡ true) same_code (ground arith),
      )
  | inr there ↦
      let (alias, found, longest, among) =
        first_decorated-longest key code d (ground arith) (rw there at h) in
      (alias, found, ground arith, λ p holds. among p (ground arith))
]

-- Where none decorates the key, the status is the default one.
first_decorated-none :
    (key code : String) (d : Dict String String)
    → first_decorated key d ≡ (code, false)
    → (code ≡ default_status) × (checks (λ alias c. not (decorates key alias)) d ≡ true)
unfolding first_decorated
first_decorated-none key code [] h = ground arith
first_decorated-none key code ((a, c) ∷ d) h = ground (arith, first_decorated-none key code d)

has_code-true : (code : String) (o : Option String) → has_code code o ≡ true → o ≡ some code
has_code-true code none h = cc
has_code-true code (some c) h = ap some ((str_eq_iff c code).0 h)

-- What holds of the sorted items holds of the table's.
in_table :
    (p : String → Bool) (other code : String)
    → checks (λ alias c. p alias) aliases_longest_first ≡ true
    → lookup other status_aliases ≡ some code
    → p other ≡ true
in_table p other code h found = elim (Option-cases (lookup other aliases_longest_first)) [
  | inl lost ↦
      let there =
        checks-lookup (λ alias c. is_some (lookup alias aliases_longest_first)) status_aliases other
          code table_in_sorted found in
      cc (lost, there)
  | inr (c, listed) ↦ checks-lookup (λ alias c. p alias) aliases_longest_first other c h listed
]

-- `code` is what the table has for the key, or for a longest alias that decorates it.
pub data Recognised (key code : String) : Type 0 where
  exact : lookup key status_aliases ≡ some code → Recognised key code
  decorated :
      (alias : String)
      → lookup alias status_aliases ≡ some code
      → decorates key alias ≡ true
      → ((other c : String)
          → lookup other status_aliases ≡ some c
          → decorates key other ≡ true
          → count other ≤ count alias)
      → Recognised key code

-- If resolve_status recognises a text that is normalised to a key, the code is what STATUS_ALIASES
-- has for the key, or for an alias that decorates the key and than which no alias that decorates
-- it is longer.
pub resolve_status-Recognised :
    (r : Runtime) (raw : Option Cell) (key code : String)
    → normalize_text r raw ≡ some key
    → resolve_status r raw ≡ (code, true)
    → Recognised key code
unfolding resolve_status status_of_key status_by_alias
resolve_status-Recognised r raw key code text h = elim (Option-cases (lookup key status_aliases)) [
  | inl no_alias ↦
      let (alias, found, longest, among) =
        first_decorated-longest key code aliases_longest_first sorted_by_length
          (rw (text, no_alias) at h) in
      Recognised.decorated alias
        (has_code-true code (lookup alias status_aliases)
          (among (λ a c. has_code c (lookup a status_aliases)) sorted_from_table))
        found
        (λ other c listed fits.
          let short =
            in_table (λ o. not (decorates key o) || leb (count o) (count alias)) other c longest
              listed in
          leb→le (count other) (count alias) (ground arith))
  | inr (c, alias) ↦
      let made : resolve_status r raw ≡ (c, true) = rw (text, alias) in
      let same_code : c ≡ code = ap (λ (q : String × Bool). q.0) (sym made ∙ h) in
      Recognised.exact (alias ∙ ap some same_code)
]

other_alias :
    (key alias c : String)
    → lookup key status_aliases ≡ none
    → lookup alias status_aliases ≡ some c
    → not (decorates key alias) ≡ true
    → (str_eq key alias || decorates key alias) ≡ false
other_alias key alias c absent listed fits_not = elim (Bool-cases (str_eq key alias)) [
  | inl equal ↦
      let there =
        subst (λ (x : String). lookup x status_aliases ≡ none) ((str_eq_iff key alias).0 equal)
          absent in
      cc (there, listed)
  | inr other ↦ ground arith
]

-- If resolve_status does not recognise a text, the code is the default status, and no alias is the
-- normalised text or decorates it.
pub resolve_status-default :
    (r : Runtime) (raw : Option Cell) (code : String)
    → resolve_status r raw ≡ (code, false)
    → (code ≡ default_status)
      × ((key alias c : String)
          → normalize_text r raw ≡ some key
          → lookup alias status_aliases ≡ some c
          → (str_eq key alias || decorates key alias) ≡ false)
unfolding resolve_status status_of_key status_by_alias
resolve_status-default r raw code h = elim (Option-cases (normalize_text r raw)) [
  | inl no_text ↦
      let made : resolve_status r raw ≡ (default_status, false) = rw no_text in
      (ap (λ (q : String × Bool). q.0) (sym h ∙ made), λ key alias c text listed. cc)
  | inr (k, text) ↦ elim (Option-cases (lookup k status_aliases)) [
    | inl no_alias ↦
        let (is_default, none_fits) =
          first_decorated-none k code aliases_longest_first (rw (text, no_alias) at h) in
        (
          is_default,
          λ key alias c same_text listed.
              let same_key : k ≡ key = some_inj (sym text ∙ same_text) in
              let fits_not = in_table (λ o. not (decorates k o)) alias c none_fits listed in
              subst (λ (x : String). (str_eq x alias || decorates x alias) ≡ false) same_key
                (other_alias k alias c no_alias listed fits_not),
        )
    | inr (c, alias) ↦
        let made : resolve_status r raw ≡ (c, true) = rw (text, alias) in cc (sym h ∙ made)
  ]
]
