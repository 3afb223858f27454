-- ===== src/Pipeline/Mapping/Resolve/Ladder.antt =====
-- The status that `resolve_status` of pipeline/mapping.py returns stands in STATUS_CANON.
use data_effi.Prelude.{
  String, Bool, true, false, Option, none, some, ◌≡◌, refl, sym, ap, is_some, Option-cases,
  Bool-cases, inl, inr, subst,
}
use data_effi.Prelude.Equality.{string_eq}
use data_effi.Dict.{lookup, checks, checks-lookup}
use data_effi.Pipeline.Normalize.Runtime.{Cell, Runtime}
use data_effi.Pipeline.Normalize.Text.{normalize_text}
use data_effi.Pipeline.Mapping.Status.{canon}
use data_effi.Pipeline.Mapping.Aliases.{status_aliases, default_status}
use data_effi.Pipeline.Mapping.Resolve.{status_of_key, resolve_status}
use data_effi.Pipeline.Mapping.Resolve.Longest.{
  Recognised, resolve_status-Recognised, resolve_status-default,
}

-- the codes of the table are on the ladder
aliases_on_ladder : checks (λ alias code. is_some (canon code)) status_aliases ≡ true
unfolding canon lookup
aliases_on_ladder = refl

on_ladder :
    (alias code : String) → lookup alias status_aliases ≡ some code → is_some (canon code) ≡ true
on_ladder alias code listed =
    checks-lookup (λ alias code. is_some (canon code)) status_aliases alias code aliases_on_ladder
      listed

Recognised-ladder : {key code : String} → Recognised key code → is_some (canon code) ≡ true
Recognised-ladder {key} {code} (Recognised.exact listed) = on_ladder key code listed
Recognised-ladder {key} {code} (Recognised.decorated alias listed fits longest) =
    on_ladder alias code listed

default_on_ladder : is_some (canon default_status) ≡ true
unfolding canon lookup
default_on_ladder = refl

no_text-unrecognised :
    (r : Runtime) (raw : Option Cell)
    → normalize_text r raw ≡ none
    → (resolve_status r raw).1 ≡ true
    → ⊥
unfolding resolve_status status_of_key
no_text-unrecognised r raw no_text recognized =
    let made : (resolve_status r raw).1 ≡ false = rw no_text in cc (made, recognized)

-- The code that resolve_status returns, recognised or not, is in STATUS_CANON.
pub resolve_status-ladder :
    (r : Runtime) (raw : Option Cell) → is_some (canon (resolve_status r raw).0) ≡ true
resolve_status-ladder r raw = elim (Bool-cases (resolve_status r raw).1) [
  | inl recognized ↦ elim (Option-cases (normalize_text r raw)) [
    | inl no_text ↦ absurd (no_text-unrecognised r raw no_text recognized)
    | inr (key, text) ↦ Recognised-ladder (
        resolve_status-Recognised r raw key (resolve_status r raw).0 text
          (ap (λ (b : Bool). ((resolve_status r raw).0, b)) recognized))
  ]
  | inr guessed ↦
      let (is_default, _) =
        resolve_status-default r raw (resolve_status r raw).0
          (ap (λ (b : Bool). ((resolve_status r raw).0, b)) guessed) in
      subst (λ (c : String). is_some (canon c) ≡ true) (sym is_default) default_on_ladder
]
