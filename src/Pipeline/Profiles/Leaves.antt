-- ===== src/Pipeline/Profiles/Leaves.antt =====
-- The steps of the transforms of pipeline/profiles.py, by the fields that they may write.
use data_effi.Prelude.{
  String, Bool, true, false, Option, some, List, ◌≡◌, refl, ◌∙◌, Bool-cases, inl, inr,
  if◌then◌else◌, str_eq, str_eq_iff, mentions, subst,
}
use data_effi.Prelude.Equality.{string_eq}
use data_effi.Dict.{lookup, insert, lookup-insert}
use data_effi.Pipeline.Normalize.Runtime.{Cell}
use data_effi.Pipeline.Rows.{Fields}

-- A step that leaves all fields but the given ones as they are.
abbrev pub Leaves : List String → (Fields → Fields) → Type 0
Leaves ns step =
    (name : String) (out : Fields)
    → mentions ns name ≡ false
    → lookup name (step out) ≡ lookup name out

never : (b : Bool) → b ≡ true → b ≡ false → ⊥
never b h k = cc

module _ (ns : List String) where
  pub insert-Leaves : (k : String) (v : Option Cell) → mentions ns k ≡ true → Leaves ns (insert k v)
  insert-Leaves k v h name out m = elim (Bool-cases (str_eq k name)) [
    | inl equal ↦
        let same_name : k ≡ name = (str_eq_iff k name).0 equal in
        absurd
          (never (mentions ns name) (subst (λ (x : String). mentions ns x ≡ true) same_name h) m)
    | inr other ↦
        let e : lookup name (insert k v out) ≡ (if str_eq k name then some v else lookup name out) =
          lookup-insert k name v out in
        e ∙ (rw other)
  ]

  pub seq-Leaves : (f g : Fields → Fields) → Leaves ns f → Leaves ns g → Leaves ns (λ o. g (f o))
  seq-Leaves f g hf hg name out m = hg name (f out) m ∙ hf name out m

  pub choose-Leaves :
      (b : Bool) (f g : Fields → Fields)
      → Leaves ns f
      → Leaves ns g
      → Leaves ns (λ o. if b then f o else g o)
  choose-Leaves true f g hf hg = hf
  choose-Leaves false f g hf hg = hg

  pub keep-Leaves : Leaves ns (λ o. o)
  keep-Leaves name out m = refl
