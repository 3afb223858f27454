-- ===== src/Ai/Sql/Answers.antt =====
-- When none of the tests of `validate_sql` of ai/nl2sql.py answers.
use data_effi.Prelude.{
  Bool, true, false, not, String, Option, none, some, List, [], ◌∷◌, all, ◌≡◌, refl, sym, ◌↔◌, inl,
  inr, Bool-cases, none_ne_some,
}
use data_effi.Ai.Sql.Parser.{Node}
use data_effi.Ai.Sql.Guard.{Reason, first_answer, answer_of, when}

-- The tests of a list that answer for none of its members.
pub first_answer_iff :
    {A : Type 0} (test : A → Bool) (reason : A → Reason) (xs : List A)
    → (first_answer test reason xs ≡ none) ↔ (all (λ a. not (test a)) xs ≡ true)
unfolding first_answer
first_answer_iff test reason [] = (λ h. refl, λ h. refl)
first_answer_iff test reason (x ∷ xs) = elim (Bool-cases (test x)) [
  | inl hit ↦ rw hit (λ h. absurd (none_ne_some (sym h)), λ h. cc)
  | inr miss ↦ rw miss (first_answer_iff test reason xs)
]

pub when_iff : (b : Bool) (reason : Reason) → (when b reason ≡ none) ↔ (b ≡ false)
when_iff true reason = (λ h. absurd (none_ne_some (sym h)), λ h. cc)
when_iff false reason = (λ h. refl, λ h. refl)

answer_of_iff :
    (o : Option Reason) (rest : List (Option Reason))
    → (answer_of (o ∷ rest) ≡ none) ↔ ((o ≡ none) × (answer_of rest ≡ none))
unfolding answer_of
answer_of_iff none rest = (λ h. (refl, h), λ h. h.1)
answer_of_iff (some reason) rest =
    (λ h. absurd (none_ne_some (sym h)), λ h. absurd (none_ne_some (sym h.0)))

-- Four tests one after the other.
four_iff :
    (a b c d : Option Reason)
    → (answer_of (a ∷ b ∷ c ∷ d ∷ []) ≡ none) ↔ ((a ≡ none) × (b ≡ none) × (c ≡ none) × (d ≡ none))
unfolding answer_of
four_iff a b c d = (
  λ h.
      let h1 = (answer_of_iff a (b ∷ c ∷ d ∷ [])).0 h in
      let h2 = (answer_of_iff b (c ∷ d ∷ [])).0 h1.1 in
      let h3 = (answer_of_iff c (d ∷ [])).0 h2.1 in
      (h1.0, h2.0, h3.0, ((answer_of_iff d []).0 h3.1).0),
  λ h. (answer_of_iff a (b ∷ c ∷ d ∷ [])).1 (
    h.0,
    (answer_of_iff b (c ∷ d ∷ [])).1
        (h.1, (answer_of_iff c (d ∷ [])).1 (h.2, (answer_of_iff d []).1 (h.3, refl))),
  ),
)

-- The four tests on a statement, and the four on its words.
pub statement_iff :
    (select into locks : Bool) (test : Node → Bool) (nodes : List Node) (reason : Node → Reason)
    (s i l : Reason)
    → (answer_of
          (when (not select) s ∷ first_answer test reason nodes ∷ when into i ∷ when locks l ∷ [])
        ≡ none)
      ↔ ((not select ≡ false)
          × (all (λ node. not (test node)) nodes ≡ true)
          × (into ≡ false)
          × (locks ≡ false))
statement_iff select into locks test nodes reason s i l =
    let four =
      four_iff (when (not select) s) (first_answer test reason nodes) (when into i)
        (when locks l) in
    (
      λ h.
          let g = four.0 h in
          (
            (when_iff (not select) s).0 g.0,
            (first_answer_iff test reason nodes).0 g.1,
            (when_iff into i).0 g.2,
            (when_iff locks l).0 g.3,
          ),
      λ g. four.1 (
        (when_iff (not select) s).1 g.0,
        (first_answer_iff test reason nodes).1 g.1,
        (when_iff into i).1 g.2,
        (when_iff locks l).1 g.3,
      ),
    )

pub words_iff :
    (nothing : Bool) (f g h : String → Bool) (fs gs hs : List String) (a b c : String → Reason)
    (n : Reason)
    → (answer_of
          (when nothing n ∷ first_answer f a fs ∷ first_answer g b gs ∷ first_answer h c hs ∷ [])
        ≡ none)
      ↔ ((nothing ≡ false)
          × (all (λ w. not (f w)) fs ≡ true)
          × (all (λ w. not (g w)) gs ≡ true)
          × (all (λ w. not (h w)) hs ≡ true))
words_iff nothing f g h fs gs hs a b c n =
    let four =
      four_iff (when nothing n) (first_answer f a fs) (first_answer g b gs) (first_answer h c hs) in
    (
      λ e.
          let k = four.0 e in
          (
            (when_iff nothing n).0 k.0,
            (first_answer_iff f a fs).0 k.1,
            (first_answer_iff g b gs).0 k.2,
            (first_answer_iff h c hs).0 k.3,
          ),
      λ k. four.1 (
        (when_iff nothing n).1 k.0,
        (first_answer_iff f a fs).1 k.1,
        (first_answer_iff g b gs).1 k.2,
        (first_answer_iff h c hs).1 k.3,
      ),
    )

pub pair_iff :
    (b c : Bool) (n m : Reason)
    → (answer_of (when b n ∷ when c m ∷ []) ≡ none) ↔ ((b ≡ false) × (c ≡ false))
unfolding answer_of
pair_iff true c n m = (λ h. absurd (none_ne_some (sym h)), λ h. cc)
pair_iff false true n m = (λ h. absurd (none_ne_some (sym h)), λ h. cc)
pair_iff false false n m = (λ h. (refl, refl), λ h. refl)
