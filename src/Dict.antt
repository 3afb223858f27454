-- ===== src/Dict.antt =====
-- Python's `dict`: an association list in insertion order, whose keys are compared by `==`.
use mathlib.Core.Option
use data_effi.Prelude.{
  ◌≡◌, refl, sym, subst, some_inj, Bool-cases, inl, inr, Option, none, some, List, [], ◌∷◌, arith,
  if◌then◌else◌, is_some, Bool, length, suc, ◌&&◌,
}
use data_effi.Prelude.Equality.{Eq, same, same_refl}

abbrev pub Dict {ℓ κ} : Type ℓ → Type κ → Type (ℓ ⊔ κ)
Dict K V = List (K × V)

module _ {ℓ κ} {K : Type ℓ} {V : Type κ} ⦃e : Eq K⦄ where
  -- d.get(k)
  unfoldable pub lookup : K → Dict K V → Option V
  lookup k [] = none
  lookup k ((j, v) ∷ d) = if same j k then some v else lookup k d

  -- k in d
  abbrev pub has_key : K → Dict K V → Bool
  has_key k d = is_some (lookup k d)

  -- d[k] = v keeps the place of a key that is there
  unfoldable pub insert : K → V → Dict K V → Dict K V
  insert k v [] = (k, v) ∷ []
  insert k v ((j, w) ∷ d) = if same j k then (j, v) ∷ d else (j, w) ∷ insert k v d

  -- a loop over `d.items()` that changes the values in place
  unfoldable pub map_values : (K → V → V) → Dict K V → Dict K V
  map_values f [] = []
  map_values f ((j, v) ∷ d) = (j, f j v) ∷ map_values f d

  -- the first key, in insertion order, whose item passes the test
  unfoldable pub find_key : (K → V → Bool) → Dict K V → Option K
  find_key p [] = none
  find_key p ((j, v) ∷ d) = if p j v then some j else find_key p d

  pub lookup-insert :
      (k j : K) (v : V) (d : Dict K V)
      → lookup j (insert k v d) ≡ (if same k j then some v else lookup j d)
  unfolding lookup insert
  lookup-insert k j v [] = refl
  lookup-insert k j v ((i, w) ∷ d) =
      ground (arith, e.beq_iff k j, e.beq_iff i k, e.beq_iff i j, lookup-insert k j v d)

  pub lookup-insert_self : (k : K) (v : V) (d : Dict K V) → lookup k (insert k v d) ≡ some v
  lookup-insert_self k v d = ground (arith, lookup-insert k k v d, same_refl k)

  pub length-insert_new :
      (k : K) (v : V) (d : Dict K V) → lookup k d ≡ none → length (insert k v d) ≡ suc (length d)
  unfolding lookup insert
  length-insert_new k v [] h = refl
  length-insert_new k v ((j, w) ∷ d) h = ground (arith, length-insert_new k v d)

  pub lookup-map_values :
      (f : K → V → V) (k : K) (d : Dict K V)
      → lookup k (map_values f d) ≡ Option.map (f k) (lookup k d)
  unfolding lookup map_values
  lookup-map_values f k [] = refl
  lookup-map_values f k ((j, v) ∷ d) = ground (arith, e.beq_iff j k, lookup-map_values f k d)

  -- A property of every item of a dictionary.
  abbrev pub All {π} : (K → V → Type π) → Dict K V → Type π
  All P [] = Unit
  All P ((k, v) ∷ d) = P k v × All P d

  pub All-lookup {π} :
      (P : K → V → Type π) (d : Dict K V) (k : K) (v : V) → All P d → lookup k d ≡ some v → P k v
  unfolding lookup
  All-lookup P [] k v h found = cc
  All-lookup P ((j, w) ∷ d) k v h found = elim (Bool-cases (same j k)) [
    | inl here ↦
        let at : j ≡ k = (e.beq_iff j k).0 here in
        let is_v : w ≡ v = some_inj (rw here at found) in
        subst (λ (x : K). P x v) at (subst (λ (x : V). P j x) is_v h.0)
    | inr later ↦ All-lookup P d k v h.1 (rw later at found)
  ]

  -- A test of every item of a dictionary.
  abbrev pub checks : (K → V → Bool) → Dict K V → Bool
  checks p [] = Bool.true
  checks p ((k, v) ∷ d) = p k v && checks p d

  pub checks-lookup :
      (p : K → V → Bool) (d : Dict K V) (k : K) (v : V)
      → checks p d ≡ Bool.true
      → lookup k d ≡ some v
      → p k v ≡ Bool.true
  unfolding lookup
  checks-lookup p [] k v h found = cc
  checks-lookup p ((j, w) ∷ d) k v h found = ground (arith, e.beq_iff j k, checks-lookup p d k v)

  pub All-insert {π} :
      (P : K → V → Type π) (d : Dict K V) (k : K) (v : V) → All P d → P k v → All P (insert k v d)
  unfolding insert
  All-insert P [] k v h p = (p, tt)
  All-insert P ((j, w) ∷ d) k v h p = elim (Bool-cases (same j k)) [
    | inl here ↦ rw here (subst (λ (x : K). P x v) (sym ((e.beq_iff j k).0 here)) p, h.1)
    | inr later ↦ rw later (h.0, All-insert P d k v h.1 p)
  ]

  pub All-map_values {π} :
      (P Q : K → V → Type π) (f : K → V → V) (d : Dict K V)
      → ((k : K) (v : V) → P k v → Q k (f k v))
      → All P d
      → All Q (map_values f d)
  unfolding map_values
  All-map_values P Q f [] step h = tt
  All-map_values P Q f ((k, v) ∷ d) step h = (step k v h.0, All-map_values P Q f d step h.1)

  pub All-mono {π} :
      (P Q : K → V → Type π) (d : Dict K V) → ((k : K) (v : V) → P k v → Q k v) → All P d → All Q d
  All-mono P Q [] step h = tt
  All-mono P Q ((k, v) ∷ d) step h = (step k v h.0, All-mono P Q d step h.1)

  pub All-and {π} :
      (P Q : K → V → Type π) (d : Dict K V) → All P d → All Q d → All (λ k v. P k v × Q k v) d
  All-and P Q [] p q = tt
  All-and P Q ((k, v) ∷ d) p q = ((p.0, q.0), All-and P Q d p.1 q.1)

  -- The key that `find_key` returns is there, with an item that passes the test.
  pub find_key-found :
      (p : K → V → Bool) (d : Dict K V) (k : K)
      → find_key p d ≡ some k
      → (has_key k d ≡ Bool.true) × ((v : V) × (p k v ≡ Bool.true))
  unfolding find_key lookup
  find_key-found p [] k h = cc
  find_key-found p ((j, v) ∷ d) k h = elim (Bool-cases (p j v)) [
    | inl passes ↦
        let here : j ≡ k = some_inj (rw passes at h) in
        (ground (arith, e.beq_iff j k), (v, subst (λ (x : K). p x v ≡ Bool.true) here passes))
    | inr fails ↦
        let (there, found) = find_key-found p d k (rw fails at h) in (ground (arith), found)
  ]

  -- Writing under a key that is there adds no key.
  pub has_key-insert_known :
      (k j : K) (v : V) (d : Dict K V)
      → has_key k d ≡ Bool.true
      → has_key j (insert k v d) ≡ has_key j d
  has_key-insert_known k j v d h = elim (Bool-cases (same k j)) [
    | inl here ↦
        let at : k ≡ j = (e.beq_iff k j).0 here in
        subst (λ (x : K). has_key x (insert k v d) ≡ has_key x d) at
          (rw (lookup-insert_self k v d) (sym h))
    | inr other ↦ rw (lookup-insert k j v d) (rw other)
  ]
