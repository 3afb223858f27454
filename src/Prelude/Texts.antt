-- ===== src/Prelude/Texts.antt =====
-- Texts that are only compared: names, keys and codes.
use Prim.Native.Nat.{ℕ, zero, suc}
use Prim.Native.String.{String}
use mathlib.Core.Path.{◌≡◌}
use mathlib.Core.Bool.{Bool, true, false, ◌||◌}
use native.Mathlib.Omega.{arith}
use data_effi.Prelude.Lists.{all}
use mathlib.Core.List.{List, [], ◌∷◌}
pub use text.Mathlib.Text.{◌==◌ as str_eq}
pub use text.Mathlib.TextEquality.{eq_iff as str_eq_iff}
pub use text.Mathlib.TextPositions.{eq_refl as str_eq_refl}

-- `name in names`
abbrev pub mentions : List String → String → Bool
mentions [] k = false
mentions (n ∷ ns) k = str_eq n k || mentions ns k

-- a truthy string
abbrev pub is_blank : String → Bool
is_blank s = str_eq s ""

-- What holds of all names holds of one that is among them.
pub all-mentions :
    (p : String → Bool) (ns : List String) (n : String)
    → all p ns ≡ true
    → mentions ns n ≡ true
    → p n ≡ true
all-mentions p [] n h m = cc
all-mentions p (k ∷ ns) n h m = ground (arith, str_eq_iff k n, all-mentions p ns n)

-- s[:n]
unfoldable pub take : ℕ → String → String
take zero s = String.[]
take (suc n) String.[] = String.[]
take (suc n) (String.◌∷◌ c s) = String.◌∷◌ c (take n s)
