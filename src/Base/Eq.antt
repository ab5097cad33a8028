-- ===== src/Base/Eq.antt =====
-- Equality tests as an interface: the keys of a map.
use Prim.Native.Nat.{ℕ}
use Prim.Native.String.{String}
use text.Mathlib.TextEquality.{eq_iff}
use mathlib.Core.Path.{◌≡◌, refl}
use mathlib.Core.Logic.{◌↔◌}
use mathlib.Core.Bool.{Bool, true, false, ◌&&◌}
use mathlib.Core.List.{List, [], ◌∷◌}
use native.Mathlib.Omega.{arith}
use laforge.Base.Tests.{str_eq, ◌==◌}

pub record Eq {ℓ} (K : Type ℓ) : Type ℓ where
  pub same : K → K → Bool
  pub same_iff : (a b : K) → (same a b ≡ true) ↔ (a ≡ b)

abbrev pub same {ℓ} : {K : Type ℓ} ⦃e : Eq K⦄ → K → K → Bool
same ⦃e⦄ = e.same

pub nat_same_iff : (a b : ℕ) → ((a == b) ≡ true) ↔ (a ≡ b)
nat_same_iff a b = ground arith

instance abbrev pub nat_eq : Eq ℕ
nat_eq = record { same = ◌==◌; same_iff = nat_same_iff }

instance abbrev pub string_eq : Eq String
string_eq = record { same = str_eq; same_iff = eq_iff }

-- Paths are compared element by element.
unfoldable pub path_same : List String → List String → Bool
path_same [] [] = true
path_same (a ∷ p) (b ∷ q) = let rest = path_same p q in str_eq a b && rest
path_same _ _ = false

pub path_same_iff : (p q : List String) → (path_same p q ≡ true) ↔ (p ≡ q)
unfolding path_same
path_same_iff [] [] = (λ _. refl, λ _. refl)
path_same_iff [] (b ∷ q) = (λ h. cc, λ h. cc)
path_same_iff (a ∷ p) [] = (λ h. cc, λ h. cc)
path_same_iff (a ∷ p) (b ∷ q) = (
  λ h. ground (arith, eq_iff a b, path_same_iff p q),
  λ h. ground (arith, eq_iff a b, path_same_iff p q),
)

instance abbrev pub path_eq : Eq (List String)
path_eq = record { same = path_same; same_iff = path_same_iff }
