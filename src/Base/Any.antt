-- ===== src/Base/Any.antt =====
-- A Boolean test on the elements of a list.
use mathlib.Core.Path.{◌≡◌, refl}
use mathlib.Core.Bool.{Bool, false, ◌||◌}
use mathlib.Core.List.{List, [], ◌∷◌, ◌++◌, map}
use native.Mathlib.Omega.{arith}

module _ {A : Type 0} where
  unfoldable pub any : (A → Bool) → List A → Bool
  any holds [] = false
  any holds (x ∷ xs) = let rest = any holds xs in holds x || rest

  pub any-append :
      (holds : A → Bool) (xs ys : List A) → any holds (xs ++ ys) ≡ (any holds xs || any holds ys)
  unfolding any
  any-append holds [] ys = refl
  any-append holds (x ∷ xs) ys = ground (arith, any-append holds xs ys)

  pub any-one : (holds : A → Bool) (x : A) → any holds (x ∷ []) ≡ holds x
  unfolding any
  any-one holds x = ground arith

pub any-map :
    {A B : Type 0} (holds : A → Bool) (f : B → A) (ys : List B)
    → any holds (map f ys) ≡ any (λ y. holds (f y)) ys
unfolding any
any-map holds f [] = refl
any-map holds f (y ∷ ys) = ground (arith, any-map holds f ys)
