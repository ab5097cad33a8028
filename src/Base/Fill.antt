-- ===== src/Base/Fill.antt =====
-- Filling a map in a loop.
use mathlib.Core.Path.{◌≡◌, refl, sym, ap, ◌∙◌}
use mathlib.Core.Logic.{inl, inr}
use mathlib.Core.Bool.{false}
use mathlib.Core.List.{List, [], ◌∷◌, ◌++◌}
use mathlib.Core.List.{append_assoc, append-nil}
use native.Mathlib.Omega.{arith}
use laforge.Base.Tests.{Bool-cases}
use laforge.Base.Eq.{Eq}
use laforge.Base.Assoc.{lookup, has_key, insert, has_key-insert}
use laforge.Base.Any.{any}

module _ {K V : Type 0} ⦃e : Eq K⦄ where
  -- A write at a new key comes last.
  pub insert-new :
      (k : K) (v : V) (m : List (K × V)) → has_key k m ≡ false → insert k v m ≡ m ++ (k, v) ∷ []
  unfolding insert lookup
  insert-new k v [] h = refl
  insert-new k v ((j, w) ∷ m) h = elim (Bool-cases (e.same j k)) [
    | inl c ↦ ground (arith, c, h)
    | inr c ↦ rw c (ap (λ r. (j, w) ∷ r) (insert-new k v m (ground (arith, c, h))))
  ]

module _ {A K : Type 0} ⦃e : Eq K⦄ (key : A → K) where
  -- No two elements have the same key.
  abbrev pub Distinct : List A → Type 0
  Distinct [] = Unit
  Distinct (x ∷ xs) = (any (λ y. e.same (key x) (key y)) xs ≡ false) × Distinct xs

module _ {A K V : Type 0} ⦃e : Eq K⦄ (key : A → K) (value : A → V) where
  unfoldable pub fill : List A → List (K × V) → List (K × V)
  fill [] m = m
  fill (x ∷ xs) m = fill xs (insert (key x) (value x) m)

  abbrev pub entries : List A → List (K × V)
  entries [] = []
  entries (x ∷ xs) = (key x, value x) ∷ entries xs

  still_new :
      (x : A) (xs : List A) (m : List (K × V))
      → any (λ y. has_key (key y) m) xs ≡ false
      → any (λ y. e.same (key x) (key y)) xs ≡ false
      → any (λ y. has_key (key y) (insert (key x) (value x) m)) xs ≡ false
  unfolding any
  still_new x [] m new apart = refl
  still_new x (y ∷ ys) m new apart =
      ground (arith, has_key-insert (key x) (key y) (value x) m, still_new x ys m, new, apart)

  -- A loop over elements with new and different keys appends them.
  pub fill-append :
      (xs : List A) (m : List (K × V))
      → Distinct key xs
      → any (λ y. has_key (key y) m) xs ≡ false
      → fill xs m ≡ m ++ entries xs
  unfolding fill any
  fill-append [] m d new = sym (append-nil m)
  fill-append (x ∷ xs) m d new =
      let x_new : has_key (key x) m ≡ false = ground arith in
      fill-append xs (insert (key x) (value x) m) d.1 (still_new x xs m (ground arith) d.0)
      ∙ ap (λ r. r ++ entries xs) (insert-new (key x) (value x) m x_new)
      ∙ append_assoc m ((key x, value x) ∷ []) (entries xs)

  none_new : (xs : List A) → any (λ y. has_key {V = V} (key y) []) xs ≡ false
  unfolding any lookup
  none_new [] = refl
  none_new (x ∷ xs) = none_new xs

  pub fill-empty : (xs : List A) → Distinct key xs → fill xs [] ≡ entries xs
  fill-empty xs d = fill-append xs [] d (none_new xs)
