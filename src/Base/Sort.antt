-- ===== src/Base/Sort.antt =====
-- Sorting numbers in ascending order, as Go's `sort` package does.
use Prim.Native.Nat.{ℕ, suc, ◌≤◌, max}
use mathlib.Core.Path.{◌≡◌, refl, ap, ◌∙◌}
use mathlib.Core.Logic.{inl, inr}
use mathlib.Core.List.{List, [], ◌∷◌}
use native.Mathlib.Omega.{arith}
use laforge.Base.Tests.{leb, if◌then◌else◌, Bool-cases}
use laforge.Base.Lists.{length, In}

unfoldable pub insert_sorted : ℕ → List ℕ → List ℕ
insert_sorted x [] = x ∷ []
insert_sorted x (y ∷ ys) = if leb x y then x ∷ y ∷ ys else y ∷ insert_sorted x ys

unfoldable pub sort : List ℕ → List ℕ
unfolding insert_sorted
sort [] = []
sort (x ∷ xs) = insert_sorted x (sort xs)

abbrev pub maximum : List ℕ → ℕ
maximum [] = 0
maximum (x ∷ xs) = max x (maximum xs)

abbrev pub HeadAbove : ℕ → List ℕ → Type 0
HeadAbove x [] = Unit
HeadAbove x (y ∷ ys) = x ≤ y

abbrev pub IsSorted : List ℕ → Type 0
IsSorted [] = Unit
IsSorted (x ∷ xs) = HeadAbove x xs × IsSorted xs

HeadAbove-insert_sorted :
    (x y : ℕ) (ys : List ℕ) → y ≤ x → HeadAbove y ys → HeadAbove y (insert_sorted x ys)
unfolding insert_sorted
HeadAbove-insert_sorted x y [] h k = h
HeadAbove-insert_sorted x y (z ∷ zs) h k = ground arith

insert_sorted-IsSorted : (x : ℕ) (ys : List ℕ) → IsSorted ys → IsSorted (insert_sorted x ys)
unfolding insert_sorted
insert_sorted-IsSorted x [] h = (tt, tt)
insert_sorted-IsSorted x (y ∷ ys) h =
    ground (arith, insert_sorted-IsSorted x ys h.1, HeadAbove-insert_sorted x y ys)

pub sort-IsSorted : (xs : List ℕ) → IsSorted (sort xs)
unfolding sort
sort-IsSorted [] = tt
sort-IsSorted (x ∷ xs) = insert_sorted-IsSorted x (sort xs) (sort-IsSorted xs)

maximum-insert_sorted : (x : ℕ) (ys : List ℕ) → maximum (insert_sorted x ys) ≡ max x (maximum ys)
unfolding insert_sorted
maximum-insert_sorted x [] = refl
maximum-insert_sorted x (y ∷ ys) = ground (arith, maximum-insert_sorted x ys)

pub maximum-sort : (xs : List ℕ) → maximum (sort xs) ≡ maximum xs
unfolding sort
maximum-sort [] = refl
maximum-sort (x ∷ xs) = rw maximum-insert_sorted (ap (max x) (maximum-sort xs))

length-insert_sorted : (x : ℕ) (ys : List ℕ) → length (insert_sorted x ys) ≡ suc (length ys)
unfolding insert_sorted
length-insert_sorted x [] = refl
length-insert_sorted x (y ∷ ys) = ground (arith, length-insert_sorted x ys)

pub length-sort : (xs : List ℕ) → length (sort xs) ≡ length xs
unfolding sort
length-sort [] = refl
length-sort (x ∷ xs) = length-insert_sorted x (sort xs) ∙ ap suc (length-sort xs)

In-insert_sorted : (a x : ℕ) (ys : List ℕ) → In a (x ∷ ys) → In a (insert_sorted x ys)
unfolding insert_sorted
In-insert_sorted a x [] h = h
In-insert_sorted a x (y ∷ ys) h = elim (Bool-cases (leb x y)) [
  | inl e ↦ rw e h
  | inr e ↦ rw e (elim h [
    | inl p ↦ inr (In-insert_sorted a x ys (inl p))
    | inr q ↦ elim q [ inl p ↦ inl p | inr r ↦ inr (In-insert_sorted a x ys (inr r)) ]
  ])
]

pub In-sort : (a : ℕ) (xs : List ℕ) → In a xs → In a (sort xs)
unfolding sort
In-sort a [] h = h
In-sort a (x ∷ xs) h =
    In-insert_sorted a x (sort xs) (elim h [ inl p ↦ inl p | inr q ↦ inr (In-sort a xs q) ])
