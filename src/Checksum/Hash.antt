-- ===== src/Checksum/Hash.antt =====
-- What the hash of core/checksum.go depends on.
use mathlib.Core.Logic.{∥∥₁_elim}
use mathlib.Core.List.{Perm, Permᴰ}
use native.Mathlib.Nat.{ℕ_set}
use laforge.Base.{ℕ, suc, ◌≡◌, refl, ap, ◌∙◌, ◌⊎◌, inl, inr, List, [], ◌∷◌, length, arith}
use laforge.Base.Sort.{sort, maximum, IsSorted, sort-IsSorted, maximum-sort, length-sort}
use laforge.Checksum.{uvarint, overwrite, fill, buffer, hash}
use laforge.Checksum.Uvarint.{length-uvarint_mono, overwrite-overwrite}

fill-sorted :
    (x : ℕ) (xs buf : List ℕ)
    → IsSorted (x ∷ xs)
    → fill (x ∷ xs) buf ≡ overwrite (uvarint (maximum (x ∷ xs))) buf
unfolding fill
fill-sorted x [] buf h = ap (λ m. overwrite (uvarint m) buf) (omega arith)
fill-sorted x (y ∷ ys) buf h =
    fill-sorted y ys (overwrite (uvarint x) buf) h.1
    ∙ overwrite-overwrite (uvarint x) (uvarint (maximum (y ∷ ys))) buf
        (length-uvarint_mono x (maximum (y ∷ ys)) (omega arith))
    ∙ ap (λ m. overwrite (uvarint m) buf) (omega arith)

fill-IsSorted :
    (s buf : List ℕ) → IsSorted s → (s ≡ []) ⊎ (fill s buf ≡ overwrite (uvarint (maximum s)) buf)
fill-IsSorted [] buf h = inl refl
fill-IsSorted (x ∷ xs) buf h = inr (fill-sorted x xs buf h)

module _ (sum64 : List ℕ → ℕ) where
  -- Every write starts at the first byte, in ascending order: the hash of a list of checksums is
  -- the hash of a zeroed buffer of the list's size that holds the encoding of the largest alone.
  pub hash-maximum :
      (c : List ℕ) → hash sum64 c ≡ sum64 (overwrite (uvarint (maximum c)) (buffer c))
  unfolding hash sort
  hash-maximum [] = refl
  hash-maximum (x ∷ xs) =
      elim (fill-IsSorted (sort (x ∷ xs)) (buffer (x ∷ xs)) (sort-IsSorted (x ∷ xs))) [
        | inl e ↦ absurd (omega (arith, ap length e, length-sort (x ∷ xs)))
        | inr e ↦ ap sum64 (rw e (rw (maximum-sort (x ∷ xs))))
      ]

  -- Two lists of checksums of the same length and with the same largest member have one hash,
  -- whatever the other members are.
  pub hash-collision :
      (c d : List ℕ) → length c ≡ length d → maximum c ≡ maximum d → hash sum64 c ≡ hash sum64 d
  hash-collision c d l m = rw (hash-maximum c, hash-maximum d, m) (unfold buffer in rw l)

length-perm : {c d : List ℕ} → Permᴰ c d → length c ≡ length d
length-perm Permᴰ.nil = refl
length-perm (Permᴰ.cons e p) = ap suc (length-perm p)
length-perm (Permᴰ.swap e f) = ground arith
length-perm (Permᴰ.trans p q) = length-perm p ∙ length-perm q

maximum-perm : {c d : List ℕ} → Permᴰ c d → maximum c ≡ maximum d
maximum-perm Permᴰ.nil = refl
maximum-perm (Permᴰ.cons e p) = omega (arith, maximum-perm p)
maximum-perm (Permᴰ.swap e f) = ground arith
maximum-perm (Permᴰ.trans p q) = maximum-perm p ∙ maximum-perm q

-- The order in which a map's `range` loop collects the checksums does not change their hash.
pub hash-perm : (sum64 : List ℕ → ℕ) (c d : List ℕ) → Perm c d → hash sum64 c ≡ hash sum64 d
hash-perm sum64 c d p =
    ∥∥₁_elim p (ℕ_set _ _) (λ q. hash-collision sum64 c d (length-perm q) (maximum-perm q))
