-- ===== src/Metadata/GoPath/Clean.antt =====
-- `path.Clean`, `path.Join` and `path.Dir` on absolute paths that are clean already.
use mathlib.Core.List.{reverse, reverse-append, reverse-reverse, append_assoc, append-nil}
use laforge.Base.{String, true, false, ◌≡◌, refl, ap, ◌∙◌, [], ◌∷◌, ◌++◌, All, str_eq}
use laforge.Metadata.GoPath.{FilePath, clean_loop, clean, drop_last, dir, join, non_empty}

-- An element of a path that `path.Clean` keeps.
pub record IsElement (s : String) : Type 0 where
  pub not_empty : str_eq s "" ≡ false
  pub not_dot : str_eq s "." ≡ false
  pub not_dots : str_eq s ".." ≡ false

abbrev pub AreElements : FilePath → Type 0
AreElements = All IsElement

clean_loop-AreElements :
    (acc p : FilePath) → AreElements p → clean_loop true acc p ≡ reverse p ++ acc
unfolding clean_loop
clean_loop-AreElements acc [] h = refl
clean_loop-AreElements acc (s ∷ r) h =
    simp (h.0.not_empty, h.0.not_dot, h.0.not_dots)
      (clean_loop-AreElements (s ∷ acc) r h.1 ∙ simp (reverse-append (s ∷ []) r, append_assoc))

reverse-clean_loop : (p : FilePath) → AreElements p → reverse (clean_loop true [] p) ≡ p
reverse-clean_loop p h = simp (clean_loop-AreElements [] p h, append-nil, reverse-reverse)

clean_lem : (s : String) (p : FilePath) → AreElements (s ∷ p) → clean ("" ∷ s ∷ p) ≡ "" ∷ s ∷ p
unfolding clean
clean_lem s p h = rw (reverse-clean_loop (s ∷ p) h)

non_empty-AreElements : (p : FilePath) → AreElements p → non_empty p ≡ p
unfolding non_empty
non_empty-AreElements [] h = refl
non_empty-AreElements (s ∷ r) h = simp (h.0.not_empty, non_empty-AreElements r h.1)

pub AreElements-append : (p q : FilePath) → AreElements p → AreElements q → AreElements (p ++ q)
AreElements-append [] q hp hq = hq
AreElements-append (s ∷ p) q hp hq = (hp.0, AreElements-append p q hp.1 hq)

-- Joining elements to a clean absolute path appends them.
pub join-AreElements :
    (s : String) (p q : FilePath)
    → AreElements (s ∷ p)
    → AreElements q
    → join ("" ∷ s ∷ p) q ≡ "" ∷ s ∷ p ++ q
unfolding join
join-AreElements s p q hp hq =
    simp (non_empty-AreElements q hq) (clean_lem s (p ++ q) (AreElements-append (s ∷ p) q hp hq))

drop_last-append : (p : FilePath) (s : String) → drop_last (p ++ s ∷ []) ≡ p
unfolding drop_last
drop_last-append [] s = refl
drop_last-append (a ∷ []) s = refl
drop_last-append (a ∷ b ∷ p) s = ap (λ r. a ∷ r) (drop_last-append (b ∷ p) s)

-- The directory of a clean absolute path is the path without its last element.
pub dir-AreElements :
    (s : String) (p : FilePath) (t : String)
    → AreElements (s ∷ p)
    → dir ("" ∷ s ∷ p ++ t ∷ []) ≡ "" ∷ s ∷ p
unfolding dir
dir-AreElements s p t h = rw (drop_last-append (s ∷ p) t) (rw (reverse-clean_loop (s ∷ p) h))
