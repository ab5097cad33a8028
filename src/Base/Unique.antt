-- ===== src/Base/Unique.antt =====
-- Maps as association lists whose keys differ.
use mathlib.Core.Path.{◌≡◌, refl, sym, ◌∙◌, ap, subst}
use mathlib.Core.Logic.{inl, inr}
use mathlib.Core.Bool.{true, false}
use mathlib.Core.Option.{some}
use mathlib.Core.List.{List, [], ◌∷◌}
use native.Mathlib.Omega.{arith}
use laforge.Base.Tests.{Bool-cases}
use laforge.Base.Lists.{In}
use laforge.Base.Eq.{Eq}
use laforge.Base.Assoc.{lookup, has_key, insert, has_key-insert, same_refl}

module _ {K V : Type 0} ⦃e : Eq K⦄ where
  -- The keys of a map differ.
  abbrev pub Unique : List (K × V) → Type 0
  Unique [] = Unit
  Unique ((k, v) ∷ m) = (has_key k m ≡ false) × Unique m

  pub insert-Unique : (k : K) (v : V) (m : List (K × V)) → Unique m → Unique (insert k v m)
  unfolding insert lookup
  insert-Unique k v [] u = (refl, tt)
  insert-Unique k v ((j, w) ∷ m) u = elim (Bool-cases (e.same j k)) [
    | inl c ↦ rw c (u.0, u.1)
    | inr c ↦ rw c (
      has_key-insert k j v m ∙ ground (arith, e.same_iff k j, e.same_iff j k, c, u.0),
      insert-Unique k v m u.1,
    )
  ]

  In-has_key : (k : K) (v : V) (m : List (K × V)) → In (k, v) m → has_key k m ≡ true
  unfolding lookup
  In-has_key k v [] h = elim h [ ]
  In-has_key k v ((j, w) ∷ m) (inl p) =
      let q : k ≡ j = ap (λ x. x.0) p in
      subst (λ x. has_key k ((x, w) ∷ m) ≡ true) q (ground (arith, same_refl k))
  In-has_key k v ((j, w) ∷ m) (inr h) = ground (arith, In-has_key k v m h)

  -- An entry of such a map is what its key looks up.
  pub In-lookup : (k : K) (v : V) (m : List (K × V)) → Unique m → In (k, v) m → lookup k m ≡ some v
  unfolding lookup
  In-lookup k v [] u h = elim h [ ]
  In-lookup k v ((j, w) ∷ m) u (inl p) =
      let q : k ≡ j = ap (λ x. x.0) p in
      let r : v ≡ w = ap (λ x. x.1) p in
      subst (λ x. lookup k ((x, w) ∷ m) ≡ some v) q (rw (same_refl k) (ap some (sym r)))
  In-lookup k v ((j, w) ∷ m) u (inr h) = elim (Bool-cases (e.same j k)) [
    | inl c ↦
        let q : j ≡ k = (e.same_iff j k).0 c in
        ground (arith, In-has_key k v m h, subst (λ x. has_key x m ≡ false) q u.0)
    | inr c ↦ rw c (In-lookup k v m u.1 h)
  ]
