-- ===== src/Index/Loop.antt =====
-- What holds of the objects and of their parents after one of the loops.
use laforge.Base.{
  true, false, Option, none, some, [], ◌∷◌, ◌≡◌, refl, subst, arith, All, Bool-cases, inl, inr,
}
use laforge.Base.Eq.{path_eq, path_same, path_same_iff}
use laforge.Base.Assoc.{lookup, insert, has_key, lookup-insert}
use laforge.Metadata.GoPath.{FilePath}
use laforge.Index.{
  Object, Objects, Linking, Indexed, indexed, missing, unknown_type, nil_map, located, ◌>>=◌,
  link_one, link_loop, link_all,
}

pub >>=-eq-indexed :
    {X Y : Type 0} (first : Indexed X) (f : X → Indexed Y) {out : Y}
    → (first >>= f) ≡ indexed out
    → (x : X) × (first ≡ indexed x) × (f x ≡ indexed out)
>>=-eq-indexed (indexed x) f h = (x, refl, h)
>>=-eq-indexed (missing id) f h = cc
>>=-eq-indexed unknown_type f h = cc
>>=-eq-indexed nil_map f h = cc

located-eq-indexed :
    {A : Type 0} (id : FilePath) (o : Option A) (a : A) → located id o ≡ indexed a → o ≡ some a
located-eq-indexed id none a h = cc
located-eq-indexed id (some b) a h = cc

-- A predicate on what a key leads to, if it leads to something.
abbrev pub At : (FilePath → Object → Type 0) → FilePath → Option Object → Type 0
At P k none = Unit
At P k (some x) = P k x

abbrev pub Everywhere : (FilePath → Object → Type 0) → Objects → Type 0
Everywhere P m = (k : FilePath) → At P k (lookup k m)

insert-At :
    (P : FilePath → Object → Type 0) (k j : FilePath) (x : Object) (m : Objects)
    → P k x
    → (path_same k j ≡ false → At P j (lookup j m))
    → At P j (lookup j (insert k x m))
insert-At P k j x m p rest = elim (Bool-cases (path_same k j)) [
  | inl e ↦ rw (At, lookup-insert k j x m, e) (subst (λ i. P i x) ((path_same_iff k j).0 e) p)
  | inr e ↦ rw (At, lookup-insert k j x m, e) (rest e)
]

-- A loop's parent keeps its property, and its objects get theirs.
pub record IsSound (linking : Linking) (G H : FilePath → Object → Type 0) : Type 0 where
  pub adopted :
      (key pk : FilePath) (x p p' : Object) → H pk p → linking.adopt key x p ≡ indexed p' → H pk p'
  pub attached :
      (key : FilePath) (x p x' : Object)
      → x.id ≡ key
      → H (linking.parent_id x) p
      → linking.attach (linking.parent_id x) p.links x ≡ indexed x'
      → G key x'

absent-At :
    (P : FilePath → Object → Type 0) (j : FilePath) (o : Option Object)
    → elim o [ none ↦ false | some x ↦ true ] ≡ false
    → At P j o
absent-At P j none h = tt
absent-At P j (some x) h = ground (arith, h)

-- A predicate on the value, if the loop gives one.
abbrev Gives : (Objects × Objects → Type 0) → Indexed (Objects × Objects) → Type 0
Gives P (indexed w) = P w
Gives P (missing id) = Unit
Gives P unknown_type = Unit
Gives P nil_map = Unit

module _ (linking : Linking) (G H : FilePath → Object → Type 0) (sound : IsSound linking G H) where
  -- One round, seen from the objects before it.
  abbrev Round : FilePath → Objects → Objects × Objects → Type 0
  Round key xs (xs', parents') =
      Everywhere H parents'
      × ((j : FilePath) → (path_same key j ≡ false → At G j (lookup j xs)) → At G j (lookup j xs'))

  link_one_sound :
      (key : FilePath) (x : Object) (xs parents : Objects) (w : Objects × Objects)
      → x.id ≡ key
      → Everywhere H parents
      → link_one linking key x (xs, parents) ≡ indexed w
      → Round key xs w
  unfolding link_one
  link_one_sound key x xs parents w id h e =
      let pk : FilePath = linking.parent_id x in
      let (p, e1, f1) = >>=-eq-indexed (located pk (lookup pk parents)) _ e in
      let (p', e2, f2) = >>=-eq-indexed (linking.adopt key x p) _ f1 in
      let (x', e3, f3) = >>=-eq-indexed (linking.attach pk p'.links x) _ f2 in
      let hp : H pk p = subst (At H pk) (located-eq-indexed pk (lookup pk parents) p e1) (h pk) in
      let hp' : H pk p' = sound.adopted key pk x p p' hp e2 in
      let g : G key x' = sound.attached key x p' x' id hp' e3 in
      subst (Gives (Round key xs)) f3 (
        λ k. insert-At H pk k p' parents hp' (λ apart. h k),
        λ j rest. insert-At G key j x' xs g rest,
      )

  link_loop_sound :
      (todo xs parents : Objects) (w : Objects × Objects)
      → All (λ e. e.1.id ≡ e.0) todo
      → Everywhere H parents
      → ((j : FilePath) → has_key j todo ≡ false → At G j (lookup j xs))
      → link_loop linking todo (xs, parents) ≡ indexed w
      → Everywhere G w.0 × Everywhere H w.1
  unfolding link_loop lookup
  link_loop_sound [] xs parents w ids h g e =
      subst (Gives (λ w. Everywhere G w.0 × Everywhere H w.1)) e (λ k. g k refl, h)
  link_loop_sound ((key, x) ∷ rest) xs parents w ids h g e =
      let ((xs', parents'), e1, f1) = >>=-eq-indexed (link_one linking key x (xs, parents)) _ e in
      let (h', g') = link_one_sound key x xs parents (xs', parents') ids.0 h e1 in
      link_loop_sound rest xs' parents' w ids.1 h'
        (λ j absent. g' j (λ apart. g j (ground (arith, apart, absent)))) f1

  pub link_all_sound :
      (xs parents : Objects) (w : Objects × Objects)
      → All (λ e. e.1.id ≡ e.0) xs
      → Everywhere H parents
      → link_all linking xs parents ≡ indexed w
      → Everywhere G w.0 × Everywhere H w.1
  unfolding link_all
  link_all_sound xs parents w ids h e =
      link_loop_sound xs xs parents w ids h (λ j absent. absent-At G j (lookup j xs) absent) e
