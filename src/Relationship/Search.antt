-- ===== src/Relationship/Search.antt =====
-- The searches of core/graph/relationship.go, against reachability.
use laforge.Base.{
  ℕ, zero, suc, ◌<◌, String, Bool, true, false, none, some, List, [], ◌∷◌, ◌≡◌, ◌↔◌, refl, sym, ◌∙◌,
  subst, arith, str_eq, eq_iff, In, inl, inr, ◌⊎◌, Bool-cases,
}
use laforge.Relationship.{
  Relationships, traverse_children, path_ended, halted, Walked, walked, subjects_of, go_on, checked,
  walk_each, walk_subjects, walk_relationship, halt_at, found_in, has_indirect_child,
}

-- An object that is reached by one or more steps along the lists of next objects.
pub data Below {A : Type 0} (next : A → List A) : A → A → Type 0 where
  direct : {x y : A} → In y (next x) → Below next x y
  deeper : {x y z : A} → In y (next x) → Below next y z → Below next x z

module _ (r : Relationships) (id : String) where
  -- The walk did not halt, and the loop around it goes on.
  abbrev GoesOn : Walked Bool → Type 0
  GoesOn w = (w ≡ walked false none) ⊎ (w ≡ walked false (some path_ended))

  abbrev Matches : r.Object → Type 0
  Matches y = r.get_id y ≡ id

  -- What the search below an object gives: a match, or none.
  abbrev Finds : r.Object → Walked Bool → Type 0
  Finds x w =
      ((w ≡ walked true (some halted)) × (y : r.Object) × Below r.children x y × Matches y)
      ⊎ (GoesOn w × ((y : r.Object) → Below r.children x y → ¬ (Matches y)))

  -- One of the objects, or one below them.
  abbrev Among : List r.Object → r.Object → Type 0
  Among xs y = (x : r.Object) × In x xs × ((y ≡ x) ⊎ Below r.children x y)

  abbrev FindsAmong : List r.Object → Walked Bool → Type 0
  FindsAmong xs w =
      ((w ≡ walked true (some halted)) × (y : r.Object) × Among xs y × Matches y)
      ⊎ ((w ≡ walked false none) × ((y : r.Object) → Among xs y → ¬ (Matches y)))

  later :
      (x : r.Object) (xs : List r.Object) (w : Walked Bool)
      → ¬ (Matches x)
      → ((y : r.Object) → Below r.children x y → ¬ (Matches y))
      → FindsAmong xs w
      → FindsAmong (x ∷ xs) w
  later x xs w apart none_below (inl (e, y, (z, i, b), m)) = inl (e, y, (z, inr i, b), m)
  later x xs w apart none_below (inr (e, never)) = inr (e, λ y among m. absent y among m)
    where
      absent : (y : r.Object) → Among (x ∷ xs) y → Matches y → ⊥
      absent y (z, inl i, inl e) m = apart (subst Matches (e ∙ i) m)
      absent y (z, inl i, inr b) m = none_below y (subst (λ v. Below r.children v y) i b) m
      absent y (z, inr i, b) m = never y (z, i, b) m

  -- The walk after a subject without a match.
  after_subject :
      (x : r.Object) (xs : List r.Object) (below : Walked Bool) (rest : Bool → Walked Bool)
      → ¬ (Matches x)
      → Finds x below
      → FindsAmong xs (rest false)
      → FindsAmong (x ∷ xs) (go_on r below rest)
  unfolding go_on
  after_subject x xs below rest apart (inl (e, y, b, m)) f =
      subst (λ w. FindsAmong (x ∷ xs) (go_on r w rest)) (sym e)
        (inl (refl, y, (x, inl refl, inr b), m))
  after_subject x xs below rest apart (inr (inl e, never)) f =
      subst (λ w. FindsAmong (x ∷ xs) (go_on r w rest)) (sym e)
        (later x xs (rest false) apart never f)
  after_subject x xs below rest apart (inr (inr e, never)) f =
      subst (λ w. FindsAmong (x ∷ xs) (go_on r w rest)) (sym e)
        (later x xs (rest false) apart never f)

  walk_each-FindsAmong :
      (below : r.Object → Bool → Walked Bool) (offset : ℕ) (xs : List r.Object)
      → ((x : r.Object) → In x xs → Finds x (below x false))
      → FindsAmong xs (walk_each r (halt_at r id) below offset xs false)
  unfolding walk_each checked halt_at
  walk_each-FindsAmong below offset [] h = inr (refl, λ y among m. elim among.1 [ ])
  walk_each-FindsAmong below offset (x ∷ xs) h = elim (Bool-cases (str_eq (r.get_id x) id)) [
    | inl e ↦ rw e (inl (refl, x, (x, inl refl, inl refl), (eq_iff (r.get_id x) id).0 e))
    | inr e ↦ rw e (
        after_subject x xs (below x false) (λ s. walk_each r (halt_at r id) below offset xs s)
          (λ m. ground (arith, e, (eq_iff (r.get_id x) id).1 m)) (h x (inl refl))
          (walk_each-FindsAmong below offset xs (λ y i. h y (inr i))))
  ]

  Among-Below : (x y : r.Object) → Among (r.children x) y → Below r.children x y
  Among-Below x y (z, i, inl e) = direct (subst (λ v. In v (r.children x)) (sym e) i)
  Among-Below x y (z, i, inr b) = deeper i b

  Below-Among : (x y : r.Object) → Below r.children x y → Among (r.children x) y
  Below-Among x y (direct i) = (y, i, inl refl)
  Below-Among x y (deeper {y = z} i b) = (z, i, inr b)

  subjects_found :
      (below : r.Object → Bool → Walked Bool) (offset : ℕ) (x : r.Object) (xs : List r.Object)
      → r.children x ≡ xs
      → FindsAmong xs (walk_each r (halt_at r id) below offset xs false)
      → Finds x (walk_subjects r (halt_at r id) below offset (some xs) false)
  unfolding walk_subjects
  subjects_found below offset x [] e f =
      inr (inr refl, λ y b m. elim (subst (λ xs. Among xs y) e (Below-Among x y b)).1 [ ])
  subjects_found below offset x (z ∷ zs) e (inl (w, y, among, m)) =
      inl (w, y, Among-Below x y (subst (λ xs. Among xs y) (sym e) among), m)
  subjects_found below offset x (z ∷ zs) e (inr (w, never)) =
      inr (inl w, λ y b m. never y (subst (λ xs. Among xs y) e (Below-Among x y b)) m)

  walk_subjects-Finds :
      (below : r.Object → Bool → Walked Bool) (offset : ℕ) (x : r.Object)
      → ((y : r.Object) → In y (r.children x) → Finds y (below y false))
      → Finds x (walk_subjects r (halt_at r id) below offset (some (r.children x)) false)
  walk_subjects-Finds below offset x h =
      subjects_found below offset x (r.children x) refl
        (walk_each-FindsAmong below offset (r.children x) h)

  module _ (rank : r.Object → ℕ)
      (down : (x y : r.Object) → In y (r.children x) → rank y < rank x) where
    walk_relationship-Finds :
        (fuel offset : ℕ) (x : r.Object)
        → rank x < fuel
        → Finds x (walk_relationship r fuel none offset traverse_children (halt_at r id) x false)
    unfolding walk_relationship subjects_of
    walk_relationship-Finds zero offset x h = ground arith
    walk_relationship-Finds (suc fuel) offset x h =
        walk_subjects-Finds
          (λ y s. walk_relationship r fuel none (suc offset) traverse_children (halt_at r id) y s)
          offset x
          (λ y i. walk_relationship-Finds fuel (suc offset) y (omega (arith, down x y i, h)))

-- Where the children of an object have a lower rank than the object, `HasIndirectChild` gives an
-- answer, with fuel for more levels than the rank of the object; the answer is whether an object with
-- the ID in question is below it.
pub has_indirect_child-Below :
    (r : Relationships) (rank : r.Object → ℕ) (fuel : ℕ) (host question : r.Object)
    → ((x y : r.Object) → In y (r.children x) → rank y < rank x)
    → rank host < fuel
    → (answer : Bool) × (has_indirect_child r fuel host question ≡ some answer)
      × ((answer ≡ true)
          ↔ ((y : r.Object) × Below r.children host y × (r.get_id y ≡ r.get_id question)))
unfolding has_indirect_child found_in
has_indirect_child-Below r rank fuel host question down h =
    elim (walk_relationship-Finds r (r.get_id question) rank down fuel 0 host h) [
      | inl (e, y, b, m) ↦ (true, rw e refl, (λ t. (y, b, m), λ f. refl))
      | inr (inl e, never) ↦
          (false, rw e refl, (λ t. ground (arith, t), λ (y, b, m). elim (never y b m) [ ]))
      | inr (inr e, never) ↦
          (false, rw e refl, (λ t. ground (arith, t), λ (y, b, m). elim (never y b m) [ ]))
    ]
