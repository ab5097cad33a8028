-- ===== src/Relationship/Bounded.antt =====
-- Walks of core/graph/relationship.go with a maximal depth.
use laforge.Base.{ℕ, zero, suc, ◌+◌, ◌<◌, ◌≤◌, Option, none, some, List, [], ◌∷◌, ◌≡◌, refl, arith}
use laforge.Relationship.{
  Relationships, WalkDirection, WalkError, path_ended, halted, direction_undefined, other, Walked,
  walked, out_of_fuel, subjects_of, go_on, checked, walk_each, walk_subjects, walk_relationship,
}

module _ (r : Relationships) {S : Type 0} (P : S → Type 0)
    (visit : r.Object → ℕ → S → S × Option WalkError) where
  -- The walk has ended, in a state with the property.
  abbrev Ends : Walked S → Type 0
  Ends out_of_fuel = ⊥
  Ends (walked s e) = P s

  go_on-Ends :
      (w : Walked S) (rest : S → Walked S)
      → Ends w
      → ((s : S) → P s → Ends (rest s))
      → Ends (go_on r w rest)
  unfolding go_on
  go_on-Ends out_of_fuel rest w f = w
  go_on-Ends (walked s none) rest w f = f s w
  go_on-Ends (walked s (some path_ended)) rest w f = f s w
  go_on-Ends (walked s (some halted)) rest w f = w
  go_on-Ends (walked s (some direction_undefined)) rest w f = w
  go_on-Ends (walked s (some (other e))) rest w f = w

  checked-Ends :
      (called : S × Option WalkError) (rest : S → Walked S)
      → P called.0
      → ((s : S) → P s → Ends (rest s))
      → Ends (checked r called rest)
  unfolding checked
  checked-Ends (s, none) rest p f = f s p
  checked-Ends (s, some e) rest p f = p

  walk_each-Ends :
      (deeper : r.Object → S → Walked S) (offset : ℕ) (xs : List r.Object) (s : S)
      → ((x : r.Object) (s : S) → P s → P (visit x offset s).0)
      → ((x : r.Object) (s : S) → P s → Ends (deeper x s))
      → P s
      → Ends (walk_each r visit deeper offset xs s)
  unfolding walk_each
  walk_each-Ends deeper offset [] s v d p = p
  walk_each-Ends deeper offset (x ∷ xs) s v d p =
      checked-Ends (visit x offset s) _ (v x s p) (λ s' p'.
        go_on-Ends (deeper x s') _ (d x s' p')
          (λ s'' p''. walk_each-Ends deeper offset xs s'' v d p''))

  walk_subjects-Ends :
      (deeper : r.Object → S → Walked S) (offset : ℕ) (xs : Option (List r.Object)) (s : S)
      → ((x : r.Object) (s : S) → P s → P (visit x offset s).0)
      → ((x : r.Object) (s : S) → P s → Ends (deeper x s))
      → P s
      → Ends (walk_subjects r visit deeper offset xs s)
  unfolding walk_subjects
  walk_subjects-Ends deeper offset none s v d p = p
  walk_subjects-Ends deeper offset (some []) s v d p = p
  walk_subjects-Ends deeper offset (some (x ∷ xs)) s v d p =
      walk_each-Ends deeper offset (x ∷ xs) s v d p

  walk_relationship-Ends :
      (fuel maxdepth offset : ℕ) (direction : WalkDirection) (base : r.Object) (s : S)
      → maxdepth < fuel
      → ((x : r.Object) (distance : ℕ) (s : S)
          → offset ≤ distance
          → distance < offset + maxdepth
          → P s
          → P (visit x distance s).0)
      → P s
      → Ends (walk_relationship r fuel (some maxdepth) offset direction visit base s)
  unfolding walk_relationship
  walk_relationship-Ends zero maxdepth offset direction base s h v p = ground arith
  walk_relationship-Ends (suc fuel) zero offset direction base s h v p = p
  walk_relationship-Ends (suc fuel) (suc maxdepth) offset direction base s h v p =
      walk_subjects-Ends
        (λ x s. walk_relationship r fuel (some maxdepth) (suc offset) direction visit x s) offset
        (subjects_of r direction base) s (λ x s q. v x offset s (omega arith) (omega arith) q)
        (λ x s q.
          walk_relationship-Ends fuel maxdepth (suc offset) direction x s (omega (arith, h))
            (λ y distance t low high. v y distance t (omega (arith, low)) (omega (arith, high))) q)
        p

  Ends-walked : (w : Walked S) → Ends w → (s : S) × (e : Option WalkError) × (w ≡ walked s e) × P s
  Ends-walked out_of_fuel h = elim h [ ]
  Ends-walked (walked s e) h = (s, e, refl, h)

  -- A walk with a maximal depth ends for every graph, in fuel for one level more than the depth, and
  -- calls its callback only at distances below the depth: what each such call preserves is preserved.
  pub walk_relationship-bounded :
      (maxdepth offset : ℕ) (direction : WalkDirection) (base : r.Object) (s : S)
      → ((x : r.Object) (distance : ℕ) (s : S)
          → offset ≤ distance
          → distance < offset + maxdepth
          → P s
          → P (visit x distance s).0)
      → P s
      → (t : S) × (e : Option WalkError) × (walk_relationship r
            (suc maxdepth)
            (some maxdepth)
            offset
            direction
            visit
            base
            s
          ≡ walked t e)
        × P t
  walk_relationship-bounded maxdepth offset direction base s v p =
      Ends-walked _
        (walk_relationship-Ends (suc maxdepth) maxdepth offset direction base s (omega arith) v p)
