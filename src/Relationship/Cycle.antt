-- ===== src/Relationship/Cycle.antt =====
-- A search of core/graph/relationship.go in a ring of objects.
use laforge.Base.{ℕ, zero, suc, String, false, none, [], ◌∷◌, ◌≡◌, refl, str_eq}
use laforge.Relationship.{
  Relationships, traverse_children, out_of_fuel, subjects_of, go_on, checked, walk_each,
  walk_subjects, walk_relationship, halt_at, found_in, has_indirect_child,
}

module _ (r : Relationships) (around : ℕ → r.Object) (id : String)
    (only_child : (n : ℕ) → r.children (around n) ≡ around (suc n) ∷ [])
    (other_id : (n : ℕ) → str_eq (r.get_id (around n)) id ≡ false) where
  walk-out_of_fuel :
      (fuel offset n : ℕ)
      → walk_relationship r fuel none offset traverse_children (halt_at r id) (around n) false
        ≡ out_of_fuel
  unfolding walk_relationship subjects_of walk_subjects walk_each checked go_on halt_at
  walk-out_of_fuel zero offset n = refl
  walk-out_of_fuel (suc fuel) offset n =
      rw (only_child n, other_id (suc n), walk-out_of_fuel fuel (suc offset) (suc n)) refl

-- Where each object of an endless sequence, as the rounds in a ring are, has the next one as its only
-- child, and none of them has the ID in question, `HasIndirectChild` gives no answer for any amount
-- of fuel.
pub ring_never_answers :
    (r : Relationships) (around : ℕ → r.Object) (question : r.Object) (fuel : ℕ)
    → ((n : ℕ) → r.children (around n) ≡ around (suc n) ∷ [])
    → ((n : ℕ) → str_eq (r.get_id (around n)) (r.get_id question) ≡ false)
    → has_indirect_child r fuel (around 0) question ≡ none
unfolding has_indirect_child found_in
ring_never_answers r around question fuel only_child other_id =
    rw (walk-out_of_fuel r around (r.get_id question) only_child other_id fuel 0 0) refl
