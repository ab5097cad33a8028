-- ===== src/Relationship.antt =====
-- core/graph/relationship.go: relationships between objects, and walks along them. A walk with
-- `InfiniteDepth` need not end, so it runs on fuel: one for each level of the walk.
pub mod Search
pub mod Bounded
pub mod Cycle
use laforge.Base.{
  ℕ, zero, suc, String, Bool, true, false, ◌||◌, Option, none, some, List, [], ◌∷◌, str_eq,
  if◌then◌else◌,
}
use laforge.Base.Any.{any}

-- What a walk asks of the interface `Relationship`.
pub record Relationships : Type 1 where
  pub Object : Type 0
  pub get_id : Object → String
  pub children : Object → List Object
  pub parents : Object → List Object
  pub children_ids : Object → List String

-- `undefined_direction` stands for every other value of the type.
pub data WalkDirection : Type 0 where
  traverse_children traverse_parents undefined_direction : WalkDirection

pub data WalkError : Type 0 where
  path_ended halted direction_undefined : WalkError
  other : String → WalkError

-- The state that the callback leaves, with the error of the walk; or no fuel is left.
pub data Walked (S : Type 0) : Type 0 where
  out_of_fuel : Walked S
  walked : S → Option WalkError → Walked S

module _ (r : Relationships) where
  unfoldable pub subjects_of : WalkDirection → r.Object → Option (List r.Object)
  subjects_of traverse_children base = some (r.children base)
  subjects_of traverse_parents base = some (r.parents base)
  subjects_of undefined_direction base = none

  -- if err == ErrTraversalPathEnded { continue }
  unfoldable pub go_on : {S : Type 0} → Walked S → (S → Walked S) → Walked S
  go_on out_of_fuel rest = out_of_fuel
  go_on (walked s none) rest = rest s
  go_on (walked s (some path_ended)) rest = rest s
  go_on (walked s (some halted)) rest = walked s (some halted)
  go_on (walked s (some direction_undefined)) rest = walked s (some direction_undefined)
  go_on (walked s (some (other e))) rest = walked s (some (other e))

  -- What the callback returned: an error ends the loop, whichever it is.
  unfoldable pub checked : {S : Type 0} → S × Option WalkError → (S → Walked S) → Walked S
  checked (s, none) rest = rest s
  checked (s, some e) rest = walked s (some e)

  -- The loop over the subjects, given the walk from each of them.
  unfoldable pub walk_each :
      {S : Type 0}
      → (r.Object → ℕ → S → S × Option WalkError)
      → (r.Object → S → Walked S)
      → ℕ
      → List r.Object
      → S
      → Walked S
  unfolding go_on checked
  walk_each visit deeper offset [] s = walked s none
  walk_each visit deeper offset (x ∷ xs) s =
      checked (visit x offset s)
        λ s'. go_on (deeper x s') λ s''. walk_each visit deeper offset xs s''

  walk_subjects :
      {S : Type 0}
      → (r.Object → ℕ → S → S × Option WalkError)
      → (r.Object → S → Walked S)
      → ℕ
      → Option (List r.Object)
      → S
      → Walked S
  unfolding walk_each
  walk_subjects visit deeper offset none s = walked s (some direction_undefined)
  walk_subjects visit deeper offset (some []) s = walked s (some path_ended)
  walk_subjects visit deeper offset (some (x ∷ xs)) s = walk_each visit deeper offset (x ∷ xs) s

  -- `none` is InfiniteDepth; a depth below 1 is `some 0`.
  unfoldable pub walk_relationship :
      {S : Type 0}
      → ℕ
      → Option ℕ
      → ℕ
      → WalkDirection
      → (r.Object → ℕ → S → S × Option WalkError)
      → r.Object
      → S
      → Walked S
  unfolding subjects_of walk_subjects
  walk_relationship zero maxdepth offset direction visit base s = out_of_fuel
  walk_relationship (suc fuel) (some zero) offset direction visit base s =
      walked s (some path_ended)
  walk_relationship (suc fuel) (some (suc maxdepth)) offset direction visit base s =
      walk_subjects visit
        (λ x s. walk_relationship fuel (some maxdepth) (suc offset) direction visit x s) offset
        (subjects_of direction base) s
  walk_relationship (suc fuel) none offset direction visit base s =
      walk_subjects visit (λ x s. walk_relationship fuel none (suc offset) direction visit x s)
        offset (subjects_of direction base) s

  -- The callback of the searches.
  unfoldable pub halt_at : String → r.Object → ℕ → Bool → Bool × Option WalkError
  halt_at id rel distance found =
      if str_eq (r.get_id rel) id then (true, some halted) else (found, none)

  -- Another error is logged, and the answer is then false.
  found_in : Walked Bool → Option Bool
  found_in out_of_fuel = none
  found_in (walked found none) = some found
  found_in (walked found (some halted)) = some found
  found_in (walked found (some path_ended)) = some false
  found_in (walked found (some direction_undefined)) = some false
  found_in (walked found (some (other e))) = some false

  unfoldable pub has_indirect_child : ℕ → r.Object → r.Object → Option Bool
  unfolding walk_relationship halt_at found_in
  has_indirect_child fuel host question =
      found_in
        (walk_relationship fuel none 0 traverse_children (halt_at (r.get_id question)) host false)

  unfoldable pub has_indirect_parent : ℕ → r.Object → r.Object → Option Bool
  unfolding walk_relationship halt_at found_in
  has_indirect_parent fuel host question =
      found_in
        (walk_relationship fuel none 0 traverse_parents (halt_at (r.get_id question)) host false)

  unfoldable pub has_child : r.Object → r.Object → Bool
  unfolding any
  has_child host question = any (λ x. str_eq x (r.get_id question)) (r.children_ids host)

  -- The loop is over the IDs of the children here, too.
  unfoldable pub has_parent : r.Object → r.Object → Bool
  unfolding any
  has_parent host question = any (λ x. str_eq x (r.get_id question)) (r.children_ids host)
