-- ===== src/Planning/Tasks/Order.antt =====
-- The order of the work that core/state.go computes from the tasks by depth.
use laforge.Base.{
  subst, ℕ, true, false, ◌≡◌, sym, ◌∙◌, inl, inr, ◌↔◌, List, [], ◌∷◌, ◌++◌, arith, ◌==◌, In,
  In-append, In-append_left, In-append_right, concat_map, Bool-cases,
}
use mathlib.Core.List.{append_assoc, append-nil}
use laforge.Base.Eq.{path_eq, path_same, path_same_iff, nat_eq, nat_same_iff}
use laforge.Base.Assoc.{lookup, has_key, insert, has_key-insert}
use laforge.Base.Sort.{IsSorted, sort-IsSorted, In-sort}
use laforge.Metadata.GoPath.{FilePath}
use laforge.Planning.Taint.{IdSet}
use laforge.Planning.Tasks.{Tasks, tasks_at, depths, ordered_priorities, add_to_order, global_order}

add_to_order-snd :
    (ids : List FilePath) (t : IdSet) (o : List FilePath) → (add_to_order ids (t, o)).1 ≡ o ++ ids
unfolding add_to_order
add_to_order-snd [] t o = simp append-nil
add_to_order-snd (id ∷ ids) t o =
    add_to_order-snd ids (insert id true t) (o ++ id ∷ []) ∙ simp append_assoc

-- The order lists the tasks of each depth in turn.
pub global_order-concat :
    (tasks : Tasks) (ps : List ℕ) (t : IdSet) (o : List FilePath)
    → (global_order tasks ps (t, o)).1 ≡ o ++ concat_map (λ d. tasks_at d tasks) ps
unfolding global_order
global_order-concat tasks [] t o = simp append-nil
global_order-concat tasks (p ∷ ps) t o =
    let w = add_to_order (tasks_at p tasks) (t, o) in
    global_order-concat tasks ps w.0 w.1
    ∙ rw (add_to_order-snd (tasks_at p tasks) t o) (simp append_assoc)

-- A vertex is in the set exactly when it is in the list.
abbrev pub SameIds : IdSet → List FilePath → Type 0
SameIds t o = (id : FilePath) → (has_key id t ≡ true) ↔ In id o

SameIds-insert :
    (id : FilePath) (t : IdSet) (o : List FilePath)
    → SameIds t o
    → SameIds (insert id true t) (o ++ id ∷ [])
SameIds-insert id t o h j = elim (Bool-cases (path_same id j)) [
  | inl e ↦
      let q : id ≡ j = (path_same_iff id j).0 e in
      (
        λ k. In-append_right j o (id ∷ []) (inl (sym q)),
        λ k. rw (has_key-insert id j true t) (rw e),
      )
  | inr e ↦ (
    λ k. In-append_left j o (id ∷ []) ((h j).0 (ground (arith, has_key-insert id j true t, e, k))),
    λ k. elim (In-append j o (id ∷ []) k) [
      | inl l ↦ ground (arith, has_key-insert id j true t, e, (h j).1 l)
      | inr r ↦ elim r [ inl p ↦ cc ((path_same_iff id j).1 (sym p), e) | inr b ↦ elim b [ ] ]
    ],
  )
]

SameIds-add_to_order :
    (ids : List FilePath) (t : IdSet) (o : List FilePath)
    → SameIds t o
    → SameIds (add_to_order ids (t, o)).0 (add_to_order ids (t, o)).1
unfolding add_to_order
SameIds-add_to_order [] t o h = h
SameIds-add_to_order (id ∷ ids) t o h =
    SameIds-add_to_order ids (insert id true t) (o ++ id ∷ []) (SameIds-insert id t o h)

pub SameIds-global_order :
    (tasks : Tasks) (ps : List ℕ) (t : IdSet) (o : List FilePath)
    → SameIds t o
    → SameIds (global_order tasks ps (t, o)).0 (global_order tasks ps (t, o)).1
unfolding global_order
SameIds-global_order tasks [] t o h = h
SameIds-global_order tasks (p ∷ ps) t o h =
    let w = add_to_order (tasks_at p tasks) (t, o) in
    SameIds-global_order tasks ps w.0 w.1 (SameIds-add_to_order (tasks_at p tasks) t o h)

pub SameIds-empty : SameIds [] []
unfolding lookup
SameIds-empty id = (λ h. cc, λ h. elim h [ ])

tasks_at-skip :
    (tasks : Tasks) (k d : ℕ) (ids : List FilePath)
    → ((k == d) ≡ false)
    → tasks_at d ((k, ids) ∷ tasks) ≡ tasks_at d tasks
unfolding lookup
tasks_at-skip tasks k d ids e = ground (arith, e)

-- Every depth that has tasks is among the priorities.
depths_complete :
    (tasks : Tasks) (d : ℕ) (id : FilePath) → In id (tasks_at d tasks) → In d (depths tasks)
unfolding depths lookup
depths_complete [] d id h = elim h [ ]
depths_complete ((k, ids) ∷ tasks) d id h = elim (Bool-cases (k == d)) [
  | inl e ↦ inl (sym ((nat_same_iff k d).0 e))
  | inr e ↦
      inr (depths_complete tasks d id (subst (λ l. In id l) (tasks_at-skip tasks k d ids e) h))
]

In-concat_map :
    (f : ℕ → List FilePath) (d : ℕ) (ps : List ℕ) (id : FilePath)
    → In d ps
    → In id (f d)
    → In id (concat_map f ps)
In-concat_map f d [] id h k = elim h [ ]
In-concat_map f d (p ∷ ps) id (inl e) k = In-append_left id (f p) (concat_map f ps) (rw (← e) k)
In-concat_map f d (p ∷ ps) id (inr h) k =
    In-append_right id (f p) (concat_map f ps) (In-concat_map f d ps id h k)

-- Every task of every depth is in the order.
pub In-global_order :
    (tasks : Tasks) (d : ℕ) (id : FilePath)
    → In id (tasks_at d tasks)
    → In id (concat_map (λ k. tasks_at k tasks) (ordered_priorities tasks))
unfolding ordered_priorities
In-global_order tasks d id h =
    In-concat_map (λ k. tasks_at k tasks) d _ id
      (In-sort d (depths tasks) (depths_complete tasks d id h)) h

pub ordered_priorities-IsSorted : (tasks : Tasks) → IsSorted (ordered_priorities tasks)
unfolding ordered_priorities
ordered_priorities-IsSorted tasks = sort-IsSorted (depths tasks)
