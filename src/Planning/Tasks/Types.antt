-- ===== src/Planning/Tasks/Types.antt =====
-- The types of the tasks that core/state.go computes.
use laforge.Base.{
  ℕ, true, false, ◌≡◌, refl, sym, ap, ◌∙◌, inl, inr, Option, none, some, List, [], ◌∷◌, ◌++◌, arith,
  ◌==◌, In, In-append_left, In-append_right, Bool-cases, if◌then◌else◌, subst,
}
use laforge.Base.Eq.{path_eq, path_same, path_same_iff, nat_eq, nat_same_iff}
use laforge.Base.Assoc.{lookup, has_key, insert, lookup-insert, lookup-insert_self, same_refl}
use laforge.Metadata.GoPath.{FilePath}
use laforge.Metadata.{is_global_type}
use laforge.Revision.{RevMod, rebuild, Metadata}
use laforge.Planning.Dag.{ok, >>=-eq-ok}
use laforge.Planning.Tasks.{
  Tasks, TaskTypes, tasks_at, Inputs, Action, action_at, action_from, action_added,
  action_persisted, action_kept, stored_action, collect, add_task,
}

-- Every entry of the metastore is stored under its own ID.
abbrev pub IsWellKeyed : List (FilePath × Metadata) → Type 0
IsWellKeyed store = (id : FilePath) (m : Metadata) → lookup id store ≡ some m → m.id ≡ id

pub IsWellKeyed-empty : IsWellKeyed []
unfolding lookup
IsWellKeyed-empty id m h = cc

pub IsWellKeyed-cons :
    (k : FilePath) (m : Metadata) (store : List (FilePath × Metadata))
    → m.id ≡ k
    → IsWellKeyed store
    → IsWellKeyed ((k, m) ∷ store)
unfolding lookup
IsWellKeyed-cons k m store e w id n h = elim (Bool-cases (path_same k id)) [
  | inl c ↦
      let p : m ≡ n = ground (arith, h, c) in ap (λ x. x.id) (sym p) ∙ e ∙ (path_same_iff k id).0 c
  | inr c ↦ w id n (ground (arith, h, c))
]

stored_action-key :
    (id key : FilePath) (o : Option RevMod) (a : RevMod)
    → stored_action id o ≡ some (key, a)
    → key ≡ id
unfolding stored_action
stored_action-key id key none a h = cc
stored_action-key id key (some b) a h = cc

action_kept-key :
    (i : Inputs) (id key : FilePath) (base target : Metadata) (a : RevMod)
    → action_kept i id base target ≡ some (key, a)
    → key ≡ id
unfolding action_kept
action_kept-key i id key base target a h =
    ground (arith, stored_action-key id key (lookup target.id i.delta) a, h)

action_added-key :
    (i : Inputs) (id key : FilePath) (o : Option Metadata) (a : RevMod)
    → IsWellKeyed i.target
    → lookup id i.target ≡ o
    → action_added i id o ≡ some (key, a)
    → key ≡ id
unfolding action_added
action_added-key i id key none a k e h = cc
action_added-key i id key (some m) a k e h = ground (arith, k id m e, h)

action_persisted-key :
    (i : Inputs) (id key : FilePath) (base : Metadata) (o : Option Metadata) (a : RevMod)
    → action_persisted i id base o ≡ ok (some (key, a))
    → key ≡ id
unfolding action_persisted
action_persisted-key i id key base none a h = cc
action_persisted-key i id key base (some m) a h = action_kept-key i id key base m a cc

action_from-key :
    (i : Inputs) (id key : FilePath) (o : Option Metadata) (a : RevMod)
    → IsWellKeyed i.target
    → action_from i id o ≡ ok (some (key, a))
    → key ≡ id
unfolding action_from
action_from-key i id key none a k h = action_added-key i id key (lookup id i.target) a k refl cc
action_from-key i id key (some base) a k h =
    action_persisted-key i id key base (lookup id i.target) a h

action_at-key :
    (i : Inputs) (id key : FilePath) (a : RevMod)
    → IsWellKeyed i.target
    → action_at i id ≡ ok (some (key, a))
    → key ≡ id
unfolding action_at
action_at-key i id key a k h = action_from-key i id key (lookup id i.base) a k h

-- The type of a vertex is not overwritten by another.
add_task-keeps :
    (i : Inputs) (id j : FilePath) (d : ℕ) (x : Action) (a : RevMod) (w : Tasks × TaskTypes)
    → IsWellKeyed i.target
    → action_at i id ≡ ok x
    → action_at i j ≡ ok (some (j, a))
    → lookup j w.1 ≡ some a
    → lookup j (add_task id d x w).1 ≡ some a
unfolding add_task
add_task-keeps i id j d none a w k e f h = h
add_task-keeps i id j d (some (key, b)) a w k e f h =
    let p : key ≡ id = action_at-key i id key b k e in
    elim (Bool-cases (path_same key j)) [
      | inl s ↦
          let q : key ≡ j = (path_same_iff key j).0 s in
          let r : b ≡ a = cc in lookup-insert key j b w.1 ∙ (rw s (ap some r))
      | inr s ↦ lookup-insert key j b w.1 ∙ rw s h
    ]

tasks_at-insert :
    (d k : ℕ) (ids : List FilePath) (tasks : Tasks)
    → tasks_at k (insert d ids tasks) ≡ (if d == k then ids else tasks_at k tasks)
tasks_at-insert d k ids tasks = ground (arith, lookup-insert d k ids tasks)

-- A task stays in the list of its depth when that list, or another, grows.
In-grow :
    (j : FilePath) (d k : ℕ) (ids : List FilePath) (tasks : Tasks)
    → (In j (tasks_at d tasks) → In j ids)
    → In j (tasks_at k tasks)
    → In j (tasks_at k (insert d ids tasks))
In-grow j d k ids tasks f h =
    subst (λ l. In j l) (sym (tasks_at-insert d k ids tasks))
      (elim (Bool-cases (d == k)) [
        | inl e ↦
            let q : d ≡ k = (nat_same_iff d k).0 e in
            rw e (f (subst (λ n. In j (tasks_at n tasks)) (sym q) h))
        | inr e ↦ rw e h
      ])

add_task-In :
    (id j : FilePath) (d k : ℕ) (x : Action) (w : Tasks × TaskTypes)
    → In j (tasks_at k w.0)
    → In j (tasks_at k (add_task id d x w).0)
unfolding add_task
add_task-In id j d k none w h = In-grow j d k (tasks_at d w.0) w.0 (λ l. l) h
add_task-In id j d k (some x) w h =
    In-grow j d k (tasks_at d w.0 ++ id ∷ []) w.0
      (λ l. In-append_left j (tasks_at d w.0) (id ∷ []) l) h

-- What the walk has written is still there at its end.
collect-keeps :
    (i : Inputs) (vs : List (FilePath × ℕ)) (j : FilePath) (d : ℕ) (a : RevMod)
    (w out : Tasks × TaskTypes)
    → IsWellKeyed i.target
    → action_at i j ≡ ok (some (j, a))
    → collect i vs w ≡ ok out
    → In j (tasks_at d w.0)
    → lookup j w.1 ≡ some a
    → In j (tasks_at d out.0) × (lookup j out.1 ≡ some a)
unfolding collect
collect-keeps i [] j d a w out k f e h l =
    let p : w ≡ out = cc in subst (λ o. In j (tasks_at d o.0) × (lookup j o.1 ≡ some a)) p (h, l)
collect-keeps i ((id, n) ∷ vs) j d a w out k f e h l =
    let (x, p, q) = >>=-eq-ok (action_at i id) _ e in
    collect-keeps i vs j d a (add_task id n x w) out k f q (add_task-In id j n d x w h)
      (add_task-keeps i id j n x a w k p f l)

add_task_self :
    (id : FilePath) (d : ℕ) (a : RevMod) (w : Tasks × TaskTypes)
    → In id (tasks_at d (add_task id d (some (id, a)) w).0)
      × (lookup id (add_task id d (some (id, a)) w).1 ≡ some a)
unfolding add_task
add_task_self id d a w = (
  subst (λ l. In id l) (sym (tasks_at-insert d d (tasks_at d w.0 ++ id ∷ []) w.0))
      (rw (same_refl d) (In-append_right id (tasks_at d w.0) (id ∷ []) (inl refl))),
  lookup-insert_self id a w.1,
)

collect-head :
    (i : Inputs) (vs : List (FilePath × ℕ)) (id : FilePath) (d : ℕ) (a : RevMod)
    (w out : Tasks × TaskTypes)
    → IsWellKeyed i.target
    → action_at i id ≡ ok (some (id, a))
    → collect i ((id, d) ∷ vs) w ≡ ok out
    → In id (tasks_at d out.0) × (lookup id out.1 ≡ some a)
unfolding collect
collect-head i vs id d a w out k f e =
    let (x, p, q) = >>=-eq-ok (action_at i id) _ e in
    let r : x ≡ some (id, a) = cc in
    let q' = subst (λ y. collect i vs (add_task id d y w) ≡ ok out) r q in
    let (l, t) = add_task_self id d a w in
    collect-keeps i vs id d a (add_task id d (some (id, a)) w) out k f q' l t

-- A vertex of the walk whose action is a task is listed at its depth, with that action.
pub collect_complete :
    (i : Inputs) (vs : List (FilePath × ℕ)) (id : FilePath) (d : ℕ) (a : RevMod)
    (w out : Tasks × TaskTypes)
    → IsWellKeyed i.target
    → action_at i id ≡ ok (some (id, a))
    → collect i vs w ≡ ok out
    → In (id, d) vs
    → In id (tasks_at d out.0) × (lookup id out.1 ≡ some a)
unfolding collect
collect_complete i [] id d a w out k f e h = elim h [ ]
collect_complete i ((j, n) ∷ vs) id d a w out k f e (inr h) =
    let (x, p, q) = >>=-eq-ok (action_at i j) _ e in
    collect_complete i vs id d a (add_task j n x w) out k f q h
collect_complete i ((j, n) ∷ vs) id d a w out k f e (inl h) =
    collect-head i vs id d a w out k f (subst (λ v. collect i (v ∷ vs) w ≡ ok out) (sym h) e)

-- A vertex of the lineage that both snapshots have, and that is not global, is rebuilt.
pub action_at-lineage :
    (i : Inputs) (id : FilePath) (base target : Metadata)
    → lookup id i.base ≡ some base
    → lookup id i.target ≡ some target
    → has_key id i.lineage ≡ true
    → is_global_type id ≡ false
    → action_at i id ≡ ok (some (id, rebuild))
unfolding action_at action_from action_persisted action_kept
action_at-lineage i id base target hb ht hl hg = rw hb (rw ht (rw hl (rw hg refl)))
