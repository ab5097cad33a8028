-- ===== src/Examples/Snapshots.antt =====
-- Building a snapshot: two objects with a relationship, and a build with one team.
use laforge.Base.{
  ◌≤◌, true, false, ◌&&◌, List, [], ◌∷◌, ◌≡◌, sym, ◌∙◌, refl, subst, ap, arith, Bool-cases, inl,
  inr,
}
use laforge.Base.Eq.{path_same, path_same_iff}
use laforge.Base.Any.{any}
use laforge.Snapshot.Library.{Edge, edge_same, edge_same_iff, Leads, along, onward, IsAcyclic}
use laforge.Metadata.GoPath.{FilePath}
use laforge.Snapshot.{root, rebuild_graph}
use laforge.Snapshot.Load.{total, walker_weight, weight}
use laforge.Snapshot.Builder.{
  capacity, Walker, Run, Reach, here, start, done, object, relationship, call, finish_graph,
}
use laforge.Snapshot.Tracked.{asks_object, asks_edge}
use laforge.Snapshot.Links.{touches_root}
use laforge.Snapshot.Account.{wants, in_action}
use laforge.Snapshot.Complete.{IsSnapshotOf, done-IsSnapshotOf}
use laforge.Snapshot.Rebuild.{IsRebuilt, rebuild_graph-IsRebuilt}
use laforge.Snapshot.Live.{can_end}
use laforge.Examples.Graphs.{list_graphs}

abbrev env_edge : Edge
env_edge = record { source = "" ∷ "envs" ∷ "dev" ∷ []; target = "" ∷ "envs" ∷ "dev" ∷ "tf" ∷ [] }

abbrev two_objects : List Walker
two_objects =
    (call (object (record { path = env_edge.source; hash = 3 }))
      ∷ call (object (record { path = env_edge.target; hash = 4 }))
      ∷ call (relationship env_edge)
      ∷ [])
    ∷ []

two_objects_closed :
    (f : Edge)
    → wants (asks_edge f) two_objects ≡ true
    → (wants (asks_object f.source) two_objects && wants (asks_object f.target) two_objects) ≡ true
unfolding any in_action path_same
two_objects_closed f h =
    subst
      (λ g.
        (wants (asks_object g.source) two_objects && wants (asks_object g.target) two_objects)
        ≡ true)
      ((edge_same_iff env_edge f).0 (ground (arith, h))) refl

root_apart : touches_root env_edge ≡ false
unfolding path_same
root_apart = refl

two_objects_apart : (f : Edge) → touches_root f ≡ true → wants (asks_edge f) two_objects ≡ false
unfolding any in_action
two_objects_apart f h = elim (Bool-cases (edge_same env_edge f)) [
  | inl e ↦
      let same_touch = ap touches_root ((edge_same_iff env_edge f).0 e) in
      ground (arith, h, root_apart, same_touch)
  | inr e ↦ ground (arith, e)
]

no_root_object : wants (asks_object root) two_objects ≡ false
unfolding any in_action path_same
no_root_object = refl

few_calls : total two_objects ≤ capacity
unfolding total walker_weight weight
few_calls = omega arith

-- Its one relationship leads from the environment to the build, and nowhere else.
two_objects_edge :
    (i j : FilePath)
    → wants (asks_edge (record { source = i; target = j })) two_objects ≡ true
    → (i ≡ env_edge.source) × (j ≡ env_edge.target)
unfolding any in_action
two_objects_edge i j e =
    let same = (edge_same_iff env_edge (record { source = i; target = j })).0 (ground (arith, e)) in
    (sym (ap (λ f. f.source) same), sym (ap (λ f. f.target) same))

two_objects_ways :
    {i j : FilePath}
    → Leads (λ f. wants (asks_edge f) two_objects) i j
    → (i ≡ env_edge.source) × (j ≡ env_edge.target)
two_objects_ways (along e) = two_objects_edge _ _ e
two_objects_ways (onward l e) = ((two_objects_ways l).0, (two_objects_edge _ _ e).1)

apart : path_same env_edge.source env_edge.target ≡ false
unfolding path_same
apart = refl

two_objects-IsAcyclic : IsAcyclic (λ f. wants (asks_edge f) two_objects)
two_objects-IsAcyclic i l =
    let (s, t) = two_objects_ways l in
    ground (arith, apart, (path_same_iff env_edge.source env_edge.target).1 (sym s ∙ t))

abbrev end_of_two :
    (t : Run list_graphs) × Reach list_graphs (start list_graphs two_objects) t × (t.phase ≡ done)
end_of_two =
    can_end list_graphs two_objects (start list_graphs two_objects) two_objects_closed few_calls
      here

can_end_example :
    (t : Run list_graphs) × Reach list_graphs (start list_graphs two_objects) t × (t.phase ≡ done)
can_end_example =
    can_end list_graphs two_objects (start list_graphs two_objects) two_objects_closed few_calls
      here

done-IsSnapshotOf_example :
    IsSnapshotOf list_graphs two_objects (finish_graph list_graphs end_of_two.0.snapshot)
done-IsSnapshotOf_example =
    done-IsSnapshotOf list_graphs two_objects end_of_two.1 end_of_two.2 no_root_object
      two_objects_apart two_objects-IsAcyclic

rebuild_graph-IsRebuilt_example :
    IsRebuilt list_graphs
      (finish_graph list_graphs end_of_two.0.snapshot)
      (rebuild_graph list_graphs (finish_graph list_graphs end_of_two.0.snapshot))
rebuild_graph-IsRebuilt_example =
    rebuild_graph-IsRebuilt list_graphs two_objects end_of_two.0 end_of_two.1 end_of_two.2
      no_root_object two_objects_apart two_objects-IsAcyclic
