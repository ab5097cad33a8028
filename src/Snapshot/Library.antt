-- ===== src/Snapshot/Library.antt =====
-- What core/snapshot.go uses of other projects' code: terraform's `dag.AcyclicGraph` and the sets of
-- golang-set. The laws are what the two document.
use laforge.Base.{Bool, true, false, ◌||◌, ◌&&◌, not, List, ◌≡◌, ◌↔◌, arith}
use laforge.Base.Eq.{path_same, path_same_iff}
use laforge.Base.Any.{any}
use laforge.Metadata.GoPath.{FilePath}

-- core/snapshot.go
pub record Edge : Type 0 where
  pub source : FilePath
  pub target : FilePath

unfoldable pub edge_same : Edge → Edge → Bool
edge_same e f = path_same e.source f.source && path_same e.target f.target

pub edge_same_iff : (e f : Edge) → (edge_same e f ≡ true) ↔ (e ≡ f)
unfolding edge_same
edge_same_iff e f = ground (arith, path_same_iff e.source f.source, path_same_iff e.target f.target)

-- A way of one or more edges.
pub data Leads (linked : Edge → Bool) (i : FilePath) : FilePath → Type 0 where
  along : {j : FilePath} → linked (record { source = i; target = j }) ≡ true → Leads linked i j
  onward :
      {j k : FilePath}
      → Leads linked i j
      → linked (record { source = j; target = k }) ≡ true
      → Leads linked i k

abbrev pub IsAcyclic : (Edge → Bool) → Type 0
IsAcyclic linked = (i : FilePath) → ¬ (Leads linked i i)

pub Leads-mono :
    {p q : Edge → Bool} {i j : FilePath}
    → ((f : Edge) → p f ≡ true → q f ≡ true)
    → Leads p i j
    → Leads q i j
Leads-mono h (along e) = along (h _ e)
Leads-mono h (onward l e) = onward (Leads-mono h l) (h _ e)

pub record GraphLibrary : Type 1 where
  pub Graph : Type 0
  pub empty : Graph
  pub add : FilePath → Graph → Graph
  pub connect : Edge → Graph → Graph
  pub remove_edge : Edge → Graph → Graph
  pub remove : FilePath → Graph → Graph
  pub has_vertex : FilePath → Graph → Bool
  pub has_edge : Edge → Graph → Bool
  pub transitive_reduction : Graph → Graph
  pub has_vertex-transitive_reduction :
      (i : FilePath) (g : Graph) → has_vertex i (transitive_reduction g) ≡ has_vertex i g
  pub has_edge-transitive_reduction :
      (f : Edge) (g : Graph) → has_edge f (transitive_reduction g) ≡ true → has_edge f g ≡ true
  pub transitive_reduction-Leads :
      (i j : FilePath) (g : Graph)
      → IsAcyclic (λ f. has_edge f g)
      → Leads (λ f. has_edge f (transitive_reduction g)) i j ↔ Leads (λ f. has_edge f g) i j
  pub has_vertex-empty : (i : FilePath) → has_vertex i empty ≡ false
  pub has_edge-empty : (f : Edge) → has_edge f empty ≡ false
  pub has_vertex-add :
      (i j : FilePath) (g : Graph) → has_vertex i (add j g) ≡ (path_same j i || has_vertex i g)
  pub has_edge-add : (f : Edge) (j : FilePath) (g : Graph) → has_edge f (add j g) ≡ has_edge f g
  pub has_vertex-connect :
      (i : FilePath) (e : Edge) (g : Graph) → has_vertex i (connect e g) ≡ has_vertex i g
  pub has_edge-connect :
      (f e : Edge) (g : Graph) → has_edge f (connect e g) ≡ (edge_same e f || has_edge f g)
  pub has_vertex-remove_edge :
      (i : FilePath) (e : Edge) (g : Graph) → has_vertex i (remove_edge e g) ≡ has_vertex i g
  pub has_edge-remove_edge :
      (f e : Edge) (g : Graph)
      → has_edge f (remove_edge e g) ≡ (not (edge_same e f) && has_edge f g)
  pub has_vertex-remove :
      (i j : FilePath) (g : Graph)
      → has_vertex i (remove j g) ≡ (not (path_same j i) && has_vertex i g)
  pub has_edge-remove :
      (f : Edge) (j : FilePath) (g : Graph)
      → has_edge f (remove j g)
        ≡ (not (path_same j f.source || path_same j f.target) && has_edge f g)
  pub Set : Type 0
  pub new_set : Set
  pub add_element : Edge → Set → Set
  pub contains : Edge → Set → Bool
  pub iter : Set → List Edge
  pub contains-new_set : (f : Edge) → contains f new_set ≡ false
  pub contains-add_element :
      (f e : Edge) (s : Set) → contains f (add_element e s) ≡ (edge_same e f || contains f s)
  pub contains-iter : (f : Edge) (s : Set) → contains f s ≡ any (λ e. edge_same e f) (iter s)
