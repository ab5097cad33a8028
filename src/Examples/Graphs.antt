-- ===== src/Examples/Graphs.antt =====
-- Graphs and sets of edges as lists, for the examples. The graphs of the examples have no edge that a
-- longer way replaces, and their reduction keeps all edges.
use laforge.Base.{
  Bool, true, false, ◌||◌, ◌&&◌, not, List, [], ◌∷◌, ◌≡◌, refl, ap, arith, if◌then◌else◌,
}
use laforge.Base.Eq.{path_same, path_same_iff}
use laforge.Base.Any.{any}
use laforge.Metadata.GoPath.{FilePath}
use laforge.Snapshot.Library.{GraphLibrary, Edge, edge_same, edge_same_iff}

unfoldable pub without : {A : Type 0} → (A → Bool) → List A → List A
without drop [] = []
without drop (x ∷ xs) = if drop x then without drop xs else x ∷ without drop xs

pub any-without :
    {A : Type 0} (holds drop : A → Bool) (dropped : Bool) (xs : List A)
    → ((x : A) → holds x ≡ true → drop x ≡ dropped)
    → any holds (without drop xs) ≡ (not dropped && any holds xs)
unfolding without any
any-without holds drop dropped [] h = ground arith
any-without holds drop dropped (x ∷ xs) h = ground (arith, h x, any-without holds drop dropped xs h)

pub any_cons :
    {A : Type 0} (holds : A → Bool) (x : A) (xs : List A)
    → any holds (x ∷ xs) ≡ (holds x || any holds xs)
unfolding any
any_cons holds x xs = refl

pub no_vertex : (i : FilePath) → any (λ j. path_same j i) [] ≡ false
unfolding any
no_vertex i = refl

pub no_edge : (f : Edge) → any (λ e. edge_same e f) [] ≡ false
unfolding any
no_edge f = refl

abbrev pub Lists : Type 0
Lists = List FilePath × List Edge

pub same_edge : (e f x : Edge) → edge_same x f ≡ true → edge_same e x ≡ edge_same e f
same_edge e f x h = ap (edge_same e) ((edge_same_iff x f).0 h)

pub same_path : (j i x : FilePath) → path_same x i ≡ true → path_same j x ≡ path_same j i
same_path j i x h = ap (path_same j) ((path_same_iff x i).0 h)

abbrev pub touches : FilePath → Edge → Bool
touches j e = path_same j e.source || path_same j e.target

pub same_touch : (j : FilePath) (f x : Edge) → edge_same x f ≡ true → touches j x ≡ touches j f
same_touch j f x h = ap (touches j) ((edge_same_iff x f).0 h)

unfoldable pub list_graphs : GraphLibrary
list_graphs = record {
  Graph = Lists;
  empty = ([], []);
  add = λ j g. (j ∷ g.0, g.1);
  connect = λ e g. (g.0, e ∷ g.1);
  remove_edge = λ e g. (g.0, without (edge_same e) g.1);
  remove = λ j g. (without (path_same j) g.0, without (touches j) g.1);
  has_vertex = λ i g. any (λ j. path_same j i) g.0;
  has_edge = λ f g. any (λ e. edge_same e f) g.1;
  transitive_reduction = λ g. g;
  has_vertex-transitive_reduction = λ i g. refl;
  has_edge-transitive_reduction = λ f g h. h;
  transitive_reduction-Leads = λ i j g a. (λ l. l, λ l. l);
  has_vertex-empty = no_vertex;
  has_edge-empty = no_edge;
  has_vertex-add = λ i j g. any_cons (λ j. path_same j i) j g.0;
  has_edge-add = λ f j g. refl;
  has_vertex-connect = λ i e g. refl;
  has_edge-connect = λ f e g. any_cons (λ e. edge_same e f) e g.1;
  has_vertex-remove_edge = λ i e g. refl;
  has_edge-remove_edge =
      λ f e g. any-without (λ x. edge_same x f) (edge_same e) (edge_same e f) g.1 (same_edge e f);
  has_vertex-remove =
      λ i j g. any-without (λ x. path_same x i) (path_same j) (path_same j i) g.0 (same_path j i);
  has_edge-remove =
      λ f j g. any-without (λ x. edge_same x f) (touches j) (touches j f) g.1 (same_touch j f);
  Set = List Edge;
  new_set = [];
  add_element = λ e s. e ∷ s;
  contains = λ f s. any (λ e. edge_same e f) s;
  iter = λ s. s;
  contains-new_set = no_edge;
  contains-add_element = λ f e s. any_cons (λ e. edge_same e f) e s;
  contains-iter = λ f s. refl;
}
