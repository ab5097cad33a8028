-- ===== src/Included/Pending.antt =====
-- What the loops over the base configuration find.
use laforge.Base.{
  ℕ, Bool, true, false, ◌&&◌, ◌||◌, not, Option, none, some, List, [], ◌∷◌, ◌≡◌, refl, ap, ◌∙◌,
  arith, Bool-cases, inl, inr, if◌then◌else◌,
}
use laforge.Base.Eq.{path_eq, path_same, path_same_iff}
use laforge.Base.Any.{any}
use laforge.Base.Assoc.{lookup, insert, lookup-insert, has_key, same_refl}
use laforge.Base.Unique.{Unique, insert-Unique}
use laforge.Metadata.GoPath.{FilePath}
use laforge.Included.{
  IncludedNetwork, Status, included, resolved, Statuses, Pointers, mark_hosts, mark_networks,
  mark_all_hosts, pending, is_included, resolve, resolve_one, first_included,
}

pending-insert-included :
    (k j : FilePath) (m : Statuses)
    → pending k (insert j included m) ≡ (path_same j k || pending k m)
pending-insert-included k j m =
    ap is_included (lookup-insert j k included m)
    ∙ elim (Bool-cases (path_same j k)) [ inl e ↦ rw e refl | inr e ↦ rw e refl ]

pending-insert-resolved :
    (k j : FilePath) (m : Statuses)
    → pending k (insert j resolved m) ≡ (not (path_same j k) && pending k m)
pending-insert-resolved k j m =
    ap is_included (lookup-insert j k resolved m)
    ∙ elim (Bool-cases (path_same j k)) [ inl e ↦ rw e refl | inr e ↦ rw e refl ]

pending-resolve_one :
    (b : Bool) (k j : FilePath) (o : ℕ) (w : Statuses × Pointers)
    → pending k (resolve_one b j o w).0 ≡ (not (b && path_same j k) && pending k w.0)
unfolding resolve_one
pending-resolve_one true k j o w = ground (arith, pending-insert-resolved k j w.0)
pending-resolve_one false k j o w = ground arith

lookup-resolve_one :
    (b : Bool) (k j : FilePath) (o : ℕ) (w : Statuses × Pointers)
    → lookup k (resolve_one b j o w).1 ≡ (if b && path_same j k then some o else lookup k w.1)
unfolding resolve_one
lookup-resolve_one true k j o w = ground (arith, lookup-insert j k o w.1)
lookup-resolve_one false k j o w = ground arith

has_key-cons :
    (k j : FilePath) (o : ℕ) (objects : Pointers)
    → has_key k ((j, o) ∷ objects) ≡ (path_same j k || has_key k objects)
unfolding lookup
has_key-cons k j o objects = ground arith

lookup-cons :
    (k j : FilePath) (o : ℕ) (objects : Pointers)
    → lookup k ((j, o) ∷ objects) ≡ (if path_same j k then some o else lookup k objects)
unfolding lookup
lookup-cons k j o objects = refl

same_pending : (k j : FilePath) (m : Statuses) → path_same j k ≡ true → pending j m ≡ pending k m
same_pending k j m h = ap (λ i. pending i m) ((path_same_iff j k).0 h)

-- A name is still to be found if no object has it.
pub pending-resolve :
    (k : FilePath) (objects : Pointers) (w : Statuses × Pointers)
    → pending k (resolve objects w).0 ≡ (pending k w.0 && not (has_key k objects))
unfolding resolve
pending-resolve k [] w = ground arith
pending-resolve k ((j, o) ∷ objects) w =
    pending-resolve k objects (resolve_one (pending j w.0) j o w)
    ∙ ground (
      arith,
      pending-resolve_one (pending j w.0) k j o w,
      has_key-cons k j o objects,
      same_pending k j w.0,
    )

-- The objects that are found are those of the names that were to be found.
pub lookup-resolve :
    (k : FilePath) (objects : Pointers) (w : Statuses × Pointers)
    → lookup k (resolve objects w).1
      ≡ (if pending k w.0 && has_key k objects then lookup k objects else lookup k w.1)
unfolding resolve
lookup-resolve k [] w = ground arith
lookup-resolve k ((j, o) ∷ objects) w =
    lookup-resolve k objects (resolve_one (pending j w.0) j o w)
    ∙ ground (
      arith,
      pending-resolve_one (pending j w.0) k j o w,
      lookup-resolve_one (pending j w.0) k j o w,
      has_key-cons k j o objects,
      lookup-cons k j o objects,
      same_pending k j w.0,
    )

-- The names of the included networks, and those of their hosts.
abbrev pub is_network : FilePath → List IncludedNetwork → Bool
is_network k = any (λ n. path_same n.name k)

abbrev pub is_host_of : FilePath → IncludedNetwork → Bool
is_host_of k n = any (λ h. path_same h k) n.hosts

pub pending-mark_networks :
    (k : FilePath) (networks : List IncludedNetwork) (m : Statuses)
    → pending k (mark_networks networks m) ≡ (is_network k networks || pending k m)
unfolding mark_networks any
pending-mark_networks k [] m = refl
pending-mark_networks k (n ∷ networks) m =
    pending-mark_networks k networks (insert n.name included m)
    ∙ ground (arith, pending-insert-included k n.name m)

pending-mark_hosts :
    (k : FilePath) (hosts : List FilePath) (m : Statuses)
    → pending k (mark_hosts hosts m) ≡ (any (λ h. path_same h k) hosts || pending k m)
unfolding mark_hosts any
pending-mark_hosts k [] m = refl
pending-mark_hosts k (h ∷ hosts) m =
    pending-mark_hosts k hosts (insert h included m) ∙ ground (arith, pending-insert-included k h m)

pub pending-mark_all_hosts :
    (k : FilePath) (networks : List IncludedNetwork) (m : Statuses)
    → pending k (mark_all_hosts networks m) ≡ (any (is_host_of k) networks || pending k m)
unfolding mark_all_hosts any
pending-mark_all_hosts k [] m = refl
pending-mark_all_hosts k (n ∷ networks) m =
    pending-mark_all_hosts k networks (mark_hosts n.hosts m)
    ∙ ground (arith, pending-mark_hosts k n.hosts m)

-- The keys stay different.
pub mark_networks-Unique :
    (networks : List IncludedNetwork) (m : Statuses) → Unique m → Unique (mark_networks networks m)
unfolding mark_networks
mark_networks-Unique [] m u = u
mark_networks-Unique (n ∷ networks) m u =
    mark_networks-Unique networks (insert n.name included m) (insert-Unique n.name included m u)

mark_hosts-Unique : (hosts : List FilePath) (m : Statuses) → Unique m → Unique (mark_hosts hosts m)
unfolding mark_hosts
mark_hosts-Unique [] m u = u
mark_hosts-Unique (h ∷ hosts) m u =
    mark_hosts-Unique hosts (insert h included m) (insert-Unique h included m u)

pub mark_all_hosts-Unique :
    (networks : List IncludedNetwork) (m : Statuses) → Unique m → Unique (mark_all_hosts networks m)
unfolding mark_all_hosts
mark_all_hosts-Unique [] m u = u
mark_all_hosts-Unique (n ∷ networks) m u =
    mark_all_hosts-Unique networks (mark_hosts n.hosts m) (mark_hosts-Unique n.hosts m u)

resolve_one-Unique :
    (b : Bool) (j : FilePath) (o : ℕ) (w : Statuses × Pointers)
    → Unique w.0
    → Unique (resolve_one b j o w).0
unfolding resolve_one
resolve_one-Unique true j o w u = insert-Unique j resolved w.0 u
resolve_one-Unique false j o w u = u

pub resolve-Unique :
    (objects : Pointers) (w : Statuses × Pointers) → Unique w.0 → Unique (resolve objects w).0
unfolding resolve
resolve-Unique [] w u = u
resolve-Unique ((j, o) ∷ objects) w u =
    resolve-Unique objects (resolve_one (pending j w.0) j o w)
      (resolve_one-Unique (pending j w.0) j o w u)

pending-cons :
    (k j : FilePath) (s : Status) (m : Statuses)
    → pending k ((j, s) ∷ m) ≡ (if path_same j k then is_included (some s) else pending k m)
unfolding lookup
pending-cons k j s m = elim (Bool-cases (path_same j k)) [ inl e ↦ rw e refl | inr e ↦ rw e refl ]

absent_pending :
    (o : Option Status) → elim o [ none ↦ false | some s ↦ true ] ≡ false → is_included o ≡ false
absent_pending none h = refl
absent_pending (some s) h = ground (arith, h)

-- The last loops find nothing exactly when no name is pending.
pub first_included-none :
    (m : Statuses) (k : FilePath) → first_included m ≡ none → pending k m ≡ false
unfolding first_included lookup
first_included-none [] k h = refl
first_included-none ((j, included) ∷ m) k h = ground (arith, h)
first_included-none ((j, resolved) ∷ m) k h =
    pending-cons k j resolved m ∙ ground (arith, first_included-none m k h)

pub none-first_included :
    (m : Statuses) → Unique m → ((k : FilePath) → pending k m ≡ false) → first_included m ≡ none
unfolding first_included
none-first_included [] u h = refl
none-first_included ((j, included) ∷ m) u h =
    ground (arith, h j, pending-cons j j included m, same_refl j)
none-first_included ((j, resolved) ∷ m) u h = none-first_included m u.1 (λ k.
    ground (
      arith,
      h k,
      pending-cons k j resolved m,
      same_pending k j m,
      absent_pending (lookup j m) u.0,
    ))
