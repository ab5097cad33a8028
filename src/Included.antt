-- ===== src/Included.antt =====
-- `ResolveIncludedNetworks` of core/environment.go: the networks and hosts that an environment
-- includes are looked up in the base configuration. A number stands for a pointer.
pub mod Pending
pub mod Gather
pub mod Resolves
pub mod Contents
use laforge.Base.{ℕ, Bool, true, false, Option, none, some, List, [], ◌∷◌, ◌++◌, if◌then◌else◌}
use laforge.Base.Eq.{path_eq}
use laforge.Base.Assoc.{lookup, insert}
use laforge.Metadata.GoPath.{FilePath}

-- core/network.go
pub record IncludedNetwork : Type 0 where
  pub name : FilePath
  pub hosts : List FilePath

pub data Status : Type 0 where
  included resolved : Status

abbrev pub Statuses : Type 0
Statuses = List (FilePath × Status)

abbrev pub Pointers : Type 0
Pointers = List (FilePath × ℕ)

pub record Environment : Type 0 where
  pub networks : List IncludedNetwork
  pub included_networks : Pointers
  pub included_hosts : Pointers
  pub host_by_network : List (FilePath × List ℕ)

pub data Resolution (X : Type 0) : Type 0 where
  unknown_host : FilePath → Resolution X
  index_failed : FilePath → Resolution X
  no_network : FilePath → Resolution X
  no_host : FilePath → Resolution X
  found : X → Resolution X

infixl 5 ◌>>=◌
abbrev pub ◌>>=◌ : {X Y : Type 0} → Resolution X → (X → Resolution Y) → Resolution Y
unknown_host h >>= f = unknown_host h
index_failed h >>= f = index_failed h
no_network n >>= f = no_network n
no_host h >>= f = no_host h
found x >>= f = f x

-- The first loop: what is to be found, and an empty list of hosts for each network.
mark_hosts : List FilePath → Statuses → Statuses
unfolding insert
mark_hosts [] ihost = ihost
mark_hosts (h ∷ hosts) ihost = mark_hosts hosts (insert h included ihost)

pub mark_networks : List IncludedNetwork → Statuses → Statuses
unfolding insert
mark_networks [] inet = inet
mark_networks (n ∷ networks) inet = mark_networks networks (insert n.name included inet)

pub mark_all_hosts : List IncludedNetwork → Statuses → Statuses
unfolding mark_hosts
mark_all_hosts [] ihost = ihost
mark_all_hosts (n ∷ networks) ihost = mark_all_hosts networks (mark_hosts n.hosts ihost)

pub empty_lists : List IncludedNetwork → List (FilePath × List ℕ) → List (FilePath × List ℕ)
unfolding insert
empty_lists [] m = m
empty_lists (n ∷ networks) m = empty_lists networks (insert n.name [] m)

-- Is the name still to be found?
abbrev pub is_included : Option Status → Bool
is_included none = false
is_included (some included) = true
is_included (some resolved) = false

abbrev pub pending : FilePath → Statuses → Bool
pending name statuses = is_included (lookup name statuses)

-- One of the two loops over the objects of the base configuration.
resolve_one : Bool → FilePath → ℕ → Statuses × Pointers → Statuses × Pointers
unfolding insert
resolve_one true name object (statuses, objects) =
    (insert name resolved statuses, insert name object objects)
resolve_one false name object w = w

pub resolve : Pointers → Statuses × Pointers → Statuses × Pointers
unfolding resolve_one lookup
resolve [] w = w
resolve ((name, object) ∷ objects) w =
    resolve objects (resolve_one (pending name w.0) name object w)

-- The last two loops.
pub first_included : Statuses → Option FilePath
first_included [] = none
first_included ((name, included) ∷ statuses) = some name
first_included ((name, resolved) ∷ statuses) = first_included statuses

pub none_left :
    (FilePath → Resolution Environment)
    → Option FilePath
    → Resolution Environment
    → Resolution Environment
none_left error none rest = rest
none_left error (some name) rest = error name

module _ (indexes : ℕ → Bool) where
  -- `indexes` says whether `host.Index(base)` succeeds.
  index_result : Bool → FilePath → ℕ → Resolution ℕ
  index_result true h host = found host
  index_result false h host = index_failed h

  pub index_host : FilePath → Option ℕ → Resolution ℕ
  unfolding index_result
  index_host h none = unknown_host h
  index_host h (some host) = index_result (indexes host) h host

  hosts_or_nil : Option (List ℕ) → List ℕ
  hosts_or_nil none = []
  hosts_or_nil (some hosts) = hosts

  pub gather :
      Pointers
      → FilePath
      → List FilePath
      → List (FilePath × List ℕ)
      → Resolution (List (FilePath × List ℕ))
  unfolding index_host hosts_or_nil lookup insert
  gather hosts name [] m = found m
  gather hosts name (h ∷ hs) m = index_host h (lookup h hosts) >>= λ host.
      gather hosts name hs (insert name (hosts_or_nil (lookup name m) ++ host ∷ []) m)

  pub gather_all :
      Pointers
      → List IncludedNetwork
      → List (FilePath × List ℕ)
      → Resolution (List (FilePath × List ℕ))
  unfolding gather
  gather_all hosts [] m = found m
  gather_all hosts (n ∷ networks) m =
      gather hosts n.name n.hosts m >>= λ m'. gather_all hosts networks m'

  unfoldable pub resolve_included_networks :
      Pointers → Pointers → Environment → Resolution Environment
  unfolding mark_networks mark_all_hosts empty_lists resolve gather_all first_included none_left
  resolve_included_networks networks hosts e =
      let (inet, included_networks) = resolve networks (mark_networks e.networks [], []) in
      let (ihost, included_hosts) = resolve hosts (mark_all_hosts e.networks [], []) in
      gather_all included_hosts e.networks (empty_lists e.networks []) >>= λ host_by_network.
      none_left no_network (first_included inet) (
        none_left no_host (first_included ihost) (
          found (record e {
            included_networks = included_networks;
            included_hosts = included_hosts;
            host_by_network = host_by_network;
          })))
