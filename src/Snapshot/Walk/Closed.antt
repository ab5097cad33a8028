-- ===== src/Snapshot/Walk/Closed.antt =====
-- All walkers of a build together add both ends of every relationship that they add.
use laforge.Base.{
  ℕ, Bool, true, ◌&&◌, Option, none, some, List, [], ◌∷◌, ◌≡◌, refl, subst, arith, All, inl, inr,
  Bool-cases,
}
use laforge.Base.Eq.{path_eq}
use laforge.Base.Any.{any}
use laforge.Base.Assoc.{same_refl}
use laforge.Metadata.GoPath.{FilePath}
use laforge.Build.{Build, Team}
use laforge.Build.Located.{HoldsFor}
use laforge.Snapshot.Library.{Edge, edge_same_iff}
use laforge.Snapshot.Builder.{Call, object, relationship, Action, call, go, Walker}
use laforge.Snapshot.Tracked.{asks_object, asks_edge}
use laforge.Snapshot.Account.{wants, in_action}
use laforge.Snapshot.Walk.{
  Dependency, walk_provisioned_networks, walk_team, walk_teams, then_call, and_walker, add,
  relate_to, of_team, of_build,
}
use laforge.Snapshot.Walk.Ends.{AddsIn, EndsIn, InAction}
use laforge.Snapshot.Walk.Teams.{
  HostIn, GlobalsIn, IsClosedSomeWalk, walk_provisioned_networks-IsClosed,
}
use laforge.Snapshot.Walk.Objects.{GivesWalk, walk_provisioned_networks-Gives}

module _ (stored : FilePath → Bool) where
  -- What the calls ask to be added is stored, if all that they ask for is.
  adds_calls :
      (cs : List Call)
      → ((i : FilePath) → any (asks_object i) cs ≡ true → stored i ≡ true)
      → All (AddsIn stored) cs
  unfolding any
  adds_calls [] h = tt
  adds_calls (object o ∷ cs) h =
      (h o.path (rw (same_refl o.path) refl), adds_calls cs (λ i e. h i (ground (arith, e))))
  adds_calls (relationship e ∷ cs) h = (tt, adds_calls cs (λ i e. h i (ground (arith, e))))

  adds_walk :
      (w : Walker)
      → ((i : FilePath) → any (in_action (asks_object i)) w ≡ true → stored i ≡ true)
      → All (InAction stored (AddsIn stored)) w
  unfolding any in_action
  adds_walk [] h = tt
  adds_walk (call (object o) ∷ w) h =
      (h o.path (rw (same_refl o.path) refl), adds_walk w (λ i e. h i (ground (arith, e))))
  adds_walk (call (relationship e) ∷ w) h = (tt, adds_walk w (λ i e. h i (ground (arith, e))))
  adds_walk (go cs ∷ w) h =
      (adds_calls cs (λ i e. h i (ground (arith, e))), adds_walk w (λ i e. h i (ground (arith, e))))

  pub adds_walkers :
      (ws : List Walker)
      → ((i : FilePath) → wants (asks_object i) ws ≡ true → stored i ≡ true)
      → All (All (InAction stored (AddsIn stored))) ws
  unfolding any
  adds_walkers [] h = tt
  adds_walkers (w ∷ ws) h = (
    adds_walk w (λ i e. h i (ground (arith, e))),
    adds_walkers ws (λ i e. h i (ground (arith, e))),
  )

  abbrev pub EndsStored : Edge → Type 0
  EndsStored f = (stored f.source && stored f.target) ≡ true

  ends_call : (f : Edge) (c : Call) → EndsIn stored c → asks_edge f c ≡ true → EndsStored f
  ends_call f (object o) a h = ground (arith, h)
  ends_call f (relationship e) a h =
      subst EndsStored ((edge_same_iff e f).0 h) (ground (arith, a.0, a.1))

  ends_calls :
      (f : Edge) (cs : List Call)
      → All (EndsIn stored) cs
      → any (asks_edge f) cs ≡ true
      → EndsStored f
  unfolding any
  ends_calls f [] a h = ground (arith, h)
  ends_calls f (c ∷ cs) a h = elim (Bool-cases (asks_edge f c)) [
    | inl e ↦ ends_call f c a.0 e
    | inr e ↦ ends_calls f cs a.1 (ground (arith, e, h))
  ]

  ends_action :
      (f : Edge) (a : Action)
      → InAction stored (EndsIn stored) a
      → in_action (asks_edge f) a ≡ true
      → EndsStored f
  unfolding in_action
  ends_action f (call c) a h = ends_call f c a h
  ends_action f (go cs) a h = ends_calls f cs a h

  ends_walk :
      (f : Edge) (w : Walker)
      → All (InAction stored (EndsIn stored)) w
      → any (in_action (asks_edge f)) w ≡ true
      → EndsStored f
  unfolding any
  ends_walk f [] a h = ground (arith, h)
  ends_walk f (c ∷ w) a h = elim (Bool-cases (in_action (asks_edge f) c)) [
    | inl e ↦ ends_action f c a.0 e
    | inr e ↦ ends_walk f w a.1 (ground (arith, e, h))
  ]

  pub ends_walkers :
      (f : Edge) (ws : List Walker)
      → All (All (InAction stored (EndsIn stored))) ws
      → wants (asks_edge f) ws ≡ true
      → EndsStored f
  unfolding any
  ends_walkers f [] a h = ground (arith, h)
  ends_walkers f (w ∷ ws) a h = elim (Bool-cases (any (in_action (asks_edge f)) w)) [
    | inl e ↦ ends_walk f w a.0 e
    | inr e ↦ ends_walkers f ws a.1 (ground (arith, e, h))
  ]

  module _ (hash : Dependency → ℕ) where
    team_closed :
        (b : Build) (t : Team) (rest : Option Walker)
        → stored b.id ≡ true
        → GivesWalk stored hash (HoldsFor (HostIn stored hash) t.provisioned_networks) rest
        → (HoldsFor (HostIn stored hash) t.provisioned_networks
            → stored t.id ≡ true
            → IsClosedSomeWalk stored hash rest)
        → IsClosedSomeWalk stored hash
            (then_call hash (add hash (of_team t) ∷ relate_to (of_build b) (of_team t) ∷ []) rest)
    unfolding then_call
    team_closed b t none sb g c = tt
    team_closed b t (some w) sb g c = λ a. (tt, ((sb, a.0), c (g a.1.1) a.0 a.1.1))

    walk_team-IsClosed :
        (b : Build) (t : Team)
        → stored b.id ≡ true
        → GlobalsIn stored hash t.provisioned_networks
        → IsClosedSomeWalk stored hash (walk_team hash b t)
    unfolding walk_team
    walk_team-IsClosed b t sb g =
        team_closed b t (walk_provisioned_networks hash t t.provisioned_networks) sb
          (walk_provisioned_networks-Gives stored hash t t.provisioned_networks)
          (λ h st. walk_provisioned_networks-IsClosed stored hash t t.provisioned_networks h g st)

    -- All walkers, if no host's walker panics.
    abbrev pub AreClosed : Option (List Walker) → Type 0
    AreClosed none = Unit
    AreClosed (some ws) =
        All (All (InAction stored (AddsIn stored))) ws
        → All (All (InAction stored (EndsIn stored))) ws

    and_walker-AreClosed :
        (w : Option Walker) (ws : Option (List Walker))
        → IsClosedSomeWalk stored hash w
        → AreClosed ws
        → AreClosed (and_walker hash w ws)
    unfolding and_walker
    and_walker-AreClosed (some w) (some ws) c cs = λ a. (c a.0, cs a.1)
    and_walker-AreClosed (some w) none c cs = tt
    and_walker-AreClosed none ws c cs = tt

    pub walk_teams-AreClosed :
        (b : Build) (teams : List (FilePath × Team))
        → stored b.id ≡ true
        → All (λ t. GlobalsIn stored hash t.1.provisioned_networks) teams
        → AreClosed (walk_teams hash b teams)
    unfolding walk_teams
    walk_teams-AreClosed b [] sb g = λ a. tt
    walk_teams-AreClosed b ((id, t) ∷ teams) sb g =
        and_walker-AreClosed (walk_team hash b t) (walk_teams hash b teams)
          (walk_team-IsClosed b t sb g.0) (walk_teams-AreClosed b teams sb g.1)
