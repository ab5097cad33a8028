-- ===== src/Included/Gather.antt =====
-- The loop of `ResolveIncludedNetworks` that collects the hosts of the included networks.
use laforge.Base.{
  ℕ, Bool, true, false, Option, none, some, List, [], ◌∷◌, ◌++◌, ◌≡◌, refl, ap, subst, All,
}
use laforge.Base.Eq.{path_eq}
use laforge.Base.Assoc.{lookup, insert}
use laforge.Metadata.GoPath.{FilePath}
use laforge.Included.{
  IncludedNetwork, Pointers, Environment, Resolution, found, unknown_host, index_failed, no_network,
  no_host, ◌>>=◌, index_host, index_result, hosts_or_nil, gather, gather_all, none_left,
}

pub >>=-eq-found :
    {X Y : Type 0} (first : Resolution X) (f : X → Resolution Y) {out : Y}
    → (first >>= f) ≡ found out
    → (x : X) × (first ≡ found x) × (f x ≡ found out)
>>=-eq-found (found x) f h = (x, refl, h)
>>=-eq-found (unknown_host k) f h = cc
>>=-eq-found (index_failed k) f h = cc
>>=-eq-found (no_network k) f h = cc
>>=-eq-found (no_host k) f h = cc

pub none_left-eq-found :
    (error : FilePath → Resolution Environment) (o : Option FilePath)
    (rest : Resolution Environment) (e : Environment)
    → ((k : FilePath) → ¬ (error k ≡ found e))
    → none_left error o rest ≡ found e
    → (o ≡ none) × (rest ≡ found e)
unfolding none_left
none_left-eq-found error none rest e never h = (refl, h)
none_left-eq-found error (some k) rest e never h = elim (never k h) [ ]

module _ (indexes : ℕ → Bool) where
  -- The host is in the map, and it can be indexed.
  abbrev pub Indexes : Pointers → FilePath → Type 0
  Indexes hosts h = (p : ℕ) × (lookup h hosts ≡ some p) × (indexes p ≡ true)

  -- All hosts of the included networks.
  abbrev pub AllIndex : Pointers → List IncludedNetwork → Type 0
  AllIndex hosts = All (λ n. All (Indexes hosts) n.hosts)

  index_result-Indexes :
      (b : Bool) (h : FilePath) (q p : ℕ)
      → indexes q ≡ b
      → index_result indexes b h q ≡ found p
      → (some q ≡ some p) × (indexes p ≡ true)
  unfolding index_result
  index_result-Indexes true h q p i e =
      let same : q ≡ p = cc in (ap some same, subst (λ n. indexes n ≡ true) same i)
  index_result-Indexes false h q p i e = cc

  index_host-Indexes :
      (h : FilePath) (o : Option ℕ) (p : ℕ)
      → index_host indexes h o ≡ found p
      → (o ≡ some p) × (indexes p ≡ true)
  unfolding index_host
  index_host-Indexes h none p e = cc
  index_host-Indexes h (some q) p e = index_result-Indexes (indexes q) h q p refl e

  gather-Indexes :
      (hosts : Pointers) (name : FilePath) (hs : List FilePath) (m m' : List (FilePath × List ℕ))
      → gather indexes hosts name hs m ≡ found m'
      → All (Indexes hosts) hs
  unfolding gather
  gather-Indexes hosts name [] m m' e = tt
  gather-Indexes hosts name (h ∷ hs) m m' e =
      let (p, e1, e2) = >>=-eq-found (index_host indexes h (lookup h hosts)) _ e in
      let (l, i) = index_host-Indexes h (lookup h hosts) p e1 in
      ((p, l, i), gather-Indexes hosts name hs _ m' e2)

  pub gather_all-AllIndex :
      (hosts : Pointers) (networks : List IncludedNetwork) (m m' : List (FilePath × List ℕ))
      → gather_all indexes hosts networks m ≡ found m'
      → AllIndex hosts networks
  unfolding gather_all
  gather_all-AllIndex hosts [] m m' e = tt
  gather_all-AllIndex hosts (n ∷ networks) m m' e =
      let (m1, e1, e2) = >>=-eq-found (gather indexes hosts n.name n.hosts m) _ e in
      (gather-Indexes hosts n.name n.hosts m m1 e1, gather_all-AllIndex hosts networks m1 m' e2)

  Indexes-gather :
      (hosts : Pointers) (name : FilePath) (hs : List FilePath) (m : List (FilePath × List ℕ))
      → All (Indexes hosts) hs
      → (m' : List (FilePath × List ℕ)) × (gather indexes hosts name hs m ≡ found m')
  unfolding gather index_host index_result
  Indexes-gather hosts name [] m a = (m, refl)
  Indexes-gather hosts name (h ∷ hs) m ((p, l, i), a) =
      let (m', e) =
        Indexes-gather hosts name hs
          (insert name (hosts_or_nil indexes (lookup name m) ++ p ∷ []) m) a in
      (m', rw (l, i) e)

  pub AllIndex-gather_all :
      (hosts : Pointers) (networks : List IncludedNetwork) (m : List (FilePath × List ℕ))
      → AllIndex hosts networks
      → (m' : List (FilePath × List ℕ)) × (gather_all indexes hosts networks m ≡ found m')
  unfolding gather_all
  AllIndex-gather_all hosts [] m a = (m, refl)
  AllIndex-gather_all hosts (n ∷ networks) m (a, b) =
      let (m1, e1) = Indexes-gather hosts n.name n.hosts m a in
      let (m', e2) = AllIndex-gather_all hosts networks m1 b in (m', rw e1 e2)
