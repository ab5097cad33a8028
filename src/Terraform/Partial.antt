-- ===== src/Terraform/Partial.antt =====
-- core/planner.go: the terraform commands while the order of a plan is read.
use laforge.Base.{
  Bool, true, false, ◌≡◌, refl, sym, ◌∙◌, ◌⊎◌, inl, inr, Option, none, some, List, [], ◌∷◌, ◌++◌,
  All, arith, Bool-cases, Option-cases, subst,
}
use laforge.Base.Eq.{path_eq, path_same, path_same_iff}
use laforge.Base.Assoc.{lookup, has_key, insert, lookup-insert, has_key-insert, same_refl}
use laforge.Metadata.GoPath.{FilePath, join}
use laforge.Metadata.{TeamIdResult, team_id, failure, get_team_id_from_path, type_by_path}
use laforge.Terraform.{
  Command, refresh, apply, taint, Conn, PHost, Inputs, requires_tf, Needs, commands_of, start_with,
  start_team, add_command, taint_alterego, taint_conn, mark_applying, need_host, is_phost,
  need_for_team, need_for, collect_needs,
}

abbrev pub IsTaint : Command → Type 0
IsTaint (taint r) = Unit
IsTaint _ = ⊥

-- A refresh, then taints.
abbrev pub IsBody : List Command → Type 0
IsBody [] = ⊥
IsBody (refresh ∷ cs) = All IsTaint cs
IsBody (_ ∷ cs) = ⊥

-- A refresh, then taints, then at most one apply.
abbrev pub IsSequence : List Command → Type 0
IsSequence cs = IsBody cs ⊎ ((body : List Command) × IsBody body × (cs ≡ body ++ apply ∷ []))

All-taint : (r : FilePath) (cs : List Command) → All IsTaint cs → All IsTaint (cs ++ taint r ∷ [])
All-taint r [] h = (tt, tt)
All-taint r (c ∷ cs) h = (h.0, All-taint r cs h.1)

IsBody-taint : (r : FilePath) (cs : List Command) → IsBody cs → IsBody (cs ++ taint r ∷ [])
IsBody-taint r [] h = elim h [ ]
IsBody-taint r (refresh ∷ cs) h = All-taint r cs h
IsBody-taint r (apply ∷ cs) h = elim h [ ]
IsBody-taint r (taint q ∷ cs) h = elim h [ ]

-- While the order is read: each team that is known has a body, and a team to apply is known.
abbrev pub Bodies : Needs → Type 0
Bodies n = (tid : FilePath) (cs : List Command) → lookup tid n.commands ≡ some cs → IsBody cs

insert-Bodies :
    (n : Needs) (tid : FilePath) (cs : List Command)
    → IsBody cs
    → Bodies n
    → Bodies (record n { commands = insert tid cs n.commands })
insert-Bodies n tid cs h b j ds e = elim (Bool-cases (path_same tid j)) [
  | inl c ↦
      let p : cs ≡ ds = ground (arith, lookup-insert tid j cs n.commands, e, c) in subst IsBody p h
  | inr c ↦ b j ds (ground (arith, lookup-insert tid j cs n.commands, e, c))
]

commands_of-some :
    (n : Needs) (tid : FilePath) (cs : List Command)
    → lookup tid n.commands ≡ some cs
    → commands_of tid n.commands ≡ cs
unfolding commands_of
commands_of-some n tid cs e = ground (arith, e)

pub commands_of-none :
    (n : Needs) (tid : FilePath) → lookup tid n.commands ≡ none → commands_of tid n.commands ≡ []
unfolding commands_of
commands_of-none n tid e = ground (arith, e)

pub commands_of-known :
    (n : Needs) (tid : FilePath)
    → Bodies n
    → has_key tid n.commands ≡ true
    → IsBody (commands_of tid n.commands)
commands_of-known n tid b k = elim (Option-cases (lookup tid n.commands)) [
  | inl e ↦ ground (arith, e, k)
  | inr (cs, e) ↦ subst IsBody (sym (commands_of-some n tid cs e)) (b tid cs e)
]

-- The keys of a map differ.
abbrev pub Unique : List (FilePath × Bool) → Type 0
Unique [] = Unit
Unique ((k, b) ∷ m) = (has_key k m ≡ false) × Unique m

insert-Unique : (k : FilePath) (m : List (FilePath × Bool)) → Unique m → Unique (insert k true m)
unfolding insert lookup
insert-Unique k [] u = (refl, tt)
insert-Unique k ((j, b) ∷ m) u = elim (Bool-cases (path_same j k)) [
  | inl c ↦ rw c (ground (arith, (path_same_iff j k).0 c, u.0), u.1)
  | inr c ↦ rw c (
    has_key-insert k j true m ∙ ground (arith, path_same_iff k j, path_same_iff j k, c, u.0),
    insert-Unique k m u.1,
  )
]

-- What holds of the needs while the order is read.
pub record IsPartial (n : Needs) : Type 0 where
  pub bodies : Bodies n
  pub marked : (tid : FilePath) → has_key tid n.applying ≡ true → has_key tid n.commands ≡ true
  pub unique : Unique n.applying

abbrev Ready : FilePath → Needs → Type 0
Ready tid n = IsPartial n × (has_key tid n.commands ≡ true)

put-Ready :
    (n : Needs) (tid : FilePath) (cs : List Command)
    → IsBody cs
    → IsPartial n
    → Ready tid (record n { commands = insert tid cs n.commands })
put-Ready n tid cs h p = (
  record {
    bodies = insert-Bodies n tid cs h p.bodies;
    marked = λ j k. ground (arith, has_key-insert tid j cs n.commands, p.marked j k);
    unique = p.unique;
  },
  has_key-insert tid tid cs n.commands ∙ rw (same_refl tid) refl,
)

add_taint-Ready :
    (n : Needs) (tid r : FilePath) → Ready tid n → Ready tid (add_command tid (taint r) n)
unfolding add_command
add_taint-Ready n tid r (p, k) =
    put-Ready n tid (commands_of tid n.commands ++ taint r ∷ [])
      (IsBody-taint r (commands_of tid n.commands) (commands_of-known n tid p.bodies k)) p

start_with-Ready :
    (n : Needs) (tid : FilePath) (cs : List Command)
    → commands_of tid n.commands ≡ cs
    → IsPartial n
    → Ready tid (start_with tid cs n)
unfolding start_with
start_with-Ready n tid [] e p = put-Ready n tid (refresh ∷ []) tt p
start_with-Ready n tid (c ∷ cs) e p = (
  p,
  elim (Option-cases (lookup tid n.commands)) [
    | inl k ↦ let q = commands_of-none n tid k in cc
    | inr (ds, k) ↦ ground (arith, k)
  ],
)

start_team-Ready : (n : Needs) (tid : FilePath) → IsPartial n → Ready tid (start_team tid n)
unfolding start_team
start_team-Ready n tid p = start_with-Ready n tid (commands_of tid n.commands) refl p

taint_alterego-Ready :
    (n : Needs) (tid : FilePath) (h : PHost) (o : Option Conn)
    → Ready tid n
    → Ready tid (taint_alterego tid h o n)
unfolding taint_alterego
taint_alterego-Ready n tid h none r = r
taint_alterego-Ready n tid h (some a) r =
    elim (Bool-cases (path_same a.resource_name (join h.path ("conn" ∷ [])))) [
      | inl e ↦ rw e r
      | inr e ↦ rw e (add_taint-Ready n tid a.resource_name r)
    ]

taint_conn-Ready :
    (n : Needs) (tid : FilePath) (o : Option Conn) → Ready tid n → Ready tid (taint_conn tid o n)
unfolding taint_conn
taint_conn-Ready n tid none r = r
taint_conn-Ready n tid (some c) r = elim (Bool-cases (path_same c.resource_name c.path)) [
  | inl e ↦ rw e r
  | inr e ↦ rw e (add_taint-Ready n tid c.resource_name r)
]

mark_applying-IsPartial :
    (n : Needs) (tid : FilePath) → Ready tid n → IsPartial (mark_applying tid n)
unfolding mark_applying
mark_applying-IsPartial n tid (p, k) = record {
  bodies = p.bodies;
  marked = λ j h. elim (Bool-cases (path_same tid j)) [
    | inl e ↦ subst (λ i. has_key i n.commands ≡ true) ((path_same_iff tid j).0 e) k
    | inr e ↦ p.marked j (ground (arith, has_key-insert tid j true n.applying, e, h))
  ];
  unique = insert-Unique tid n.applying p.unique;
}

need_host-IsPartial :
    (i : Inputs) (tid : FilePath) (o : Option (Option PHost)) (n m : Needs)
    → Ready tid n
    → need_host i tid o n ≡ some m
    → IsPartial m
unfolding need_host
need_host-IsPartial i tid none n m r e = cc
need_host-IsPartial i tid (some none) n m r e = let p : n ≡ m = cc in subst IsPartial p r.0
need_host-IsPartial i tid (some (some h)) n m r e =
    let o = lookup (join h.path ("conn" ∷ [])) i.connections in
    let tainted = taint_alterego tid h o n in
    let final = mark_applying tid (taint_conn tid h.conn tainted) in
    let q : final ≡ m = cc in
    subst IsPartial q (
      mark_applying-IsPartial (taint_conn tid h.conn tainted) tid
        (taint_conn-Ready tainted tid h.conn (taint_alterego-Ready n tid h o r)))

need_for_team-IsPartial :
    (i : Inputs) (x : FilePath) (t : TeamIdResult) (n m : Needs)
    → IsPartial n
    → need_for_team i x t n ≡ some m
    → IsPartial m
unfolding need_for_team
need_for_team-IsPartial i x (failure f) n m p e = let q : n ≡ m = cc in subst IsPartial q p
need_for_team-IsPartial i x (team_id tid) n m p e =
    let r = start_team-Ready n tid p in
    elim (Bool-cases (is_phost (type_by_path x))) [
      | inl c ↦
          let s : need_for_team i x (team_id tid) n
              ≡ need_host i tid (i.host_of x) (start_team tid n) =
            rw c refl in
          need_host-IsPartial i tid (i.host_of x) (start_team tid n) m r (sym s ∙ e)
      | inr c ↦
          let s : need_for_team i x (team_id tid) n ≡ some (start_team tid n) = rw c refl in
          let q : start_team tid n ≡ m = cc in subst IsPartial q r.0
    ]

need_for-IsPartial :
    (i : Inputs) (x : FilePath) (n m : Needs) → IsPartial n → need_for i x n ≡ some m → IsPartial m
unfolding need_for
need_for-IsPartial i x n m p e = elim (Bool-cases (requires_tf (type_by_path x))) [
  | inl c ↦
      let s : need_for i x n ≡ need_for_team i x (get_team_id_from_path x) n = rw c refl in
      need_for_team-IsPartial i x (get_team_id_from_path x) n m p (sym s ∙ e)
  | inr c ↦ let s : need_for i x n ≡ some n = rw c refl in let q : n ≡ m = cc in subst IsPartial q p
]

abbrev collect_next : Inputs → List FilePath → Option Needs → Option Needs
collect_next i order o = elim o [ none ↦ none | some m ↦ collect_needs i order m ]

pub collect_needs-IsPartial :
    (i : Inputs) (order : List FilePath) (n m : Needs)
    → IsPartial n
    → collect_needs i order n ≡ some m
    → IsPartial m
unfolding collect_needs
collect_needs-IsPartial i [] n m p e = let q : n ≡ m = cc in subst IsPartial q p
collect_needs-IsPartial i (x ∷ order) n m p e = elim (Option-cases (need_for i x n)) [
  | inl k ↦ let s = subst (λ o. collect_next i order o ≡ some m) k e in cc
  | inr (l, k) ↦
      collect_needs-IsPartial i order l m (need_for-IsPartial i x n l p k)
        (subst (λ o. collect_next i order o ≡ some m) k e)
]
