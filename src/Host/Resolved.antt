-- ===== src/Host/Resolved.antt =====
-- What the four loops of `Host.Index` of core/host.go make of the name of one step.
use laforge.Base.{
  ℕ, String, false, ◌≡◌, refl, sym, ap, ◌∙◌, inl, inr, Option, none, some, List, [], ◌∷◌, In, arith,
  Bool-cases, subst, str_eq, eq_iff,
}
use laforge.Base.Eq.{string_eq}
use laforge.Base.Assoc.{lookup, insert, lookup-insert, lookup-insert_self}
use laforge.Host.{
  ObjectType, included, script, command, remote_file, dns_record, Objects, Statuses, Library,
  Provisioner, script_of, command_of, remote_file_of, dns_record_of, is_included, include_all,
  resolve_one, resolve, provisioner_for, resolved,
}

-- What a step resolves to: the first of the four kinds that has an object of its name.
abbrev after_dns : Option ℕ → Option Provisioner
after_dns none = none
after_dns (some o) = some (dns_record_of (some o))

abbrev after_file : Option ℕ → Option Provisioner → Option Provisioner
after_file none rest = rest
after_file (some o) rest = some (remote_file_of (some o))

abbrev after_command : Option ℕ → Option Provisioner → Option Provisioner
after_command none rest = rest
after_command (some o) rest = some (command_of (some o))

abbrev after_script : Option ℕ → Option Provisioner → Option Provisioner
after_script none rest = rest
after_script (some o) rest = some (script_of (some o))

abbrev pub provisioner_named : Library → String → Option Provisioner
provisioner_named base s = after_script (lookup s base.scripts) (
    after_command (lookup s base.commands)
      (after_file (lookup s base.remote_files) (after_dns (lookup s base.dns_records))))

-- Status and object of a name.
abbrev pub at : String → Statuses × Objects → Option ObjectType × Option ℕ
at s w = (lookup s w.0, lookup s w.1)

abbrev pub resolved_at :
    ObjectType → Option ℕ → Option ObjectType × Option ℕ → Option ObjectType × Option ℕ
resolved_at kind (some o) (some included, found) = (some kind, some o)
resolved_at kind _ x = x

resolve_one_other :
    (kind : ObjectType) (name s : String) (o : ℕ) (st : Option ObjectType) (w : Statuses × Objects)
    → str_eq name s ≡ false
    → at s (resolve_one kind name o st w) ≡ at s w
unfolding resolve_one
resolve_one_other kind name s o none w c = refl
resolve_one_other kind name s o (some st) w c =
    ground (arith, lookup-insert name s kind w.0, lookup-insert name s o w.1, c)

resolve_one_self :
    (kind : ObjectType) (s : String) (o : ℕ) (st : Option ObjectType) (w : Statuses × Objects)
    → lookup s w.0 ≡ st
    → at s (resolve_one kind s o st w) ≡ resolved_at kind (some o) (at s w)
unfolding resolve_one
resolve_one_self kind s o none w e = rw e refl
resolve_one_self kind s o (some included) w e =
    rw e (ground (arith, lookup-insert_self s kind w.0, lookup-insert_self s o w.1))
resolve_one_self kind s o (some script) w e = rw e refl
resolve_one_self kind s o (some command) w e = rw e refl
resolve_one_self kind s o (some remote_file) w e = rw e refl
resolve_one_self kind s o (some dns_record) w e = rw e refl

-- A name is resolved once.
resolved_at-twice :
    (kind : ObjectType) (o : ℕ) (x : Option ObjectType × Option ℕ)
    → is_included kind ≡ false
    → (q : Option ℕ)
    → resolved_at kind q (resolved_at kind (some o) x) ≡ resolved_at kind (some o) x
resolved_at-twice kind o x h none = refl
resolved_at-twice kind o (none, f) h (some p) = refl
resolved_at-twice kind o (some script, f) h (some p) = refl
resolved_at-twice kind o (some command, f) h (some p) = refl
resolved_at-twice kind o (some remote_file, f) h (some p) = refl
resolved_at-twice kind o (some dns_record, f) h (some p) = refl
resolved_at-twice included o (some included, f) h (some p) = cc
resolved_at-twice script o (some included, f) h (some p) = refl
resolved_at-twice command o (some included, f) h (some p) = refl
resolved_at-twice remote_file o (some included, f) h (some p) = refl
resolved_at-twice dns_record o (some included, f) h (some p) = refl

pub at-resolve :
    (kind : ObjectType) (objects : Objects) (s : String) (w : Statuses × Objects)
    → is_included kind ≡ false
    → at s (resolve kind objects w) ≡ resolved_at kind (lookup s objects) (at s w)
unfolding resolve lookup
at-resolve kind [] s w h = refl
at-resolve kind ((name, o) ∷ objects) s w h = elim (Bool-cases (str_eq name s)) [
  | inl c ↦
      let q : name ≡ s = (eq_iff name s).0 c in
      rw c (
        at-resolve kind objects s (resolve_one kind name o (lookup name w.0) w) h
        ∙ ap (resolved_at kind (lookup s objects)) (
            subst
              (λ n.
                at s (resolve_one kind n o (lookup n w.0) w) ≡ resolved_at kind (some o) (at s w))
              (sym q) (resolve_one_self kind s o (lookup s w.0) w refl))
        ∙ resolved_at-twice kind o (at s w) h (lookup s objects))
  | inr c ↦ rw c (
      at-resolve kind objects s (resolve_one kind name o (lookup name w.0) w) h
      ∙ ap (resolved_at kind (lookup s objects))
          (resolve_one_other kind name s o (lookup name w.0) w c))
]

-- Every step starts as included.
include_all-keeps :
    (steps : List String) (iprov : Statuses) (s : String)
    → lookup s iprov ≡ some included
    → lookup s (include_all steps iprov) ≡ some included
unfolding include_all
include_all-keeps [] iprov s h = h
include_all-keeps (x ∷ steps) iprov s h =
    include_all-keeps steps (insert x included iprov) s
      (ground (arith, lookup-insert x s included iprov, h))

lookup-include_all :
    (steps : List String) (iprov : Statuses) (s : String)
    → In s steps
    → lookup s (include_all steps iprov) ≡ some included
unfolding include_all
lookup-include_all [] iprov s h = elim h [ ]
lookup-include_all (x ∷ steps) iprov s (inl e) =
    include_all-keeps steps (insert x included iprov) s (
      subst (λ y. lookup y (insert x included iprov) ≡ some included) (sym e)
        (lookup-insert_self x included iprov))
lookup-include_all (x ∷ steps) iprov s (inr h) =
    lookup-include_all steps (insert x included iprov) s h

-- The provisioner by the status and the objects found.
abbrev pick : Option ObjectType → Option ℕ → Option ℕ → Option ℕ → Option ℕ → Option Provisioner
pick (some script) a b c d = some (script_of a)
pick (some command) a b c d = some (command_of b)
pick (some remote_file) a b c d = some (remote_file_of c)
pick (some dns_record) a b c d = some (dns_record_of d)
pick (some included) a b c d = none
pick none a b c d = none

provisioner_for-pick :
    (own : Library) (s : String) (st : Option ObjectType)
    → provisioner_for own s st
      ≡ pick st
          (lookup s own.scripts)
          (lookup s own.commands)
          (lookup s own.remote_files)
          (lookup s own.dns_records)
unfolding provisioner_for
provisioner_for-pick own s none = refl
provisioner_for-pick own s (some included) = refl
provisioner_for-pick own s (some script) = refl
provisioner_for-pick own s (some command) = refl
provisioner_for-pick own s (some remote_file) = refl
provisioner_for-pick own s (some dns_record) = refl

-- The four loops on one name.
abbrev pub Seen : Type 0
Seen = Option ObjectType × Option ℕ

abbrev by_script : Option ℕ → Seen
by_script a = resolved_at script a (some included, none)

abbrev by_command : Option ℕ → Option ℕ → Seen
by_command a b = resolved_at command b ((by_script a).0, none)

abbrev by_file : Option ℕ → Option ℕ → Option ℕ → Seen
by_file a b c = resolved_at remote_file c ((by_command a b).0, none)

abbrev by_dns : Option ℕ → Option ℕ → Option ℕ → Option ℕ → Seen
by_dns a b c d = resolved_at dns_record d ((by_file a b c).0, none)

pick-first :
    (a b c d : Option ℕ)
    → pick
        (by_dns a b c d).0
        (by_script a).1
        (by_command a b).1
        (by_file a b c).1
        (by_dns a b c d).1
      ≡ after_script a (after_command b (after_file c (after_dns d)))
pick-first (some a) none none none = refl
pick-first (some a) none none (some d) = refl
pick-first (some a) none (some c) none = refl
pick-first (some a) none (some c) (some d) = refl
pick-first (some a) (some b) none none = refl
pick-first (some a) (some b) none (some d) = refl
pick-first (some a) (some b) (some c) none = refl
pick-first (some a) (some b) (some c) (some d) = refl
pick-first none (some b) none none = refl
pick-first none (some b) none (some d) = refl
pick-first none (some b) (some c) none = refl
pick-first none (some b) (some c) (some d) = refl
pick-first none none (some c) none = refl
pick-first none none (some c) (some d) = refl
pick-first none none none (some d) = refl
pick-first none none none none = refl

pick-seen :
    (a b c d : Option ℕ) (A B C D : Seen)
    → A ≡ by_script a
    → B ≡ resolved_at command b (A.0, none)
    → C ≡ resolved_at remote_file c (B.0, none)
    → D ≡ resolved_at dns_record d (C.0, none)
    → pick D.0 A.1 B.1 C.1 D.1 ≡ after_script a (after_command b (after_file c (after_dns d)))
pick-seen a b c d A B C D ea eb ec ed =
    let eb' : B ≡ by_command a b = eb ∙ ap (λ x. resolved_at command b (x.0, none)) ea in
    let ec' : C ≡ by_file a b c = ec ∙ ap (λ x. resolved_at remote_file c (x.0, none)) eb' in
    let ed' : D ≡ by_dns a b c d = ed ∙ ap (λ x. resolved_at dns_record d (x.0, none)) ec' in
    ap (λ x. pick x.0 A.1 B.1 C.1 x.1) ed'
    ∙ ap (λ x. pick (by_dns a b c d).0 A.1 B.1 x.1 (by_dns a b c d).1) ec'
    ∙ ap (λ x. pick (by_dns a b c d).0 A.1 x.1 (by_file a b c).1 (by_dns a b c d).1) eb'
    ∙ ap (λ x. pick (by_dns a b c d).0 x.1 (by_command a b).1 (by_file a b c).1 (by_dns a b c d).1)
        ea
    ∙ pick-first a b c d

-- The last loop gives a step what it resolves to.
pub resolved-provisioner :
    (base : Library) (steps : List String) (s : String)
    → In s steps
    → provisioner_for (resolved base steps).1 s (lookup s (resolved base steps).0)
      ≡ provisioner_named base s
unfolding resolved lookup
resolved-provisioner base steps s h =
    let w = resolved base steps in
    let w0 : Statuses × Objects = (include_all steps [], []) in
    let w1 = resolve script base.scripts w0 in
    let w2 = resolve command base.commands (w1.0, []) in
    let w3 = resolve remote_file base.remote_files (w2.0, []) in
    let w4 = resolve dns_record base.dns_records (w3.0, []) in
    provisioner_for-pick w.1 s (lookup s w.0)
    ∙ pick-seen (lookup s base.scripts) (lookup s base.commands) (lookup s base.remote_files)
        (lookup s base.dns_records) (at s w1) (at s w2) (at s w3) (at s w4)
        (at-resolve script base.scripts s w0 refl
          ∙ ap (λ x. resolved_at script (lookup s base.scripts) (x, none))
              (lookup-include_all steps [] s h))
        (at-resolve command base.commands s (w1.0, []) refl)
        (at-resolve remote_file base.remote_files s (w2.0, []) refl)
        (at-resolve dns_record base.dns_records s (w3.0, []) refl)
