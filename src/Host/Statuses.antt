-- ===== src/Host/Statuses.antt =====
-- The statuses that `Host.Index` of core/host.go leaves as included.
use laforge.Base.{
  ℕ, String, false, ◌≡◌, refl, sym, ap, ◌∙◌, ◌⊎◌, inl, inr, Option, none, some, List, [], ◌∷◌, In,
  arith, Bool-cases, str_eq, eq_iff,
}
use laforge.Base.Eq.{string_eq}
use laforge.Base.Assoc.{lookup, insert, lookup-insert}
use laforge.Base.Unique.{Unique, insert-Unique}
use laforge.Host.{
  ObjectType, included, script, command, remote_file, dns_record, Objects, Statuses, Library,
  is_included, include_all, resolve_one, resolve, first_unmet, resolved,
}
use laforge.Host.Resolved.{at, resolved_at, at-resolve, Seen}

-- Which names have a status at all.
include_all-only :
    (steps : List String) (iprov : Statuses) (s : String) (st : ObjectType)
    → lookup s (include_all steps iprov) ≡ some st
    → In s steps ⊎ (lookup s iprov ≡ some st)
unfolding include_all
include_all-only [] iprov s st h = inr h
include_all-only (x ∷ steps) iprov s st h =
    elim (include_all-only steps (insert x included iprov) s st h) [
      | inl i ↦ inl (inr i)
      | inr e ↦ elim (Bool-cases (str_eq x s)) [
        | inl c ↦ inl (inl (sym ((eq_iff x s).0 c)))
        | inr c ↦ inr (ground (arith, lookup-insert x s included iprov, e, c))
      ]
    ]

include_all-Unique :
    (steps : List String) (iprov : Statuses) → Unique iprov → Unique (include_all steps iprov)
unfolding include_all
include_all-Unique [] iprov u = u
include_all-Unique (x ∷ steps) iprov u =
    include_all-Unique steps (insert x included iprov) (insert-Unique x included iprov u)

resolve_one-Unique :
    (kind : ObjectType) (name : String) (o : ℕ) (st : Option ObjectType) (w : Statuses × Objects)
    → Unique w.0
    → Unique (resolve_one kind name o st w).0
unfolding resolve_one
resolve_one-Unique kind name o none w u = u
resolve_one-Unique kind name o (some st) w u = elim (Bool-cases (is_included st)) [
  | inl c ↦ rw c (insert-Unique name kind w.0 u)
  | inr c ↦ rw c u
]

resolve-Unique :
    (kind : ObjectType) (objects : Objects) (w : Statuses × Objects)
    → Unique w.0
    → Unique (resolve kind objects w).0
unfolding resolve
resolve-Unique kind [] w u = u
resolve-Unique kind ((name, o) ∷ objects) w u =
    resolve-Unique kind objects (resolve_one kind name o (lookup name w.0) w)
      (resolve_one-Unique kind name o (lookup name w.0) w u)

pub resolved-Unique : (base : Library) (steps : List String) → Unique (resolved base steps).0
unfolding resolved
resolved-Unique base steps = resolve-Unique dns_record base.dns_records _ (
    resolve-Unique remote_file base.remote_files _ (
      resolve-Unique command base.commands _
        (resolve-Unique script base.scripts _ (include_all-Unique steps [] tt))))

pub first_unmet-In :
    (iprov : Statuses) (x : String) → first_unmet iprov ≡ some x → In (x, included) iprov
unfolding first_unmet
first_unmet-In [] x h = cc
first_unmet-In ((y, included) ∷ iprov) x h =
    let p : y ≡ x = cc in inl (ap (λ z. (z, included)) (sym p))
first_unmet-In ((y, script) ∷ iprov) x h = inr (first_unmet-In iprov x h)
first_unmet-In ((y, command) ∷ iprov) x h = inr (first_unmet-In iprov x h)
first_unmet-In ((y, remote_file) ∷ iprov) x h = inr (first_unmet-In iprov x h)
first_unmet-In ((y, dns_record) ∷ iprov) x h = inr (first_unmet-In iprov x h)

-- No loop makes a status included.
resolved_at-included :
    (kind : ObjectType) (q : Option ℕ) (x : Seen)
    → is_included kind ≡ false
    → (resolved_at kind q x).0 ≡ some included
    → x.0 ≡ some included
resolved_at-included kind none x h e = e
resolved_at-included kind (some o) (none, f) h e = e
resolved_at-included kind (some o) (some included, f) h e = refl
resolved_at-included kind (some o) (some script, f) h e = e
resolved_at-included kind (some o) (some command, f) h e = e
resolved_at-included kind (some o) (some remote_file, f) h e = e
resolved_at-included kind (some o) (some dns_record, f) h e = e

resolve-included :
    (kind : ObjectType) (objects : Objects) (s : String) (w : Statuses × Objects)
    → is_included kind ≡ false
    → lookup s (resolve kind objects w).0 ≡ some included
    → lookup s w.0 ≡ some included
resolve-included kind objects s w h e =
    resolved_at-included kind (lookup s objects) (at s w) h
      (sym (ap (λ x. x.0) (at-resolve kind objects s w h)) ∙ e)

pub resolved-included :
    (base : Library) (steps : List String) (s : String)
    → lookup s (resolved base steps).0 ≡ some included
    → In s steps
unfolding resolved lookup
resolved-included base steps s e =
    let w0 : Statuses × Objects = (include_all steps [], []) in
    let w1 = resolve script base.scripts w0 in
    let w2 = resolve command base.commands (w1.0, []) in
    let w3 = resolve remote_file base.remote_files (w2.0, []) in
    let e3 = resolve-included dns_record base.dns_records s (w3.0, []) refl e in
    let e2 = resolve-included remote_file base.remote_files s (w2.0, []) refl e3 in
    let e1 = resolve-included command base.commands s (w1.0, []) refl e2 in
    let e0 = resolve-included script base.scripts s w0 refl e1 in
    elim (include_all-only steps [] s included e0) [ inl i ↦ i | inr k ↦ cc ]
