-- ===== src/Host/Index.antt =====
-- `Host.Index` of core/host.go against a direct description of what each step resolves to.
use laforge.Base.{
  String, ◌≡◌, refl, sym, ap, ◌∙◌, inl, inr, Option, none, some, List, [], ◌∷◌, ◌++◌, In,
  Option-cases, subst,
}
use mathlib.Core.List.{append_assoc, append-nil}
use laforge.Base.Eq.{string_eq}
use laforge.Base.Assoc.{lookup}
use laforge.Base.Unique.{In-lookup}
use laforge.Host.{
  included, Statuses, Library, Provisioner, Host, first_unmet, provisioner_for, order_steps,
  finish_index, resolved, index,
}
use laforge.Host.Resolved.{provisioner_named, resolved-provisioner}
use laforge.Host.Statuses.{resolved-Unique, first_unmet-In, resolved-included}

-- What the steps resolve to, in order, if they all do.
abbrev cons_named : Option Provisioner → Option (List Provisioner) → Option (List Provisioner)
cons_named (some p) (some ps) = some (p ∷ ps)
cons_named _ _ = none

abbrev pub provisioners_named : Library → List String → Option (List Provisioner)
provisioners_named base [] = some []
provisioners_named base (s ∷ steps) =
    cons_named (provisioner_named base s) (provisioners_named base steps)

-- Each of the steps finds in the maps what it resolves to.
abbrev Finds : Library → Library → Statuses → List String → Type 0
Finds base own iprov steps =
    (s : String) → In s steps → provisioner_for own s (lookup s iprov) ≡ provisioner_named base s

-- The host and the unmet step after the last loop.
abbrev next_step :
    Statuses → List String → String → Host → Option Provisioner → Host × Option String
next_step iprov steps s h o = elim o [
  | none ↦ (h, some s)
  | some p ↦ order_steps iprov steps (record h { provisioners = h.provisioners ++ p ∷ [] })
]

order_steps_sound :
    (base : Library) (iprov : Statuses) (steps : List String) (h : Host)
    → Finds base h.own iprov steps
    → (order_steps iprov steps h).1 ≡ none
    → (ps : List Provisioner) × (provisioners_named base steps ≡ some ps)
      × ((order_steps iprov steps h).0.provisioners ≡ h.provisioners ++ ps)
unfolding order_steps
order_steps_sound base iprov [] h f e = ([], refl, sym (append-nil h.provisioners))
order_steps_sound base iprov (s ∷ steps) h f e =
    let fs = f s (inl refl) in
    elim (Option-cases (provisioner_named base s)) [
      | inl k ↦ let e' = subst (λ o. (next_step iprov steps s h o).1 ≡ none) (fs ∙ k) e in cc
      | inr (p, k) ↦
          let e' = subst (λ o. (next_step iprov steps s h o).1 ≡ none) (fs ∙ k) e in
          let (ps, q, r) =
            order_steps_sound base iprov steps
              (record h { provisioners = h.provisioners ++ p ∷ [] }) (λ t i. f t (inr i)) e' in
          (
            p ∷ ps,
            ap (λ o. cons_named o (provisioners_named base steps)) k ∙ ap (cons_named (some p)) q,
            ap (λ o. (next_step iprov steps s h o).0.provisioners) (fs ∙ k)
                ∙ r
                ∙ append_assoc h.provisioners (p ∷ []) ps,
          )
    ]

order_steps_complete :
    (base : Library) (iprov : Statuses) (steps : List String) (h : Host) (ps : List Provisioner)
    → Finds base h.own iprov steps
    → provisioners_named base steps ≡ some ps
    → (order_steps iprov steps h).1 ≡ none
unfolding order_steps
order_steps_complete base iprov [] h ps f e = refl
order_steps_complete base iprov (s ∷ steps) h ps f e =
    let fs = f s (inl refl) in
    elim (Option-cases (provisioner_named base s)) [
      | inl k ↦
          let e' = subst (λ o. cons_named o (provisioners_named base steps) ≡ some ps) k e in cc
      | inr (p, k) ↦ elim (Option-cases (provisioners_named base steps)) [
        | inl n ↦
            let e' = subst (λ o. cons_named o (provisioners_named base steps) ≡ some ps) k e in
            let e'' = subst (λ o. cons_named (some p) o ≡ some ps) n e' in cc
        | inr (qs, n) ↦
            ap (λ o. (next_step iprov steps s h o).1) (fs ∙ k)
            ∙ order_steps_complete base iprov steps
                (record h { provisioners = h.provisioners ++ p ∷ [] }) qs (λ t i. f t (inr i)) n
      ]
    ]

-- A resolved step is not left as included.
In-named :
    (base : Library) (steps : List String) (ps : List Provisioner) (s : String)
    → provisioners_named base steps ≡ some ps
    → In s steps
    → (p : Provisioner) × (provisioner_named base s ≡ some p)
In-named base [] ps s e h = elim h [ ]
In-named base (t ∷ steps) ps s e h = elim (Option-cases (provisioner_named base t)) [
  | inl k ↦ let e' = subst (λ o. cons_named o (provisioners_named base steps) ≡ some ps) k e in cc
  | inr (p, k) ↦ elim h [
    | inl q ↦ (p, subst (λ x. provisioner_named base x ≡ some p) (sym q) k)
    | inr i ↦ elim (Option-cases (provisioners_named base steps)) [
      | inl n ↦
          let e' = subst (λ o. cons_named o (provisioners_named base steps) ≡ some ps) k e in
          let e'' = subst (λ o. cons_named (some p) o ≡ some ps) n e' in cc
      | inr (qs, n) ↦ In-named base steps qs s n i
    ]
  ]
]

first_unmet-none :
    (base : Library) (steps : List String) (ps : List Provisioner)
    → provisioners_named base steps ≡ some ps
    → first_unmet (resolved base steps).0 ≡ none
unfolding provisioner_for
first_unmet-none base steps ps e = elim (Option-cases (first_unmet (resolved base steps).0)) [
  | inl k ↦ k
  | inr (x, k) ↦
      let w = resolved base steps in
      let st = In-lookup x included w.0 (resolved-Unique base steps) (first_unmet-In w.0 x k) in
      let i = resolved-included base steps x st in
      let (p, q) = In-named base steps ps x e i in
      let r : provisioner_for w.1 x (lookup x w.0) ≡ some p =
        resolved-provisioner base steps x i ∙ q in
      let r' : provisioner_for w.1 x (some included) ≡ some p =
        subst (λ o. provisioner_for w.1 x o ≡ some p) st r in
      cc
]

-- One way and the other.
index-named :
    (base : Library) (h : Host)
    → ((index base h).1 ≡ none
        → provisioners_named base h.provision_steps ≡ some (index base h).0.provisioners)
      × ((ps : List Provisioner)
          → provisioners_named base h.provision_steps ≡ some ps
          → (index base h).1 ≡ none)
unfolding index finish_index
index-named base h =
    let w = resolved base h.provision_steps in
    let start : Host = record h { own = w.1; provisioners = [] } in
    let finds = resolved-provisioner base h.provision_steps in
    (
      λ e. elim (Option-cases (first_unmet w.0)) [
        | inl k ↦
            let e' = subst (λ o. (finish_index w.0 o start).1 ≡ none) k e in
            let (ps, q, r) = order_steps_sound base w.0 h.provision_steps start finds e' in
            q ∙ ap some (sym (ap (λ o. (finish_index w.0 o start).0.provisioners) k ∙ r))
        | inr (x, k) ↦ let e' = subst (λ o. (finish_index w.0 o start).1 ≡ none) k e in cc
      ],
      λ ps e.
          ap (λ o. (finish_index w.0 o start).1) (first_unmet-none base h.provision_steps ps e)
          ∙ order_steps_complete base w.0 h.provision_steps start ps finds e,
    )

-- The provisioners that `Index` sets, unless it returns an error.
abbrev pub provisioners_of : Host × Option String → Option (List Provisioner)
provisioners_of (h, none) = some h.provisioners
provisioners_of (h, some x) = none

provisioners_of-agrees :
    (r : Host × Option String) (o : Option (List Provisioner))
    → (r.1 ≡ none → o ≡ some r.0.provisioners)
    → ((ps : List Provisioner) → o ≡ some ps → r.1 ≡ none)
    → provisioners_of r ≡ o
provisioners_of-agrees (h, none) o sound complete = sym (sound refl)
provisioners_of-agrees (h, some x) none sound complete = refl
provisioners_of-agrees (h, some x) (some ps) sound complete = let e = complete ps refl in cc

-- `Index` sets the provisioners to what the provision steps name, in their order, and returns an
-- error exactly when a step names no script, command, remote file or DNS record of the configuration;
-- a script goes before a command of the same name, a command before a remote file, and a remote file
-- before a DNS record.
pub index-provisioners_named :
    (base : Library) (h : Host)
    → provisioners_of (index base h) ≡ provisioners_named base h.provision_steps
index-provisioners_named base h =
    let (sound, complete) = index-named base h in
    provisioners_of-agrees (index base h) (provisioners_named base h.provision_steps) sound complete
