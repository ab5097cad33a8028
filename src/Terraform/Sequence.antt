-- ===== src/Terraform/Sequence.antt =====
-- core/planner.go: the order of the terraform commands of each team.
use laforge.Base.{
  Bool, true, false, ◌≡◌, refl, sym, ap, ◌∙◌, ◌⊎◌, inl, inr, Option, none, some, List, [], ◌∷◌,
  ◌++◌, arith, Bool-cases, if◌then◌else◌, subst,
}
use mathlib.Core.List.{append-nil}
use laforge.Base.Eq.{path_eq, path_same, path_same_iff}
use laforge.Base.Assoc.{lookup, has_key, insert, lookup-insert, same_refl}
use laforge.Metadata.GoPath.{FilePath}
use laforge.Terraform.{
  Command, apply, Inputs, Needs, Sequences, commands_of, add_command, collect_needs, apply_all,
  finish_needs, calculate_terraform_needs,
}
use laforge.Terraform.Partial.{
  IsBody, IsSequence, Unique, IsPartial, collect_needs-IsPartial, commands_of-known,
  commands_of-none,
}

-- What is added at the end for a team.
abbrev final_commands : FilePath → List (FilePath × Bool) → List Command
final_commands tid teams = if has_key tid teams then apply ∷ [] else []

commands_of-insert :
    (tid j : FilePath) (cs : List Command) (all : Sequences)
    → commands_of j (insert tid cs all) ≡ (if path_same tid j then cs else commands_of j all)
unfolding commands_of
commands_of-insert tid j cs all = ground (arith, lookup-insert tid j cs all)

final_commands-head :
    (tid j : FilePath) (b : Bool) (teams : List (FilePath × Bool))
    → final_commands j ((tid, b) ∷ teams)
      ≡ (if path_same tid j then apply ∷ [] else final_commands j teams)
unfolding lookup
final_commands-head tid j b teams = ground arith

add_apply_self :
    (tid : FilePath) (teams : List (FilePath × Bool)) (b : Bool) (n : Needs)
    → has_key tid teams ≡ false
    → commands_of tid (add_command tid apply n).commands ++ final_commands tid teams
      ≡ commands_of tid n.commands ++ final_commands tid ((tid, b) ∷ teams)
unfolding add_command lookup
add_apply_self tid teams b n u =
    rw (commands_of-insert tid tid (commands_of tid n.commands ++ apply ∷ []) n.commands) (
      rw (final_commands-head tid tid b teams)
        (rw (same_refl tid) (rw u (append-nil (commands_of tid n.commands ++ apply ∷ [])))))

add_apply_other :
    (tid j : FilePath) (teams : List (FilePath × Bool)) (b : Bool) (n : Needs)
    → path_same tid j ≡ false
    → commands_of j (add_command tid apply n).commands ++ final_commands j teams
      ≡ commands_of j n.commands ++ final_commands j ((tid, b) ∷ teams)
unfolding add_command lookup
add_apply_other tid j teams b n c =
    rw (commands_of-insert tid j (commands_of tid n.commands ++ apply ∷ []) n.commands)
      (rw (final_commands-head tid j b teams) (rw c refl))

add_apply :
    (tid j : FilePath) (teams : List (FilePath × Bool)) (b : Bool) (n : Needs)
    → has_key tid teams ≡ false
    → commands_of j (add_command tid apply n).commands ++ final_commands j teams
      ≡ commands_of j n.commands ++ final_commands j ((tid, b) ∷ teams)
add_apply tid j teams b n u = elim (Bool-cases (path_same tid j)) [
  | inl c ↦
      subst
        (λ k.
          commands_of k (add_command tid apply n).commands ++ final_commands k teams
          ≡ commands_of k n.commands ++ final_commands k ((tid, b) ∷ teams))
        ((path_same_iff tid j).0 c) (add_apply_self tid teams b n u)
  | inr c ↦ add_apply_other tid j teams b n c
]

commands_of-apply_all :
    (teams : List (FilePath × Bool)) (n : Needs) (j : FilePath)
    → Unique teams
    → commands_of j (apply_all teams n).commands
      ≡ commands_of j n.commands ++ final_commands j teams
unfolding apply_all lookup
commands_of-apply_all [] n j u = sym (append-nil (commands_of j n.commands))
commands_of-apply_all ((tid, b) ∷ teams) n j u =
    commands_of-apply_all teams (add_command tid apply n) j u.1 ∙ add_apply tid j teams b n u.0

IsPartial-empty : IsPartial (record { commands = []; applying = [] })
unfolding lookup
IsPartial-empty = record { bodies = λ tid cs e. cc; marked = λ tid e. cc; unique = tt }

-- The commands of a team once the order has been read: none, or a body.
partial_commands :
    (n : Needs) (tid : FilePath)
    → IsPartial n
    → (commands_of tid n.commands ≡ []) × (has_key tid n.applying ≡ false)
      ⊎ IsBody (commands_of tid n.commands)
partial_commands n tid p = elim (Bool-cases (has_key tid n.commands)) [
  | inl k ↦ inr (commands_of-known n tid p.bodies k)
  | inr k ↦ inl (commands_of-none n tid (ground (arith, k)), ground (arith, p.marked tid, k))
]

-- A body, with or without an apply.
IsSequence-of :
    (cs : List Command) (b : Bool) → IsBody cs → IsSequence (cs ++ (if b then apply ∷ [] else []))
IsSequence-of cs true h = inr (cs, h, refl)
IsSequence-of cs false h = inl (subst IsBody (sym (append-nil cs)) h)

finish_needs-eq-some :
    (o : Option Needs) (out : Sequences)
    → finish_needs o ≡ some out
    → (n : Needs) × (o ≡ some n) × ((apply_all n.applying n).commands ≡ out)
unfolding finish_needs
finish_needs-eq-some none out e = cc
finish_needs-eq-some (some n) out e = (n, refl, cc)

partial-IsSequence :
    (n : Needs) (tid : FilePath)
    → IsPartial n
    → (commands_of tid n.commands ++ final_commands tid n.applying ≡ [])
      ⊎ IsSequence (commands_of tid n.commands ++ final_commands tid n.applying)
partial-IsSequence n tid p = elim (partial_commands n tid p) [
  | inl (e, k) ↦ inl (rw e (rw k refl))
  | inr h ↦ inr (IsSequence-of (commands_of tid n.commands) (has_key tid n.applying) h)
]

-- Whatever the order of the plan and the hosts, the terraform commands of a team, if it has any, are
-- one refresh, then only taints, and then at most one apply.
pub calculate_terraform_needs-IsSequence :
    (i : Inputs) (order : List FilePath) (out : Sequences) (tid : FilePath)
    → calculate_terraform_needs i order ≡ some out
    → (commands_of tid out ≡ []) ⊎ IsSequence (commands_of tid out)
unfolding calculate_terraform_needs
calculate_terraform_needs-IsSequence i order out tid e =
    let start : Needs = record { commands = []; applying = [] } in
    let (n, k, q) = finish_needs-eq-some (collect_needs i order start) out e in
    let p = collect_needs-IsPartial i order start n IsPartial-empty k in
    let same : commands_of tid n.commands ++ final_commands tid n.applying ≡ commands_of tid out =
      sym (commands_of-apply_all n.applying n tid p.unique) ∙ ap (commands_of tid) q in
    subst (λ l. (l ≡ []) ⊎ IsSequence l) same (partial-IsSequence n tid p)
