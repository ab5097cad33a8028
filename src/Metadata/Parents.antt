-- ===== src/Metadata/Parents.antt =====
-- From the ID of an object to those of the objects above it: the methods `ParentLaforgeID`, and
-- `GetTeamIDFromPath` of core/metadata.go.
use laforge.Base.{
  ◌↔◌, [], ◌∷◌, arith, Bool-cases, inl, inr, str_eq, eq_iff, sym, subst, ◌&&◌, ap, ◌∙◌, ◌++◌, ℕ,
  String, ◌≡◌, refl,
}
use laforge.Metadata.GoPath.{FilePath, dir}
use laforge.Metadata.Schema.{
  Chain, IsClean, env_path, build_path, team_path, network_path, host_path, connection_path,
  step_path,
}
use laforge.Metadata.Ids.{
  build_parent_id, team_parent_id, network_parent_id, host_parent_id, step_parent_id,
  connection_parent_id,
}
use laforge.Metadata.{get_team_id_from_path, team_id}

module _ (decimal : ℕ → String) (step_name : ℕ → String → String) (c : Chain)
    (h : IsClean decimal step_name c) where
  -- On the paths of the schema `ParentLaforgeID` gives the ID one level up.
  pub schema_parents :
      (build_parent_id (build_path decimal step_name c) ≡ env_path decimal step_name c)
      × (team_parent_id (team_path decimal step_name c) ≡ build_path decimal step_name c)
      × (network_parent_id (network_path decimal step_name c) ≡ team_path decimal step_name c)
      × (host_parent_id (host_path decimal step_name c) ≡ network_path decimal step_name c)
      × (connection_parent_id (connection_path decimal step_name c) ≡ host_path decimal step_name c)
      × (step_parent_id (step_path decimal step_name c) ≡ host_path decimal step_name c)
  unfolding build_parent_id team_parent_id network_parent_id host_parent_id step_parent_id
      connection_parent_id dir
  schema_parents =
      simp
        (
          h.env.not_empty, h.env.not_dot, h.env.not_dots, h.builder.not_empty, h.builder.not_dot,
          h.builder.not_dots, h.number.not_empty, h.number.not_dot, h.number.not_dots,
          h.network.not_empty, h.network.not_dot, h.network.not_dots, h.host.not_empty,
          h.host.not_dot, h.host.not_dots,
        )
        (refl, refl, refl, refl, refl, refl)

-- `GetTeamIDFromPath` gives a team ID exactly for the paths of six or more elements that begin with
-- "/envs", and it is then the path's first six elements; that the fifth is "teams" is not asked for.
pub get_team_id_from_path_iff :
    (p t : FilePath)
    → (get_team_id_from_path p ≡ team_id t) ↔ (
        (a b c d : String) × (rest : FilePath) × (p ≡ "" ∷ "envs" ∷ a ∷ b ∷ c ∷ d ∷ rest)
        × (t ≡ "" ∷ "envs" ∷ a ∷ b ∷ c ∷ d ∷ []))
unfolding get_team_id_from_path
get_team_id_from_path_iff [] t = (λ h. cc, λ (a, b, c, d, rest, p, q). cc)
get_team_id_from_path_iff (r ∷ []) t = (λ h. ground (arith, h), λ (a, b, c, d, rest, p, q). cc)
get_team_id_from_path_iff (r ∷ e ∷ []) t = (λ h. ground (arith, h), λ (a, b, c, d, rest, p, q). cc)
get_team_id_from_path_iff (r ∷ e ∷ a ∷ []) t =
    (λ h. ground (arith, h), λ (a', b, c, d, rest, p, q). cc)
get_team_id_from_path_iff (r ∷ e ∷ a ∷ b ∷ []) t =
    (λ h. ground (arith, h), λ (a', b', c, d, rest, p, q). cc)
get_team_id_from_path_iff (r ∷ e ∷ a ∷ b ∷ c ∷ []) t =
    (λ h. ground (arith, h), λ (a', b', c', d, rest, p, q). cc)
get_team_id_from_path_iff (r ∷ e ∷ a ∷ b ∷ c ∷ d ∷ rest) t = (
  λ h. elim (Bool-cases (str_eq r "" && str_eq e "envs")) [
    | inl s ↦
        let begins : r ∷ e ∷ [] ≡ "" ∷ "envs" ∷ [] =
          ground (arith, s, eq_iff r "", eq_iff e "envs") in
        let whole : get_team_id_from_path (r ∷ e ∷ a ∷ b ∷ c ∷ d ∷ rest)
            ≡ team_id (r ∷ e ∷ a ∷ b ∷ c ∷ d ∷ []) =
          ground (arith, s) in
        let same : t ≡ r ∷ e ∷ a ∷ b ∷ c ∷ d ∷ [] = cc in
        (
          a,
          b,
          c,
          d,
          rest,
          ap (λ x. x ++ a ∷ b ∷ c ∷ d ∷ rest) begins,
          same ∙ ap (λ x. x ++ a ∷ b ∷ c ∷ d ∷ []) begins,
        )
    | inr s ↦ absurd (ground (arith, h, s))
  ],
  λ (a', b', c', d', rest', p, q).
      subst (λ x. get_team_id_from_path x ≡ team_id t) (sym p)
        (subst (λ y. get_team_id_from_path ("" ∷ "envs" ∷ a' ∷ b' ∷ c' ∷ d' ∷ rest') ≡ team_id y)
          (sym q) (ground arith)),
)
