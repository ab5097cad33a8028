-- ===== src/Metadata/Types.antt =====
-- The type that core/metadata.go reads off the ID of an object is the object's type.
use laforge.Base.{ℕ, String, true, ◌≡◌, refl, arith, str_eq, eq_iff}
use laforge.Metadata.GoPath.{base, dir}
use laforge.Metadata.Schema.{
  Chain, IsClean, AvoidsWords, env_path, build_path, team_path, network_path, host_path,
  connection_path, step_path,
}
use laforge.Metadata.{
  environment, build, team, provisioned_network, provisioned_host, connection, provisioning_step,
  type_by_path,
}

module _ (decimal : ℕ → String) (step_name : ℕ → String → String) (c : Chain)
    (h : IsClean decimal step_name c) (w : AvoidsWords decimal step_name c) where
  -- Where the names are clean elements other than the schema's words, `TypeByPath` gives every path
  -- of the schema the type of its object.
  pub schema_types :
      (type_by_path (env_path decimal step_name c) ≡ environment)
      × (type_by_path (build_path decimal step_name c) ≡ build)
      × (type_by_path (team_path decimal step_name c) ≡ team)
      × (type_by_path (network_path decimal step_name c) ≡ provisioned_network)
      × (type_by_path (host_path decimal step_name c) ≡ provisioned_host)
      × (type_by_path (connection_path decimal step_name c) ≡ connection)
      × (type_by_path (step_path decimal step_name c) ≡ provisioning_step)
  unfolding type_by_path base dir
  schema_types =
      simp
        (
          h.env.not_empty, h.env.not_dot, h.env.not_dots, h.builder.not_empty, h.builder.not_dot,
          h.builder.not_dots, h.number.not_empty, h.number.not_dot, h.number.not_dots,
          h.network.not_empty, h.network.not_dot, h.network.not_dots, h.host.not_empty,
          h.host.not_dot, h.host.not_dots, h.step.not_empty, w.env, w.builder, w.number, w.network,
          w.host, w.host_teams, w.host_networks, w.host_hosts,
        )
        (refl, refl, refl, refl, refl, refl, ground arith)

module _ (decimal : ℕ → String) (step_name : ℕ → String → String) (c : Chain)
    (h : IsClean decimal step_name c) where
  -- The connection of a host that is named "hosts" is taken for a provisioned host.
  pub hosts_name_confuses :
      str_eq (base c.host) "hosts" ≡ true
      → type_by_path (connection_path decimal step_name c) ≡ provisioned_host
  unfolding type_by_path base dir
  hosts_name_confuses e = simp (
    h.env.not_empty,
    h.env.not_dot,
    h.env.not_dots,
    h.builder.not_empty,
    h.builder.not_dot,
    h.builder.not_dots,
    h.number.not_empty,
    h.number.not_dot,
    h.number.not_dots,
    h.network.not_empty,
    h.network.not_dot,
    h.network.not_dots,
    (eq_iff (base c.host) "hosts").0 e,
  )
