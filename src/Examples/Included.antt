-- ===== src/Examples/Included.antt =====
-- An environment that includes a network with one host.
use laforge.Base.{ℕ, Bool, [], ◌∷◌, ◌≡◌, ◌↔◌, ◌==◌, refl}
use laforge.Metadata.GoPath.{FilePath}
use laforge.Included.{Environment, Pointers, found, resolve_included_networks}
use laforge.Included.Gather.{AllIndex}
use laforge.Included.Contents.{HasIncluded, resolve_included_networks-HasIncluded}
use laforge.Included.Resolves.{AllKnown, resolve_included_networks-found}

abbrev lan : FilePath
lan = "" ∷ "networks" ∷ "lan" ∷ []

abbrev web : FilePath
web = "" ∷ "hosts" ∷ "web" ∷ []

abbrev dev : Environment
dev = record {
  networks = record { name = lan; hosts = web ∷ [] } ∷ [];
  included_networks = [];
  included_hosts = [];
  host_by_network = [];
}

abbrev networks : Pointers
networks = (lan, 1) ∷ []

abbrev hosts : Pointers
hosts = (web, 5) ∷ []

abbrev is_web : ℕ → Bool
is_web host = host == 5

resolve_included_networks-found_example :
    ((e : Environment) × (resolve_included_networks is_web networks hosts dev ≡ found e))
    ↔ (AllKnown is_web networks dev.networks × AllIndex is_web hosts dev.networks)
resolve_included_networks-found_example = resolve_included_networks-found is_web networks hosts dev

abbrev resolved_dev : Environment
resolved_dev = record {
  networks = dev.networks;
  included_networks = (lan, 1) ∷ [];
  included_hosts = (web, 5) ∷ [];
  host_by_network = (lan, 5 ∷ []) ∷ [];
}

dev-resolved : resolve_included_networks is_web networks hosts dev ≡ found resolved_dev
unfolding resolve_included_networks laforge.Base.Eq.path_same
dev-resolved = refl

resolve_included_networks-HasIncluded_example : HasIncluded networks hosts dev resolved_dev
resolve_included_networks-HasIncluded_example =
    resolve_included_networks-HasIncluded is_web networks hosts dev resolved_dev dev-resolved
