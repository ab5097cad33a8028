-- ===== src/Examples/Configuration.antt =====
-- Hosts, addresses and layers of configuration.
use laforge.Base.{
  str_eq, if◌then◌else◌, ◌++◌, ◌↔◌, ◌≤◌, All, ℕ, String, Bool, true, false, ◌≡◌, refl, Option, none,
  some, List, [], ◌∷◌,
}
use laforge.Base.Eq.{string_eq}
use laforge.Base.Assoc.{lookup}
use laforge.Base.Unique.{Unique}
use laforge.Host.{Library, Host, index}
use laforge.Host.Index.{provisioners_of, provisioners_named, index-provisioners_named}
use laforge.Host.Address.{
  address, invalid_subnet, Octets, IsByte, bytes, value, ipv4_to_int, int_to_ipv4, calc_ip,
  int_to_ipv4-ipv4_to_int, calc_ip-last_octet,
}
use laforge.Config.{Object, hosts, Namespace, Masked, masked, refused, mask, Laforge}
use laforge.Config.Context.{
  StateContext, env_context, level, Found, assert_min_context, is_found,
  assert_min_context-is_found,
}
use laforge.Config.Layers.{IsMaskOf, mask-IsMaskOf}

-- The 16 bytes that `net.ParseCIDR` gives for an address of four.
abbrev mapped : List ℕ
mapped = 0 ∷ 0 ∷ 0 ∷ 0 ∷ 0 ∷ 0 ∷ 0 ∷ 0 ∷ 0 ∷ 0 ∷ 255 ∷ 255 ∷ []

abbrev subnet : Octets
subnet = record { a = 10; b = 0; c = 1; d = 0 }

subnet-IsByte : IsByte subnet
subnet-IsByte = record {
  a_small = omega laforge.Base.arith;
  b_small = omega laforge.Base.arith;
  c_small = omega laforge.Base.arith;
  d_small = omega laforge.Base.arith;
}

int_to_ipv4-ipv4_to_int_example :
    (ipv4_to_int (bytes subnet) ≡ some (value subnet))
    × (ipv4_to_int (mapped ++ bytes subnet) ≡ some (value subnet))
    × (int_to_ipv4 (value subnet) ≡ bytes subnet)
int_to_ipv4-ipv4_to_int_example = int_to_ipv4-ipv4_to_int mapped subnet refl subnet-IsByte

abbrev parse_cidr : String → Option (List ℕ)
parse_cidr text = if str_eq text "lan" then none else some (mapped ++ bytes subnet)

abbrev show : List ℕ → String
show ip = "an address"

calc_ip-last_octet_example :
    (calc_ip parse_cidr show "10.0.1.0/24" "/hosts/web" 25 ≡ address (show (10 ∷ 0 ∷ 1 ∷ 25 ∷ [])))
    × (calc_ip parse_cidr show "lan" "/hosts/web" 25 ≡ invalid_subnet "lan" "/hosts/web")
calc_ip-last_octet_example =
    calc_ip-last_octet parse_cidr show "10.0.1.0/24" "lan" "/hosts/web" mapped subnet 25 refl
      subnet-IsByte (omega laforge.Base.arith) refl refl

-- A name that is both a script and a command.
abbrev library : Library
library = record {
  scripts = ("setup", 1) ∷ [];
  commands = ("setup", 2) ∷ ("reboot", 3) ∷ [];
  remote_files = [];
  dns_records = [];
}

abbrev web : Host
web = record {
  provision_steps = "reboot" ∷ "setup" ∷ [];
  own = record { scripts = []; commands = []; remote_files = []; dns_records = [] };
  provisioners = [];
}

index-provisioners_named_example :
    provisioners_of (index library web) ≡ provisioners_named library web.provision_steps
index-provisioners_named_example = index-provisioners_named library web

-- A merge that takes the fields of the source.
abbrev override : Bool → Object ℕ → Object ℕ → Object ℕ × Bool
override append dst src = (record dst { fields = src.fields }, false)

abbrev object : ℕ → String → Object ℕ
object n file = record { on_conflict = none; caller = file ∷ []; fields = n }

abbrev base_objects : Namespace override
base_objects k = ("/hosts/web", object 1 "base.laforge") ∷ []

abbrev layer_objects : Namespace override
layer_objects k =
    ("/hosts/web", object 2 "env.laforge") ∷ ("/hosts/db", object 3 "env.laforge") ∷ []

-- Path registries and users are numbers, of which the newer one is taken.
abbrev newer : ℕ → ℕ → ℕ × Bool
newer old new = (new, false)

abbrev Configuration : Type 0
Configuration = Laforge override newer newer 0

abbrev base : Configuration
base = record {
  objects = base_objects;
  path_registry = 1;
  caller = "base.laforge" ∷ [];
  filename = "base.laforge";
  base_dir = "";
  user = none;
}

abbrev layer : Configuration
layer = record {
  objects = layer_objects;
  path_registry = 2;
  caller = "env.laforge" ∷ [];
  filename = "env.laforge";
  base_dir = "/envs";
  user = some 1;
}

abbrev configuration_of : Masked override Configuration → Configuration
configuration_of (masked l) = l
configuration_of (refused e) = base

abbrev laid : Configuration
laid = configuration_of (mask override newer newer 0 base layer)

laid_over : mask override newer newer 0 base layer ≡ masked laid
unfolding mask lookup laforge.Base.Assoc.insert
laid_over = refl

layer-Unique : Unique (layer.objects hosts)
unfolding lookup
layer-Unique = (refl, (refl, tt))

mask-IsMaskOf_example :
    IsMaskOf override hosts
      (lookup "/hosts/web" (base.objects hosts))
      (lookup "/hosts/web" (layer.objects hosts))
      (lookup "/hosts/web" (laid.objects hosts))
mask-IsMaskOf_example =
    mask-IsMaskOf override newer newer 0 base layer laid hosts "/hosts/web" layer-Unique laid_over

-- A build directory inside an environment.
abbrev in_build : Found
in_build = record {
  valid_team = false;
  valid_build = true;
  valid_env = true;
  valid_base = true;
  valid_global = true;
}

assert_min_context-is_found_example :
    (assert_min_context in_build env_context ≡ true)
    ↔ ((c : StateContext) × (is_found in_build c ≡ true) × (level c ≤ level env_context))
assert_min_context-is_found_example = assert_min_context-is_found in_build env_context
