-- ===== src/Host/Address.antt =====
-- `CalcIP`, `IPv42Int` and `Int2IPv4` of core/host.go: the address of a host in a network. A `net.IP`
-- is a list of bytes.
use laforge.Base.{
  ℕ, String, zero, suc, ◌+◌, ◌*◌, ◌/◌, ◌%◌, ◌^◌, ◌<◌, ◌≡◌, refl, ap, ◌∙◌, arith, Option, none, some,
  List, [], ◌∷◌, ◌++◌, length, ◌==◌, if◌then◌else◌,
}

-- binary.BigEndian.Uint32, which panics where there are less than four bytes
uint32_of : List ℕ → Option ℕ
uint32_of (a ∷ b ∷ c ∷ d ∷ rest) = some (a * 16777216 + b * 65536 + c * 256 + d)
uint32_of _ = none

from_byte : ℕ → List ℕ → List ℕ
from_byte zero ip = ip
from_byte (suc n) [] = []
from_byte (suc n) (b ∷ ip) = from_byte n ip

unfoldable pub ipv4_to_int : List ℕ → Option ℕ
unfolding uint32_of from_byte
ipv4_to_int ip = if length ip == 16 then uint32_of (from_byte 12 ip) else uint32_of ip

-- binary.BigEndian.PutUint32
unfoldable pub int_to_ipv4 : ℕ → List ℕ
int_to_ipv4 n = n / 16777216 % 256 ∷ n / 65536 % 256 ∷ n / 256 % 256 ∷ n % 256 ∷ []

pub data HostAddress : Type 0 where
  address : String → HostAddress
  invalid_subnet : (subnet id : String) → HostAddress
  crashed : HostAddress

module _ (parse_cidr : String → Option (List ℕ)) (show : List ℕ → String) where
  moved : ℕ → Option ℕ → HostAddress
  unfolding int_to_ipv4
  moved last_octet none = crashed
  moved last_octet (some ip32) =
      address (show (int_to_ipv4 ((ip32 + last_octet % 2 ^ 32) % 2 ^ 32)))

  in_subnet : String → String → ℕ → Option (List ℕ) → HostAddress
  unfolding moved ipv4_to_int
  in_subnet subnet id last_octet none = invalid_subnet subnet id
  in_subnet subnet id last_octet (some ip) = moved last_octet (ipv4_to_int ip)

  -- `parse_cidr` is the address of `net.ParseCIDR`, and `show` prints the four bytes. The last octet is
  -- the 64 bits of an `int`; the text for a bad subnet
  -- names the subnet and the host.
  unfoldable pub calc_ip : String → String → ℕ → HostAddress
  unfolding in_subnet
  calc_ip subnet id last_octet = in_subnet subnet id last_octet (parse_cidr subnet)

pub record Octets : Type 0 where
  pub a : ℕ
  pub b : ℕ
  pub c : ℕ
  pub d : ℕ

abbrev pub bytes : Octets → List ℕ
bytes o = o.a ∷ o.b ∷ o.c ∷ o.d ∷ []

abbrev pub value : Octets → ℕ
value o = ((o.a * 256 + o.b) * 256 + o.c) * 256 + o.d

pub record IsByte (o : Octets) : Type 0 where
  pub a_small : o.a < 256
  pub b_small : o.b < 256
  pub c_small : o.c < 256
  pub d_small : o.d < 256

from_byte-prefix : (n : ℕ) (p ip : List ℕ) → length p ≡ n → from_byte n (p ++ ip) ≡ ip
unfolding from_byte
from_byte-prefix zero [] ip h = refl
from_byte-prefix zero (b ∷ p) ip h = ground arith
from_byte-prefix (suc n) [] ip h = ground arith
from_byte-prefix (suc n) (b ∷ p) ip h = from_byte-prefix n p ip (omega (arith, h))

length-prefix : (p : List ℕ) (o : Octets) → length (p ++ bytes o) ≡ length p + 4
length-prefix [] o = refl
length-prefix (b ∷ p) o = omega (arith, length-prefix p o)

uint32_of-bytes : (o : Octets) → uint32_of (bytes o) ≡ some (value o)
unfolding uint32_of
uint32_of-bytes o = ap some (omega arith)

-- The four bytes after a prefix of twelve.
ipv4_to_int-mapped :
    (p : List ℕ) (o : Octets) → length p ≡ 12 → ipv4_to_int (p ++ bytes o) ≡ some (value o)
unfolding ipv4_to_int
ipv4_to_int-mapped p o h =
    let long : length (p ++ bytes o) ≡ 16 = length-prefix p o ∙ omega (arith, h) in
    rw (long, from_byte-prefix 12 p (bytes o) h) (uint32_of-bytes o)

byte_a :
    (a b c d : ℕ)
    → a < 256
    → b < 256
    → c < 256
    → d < 256
    → (((a * 256 + b) * 256 + c) * 256 + d) / 16777216 % 256 ≡ a
byte_a a b c d ha hb hc hd = omega arith

byte_b :
    (a b c d : ℕ)
    → a < 256
    → b < 256
    → c < 256
    → d < 256
    → (((a * 256 + b) * 256 + c) * 256 + d) / 65536 % 256 ≡ b
byte_b a b c d ha hb hc hd = omega arith

byte_c :
    (a b c d : ℕ)
    → a < 256
    → b < 256
    → c < 256
    → d < 256
    → (((a * 256 + b) * 256 + c) * 256 + d) / 256 % 256 ≡ c
byte_c a b c d ha hb hc hd = omega arith

byte_d : (a b c d : ℕ) → d < 256 → (((a * 256 + b) * 256 + c) * 256 + d) % 256 ≡ d
byte_d a b c d hd = omega arith

int_to_ipv4-value : (o : Octets) → IsByte o → int_to_ipv4 (value o) ≡ bytes o
unfolding int_to_ipv4
int_to_ipv4-value o h =
    rw
      (
        byte_a o.a o.b o.c o.d h.a_small h.b_small h.c_small h.d_small,
        byte_b o.a o.b o.c o.d h.a_small h.b_small h.c_small h.d_small,
        byte_c o.a o.b o.c o.d h.a_small h.b_small h.c_small h.d_small,
        byte_d o.a o.b o.c o.d h.d_small,
      )
      refl

no_carry :
    (a b c d k : ℕ)
    → a < 256
    → b < 256
    → c < 256
    → d + k < 256
    → (((a * 256 + b) * 256 + c) * 256 + d + k % 4294967296) % 4294967296
      ≡ ((a * 256 + b) * 256 + c) * 256 + (d + k)
no_carry a b c d k ha hb hc h = omega arith

-- `IPv42Int` gives an address of four bytes and the same address in sixteen bytes, with any prefix of
-- twelve, the number with these four bytes as its digits to the base 256, and `Int2IPv4` gives the
-- four bytes back.
pub int_to_ipv4-ipv4_to_int :
    (p : List ℕ) (o : Octets)
    → length p ≡ 12
    → IsByte o
    → (ipv4_to_int (bytes o) ≡ some (value o))
      × (ipv4_to_int (p ++ bytes o) ≡ some (value o))
      × (int_to_ipv4 (value o) ≡ bytes o)
unfolding ipv4_to_int
int_to_ipv4-ipv4_to_int p o h s =
    (uint32_of-bytes o, ipv4_to_int-mapped p o h, int_to_ipv4-value o s)

-- In a subnet whose address is parsed into sixteen bytes, a prefix of twelve and four octets, `CalcIP`
-- gives the address that differs in the last octet only, by the host's last octet, as long as the two
-- do not add up to more than 255; for a subnet that is not parsed it names the subnet and the host.
pub calc_ip-last_octet :
    (parse_cidr : String → Option (List ℕ)) (show : List ℕ → String) (subnet bad id : String)
    (p : List ℕ) (o : Octets) (last_octet : ℕ)
    → length p ≡ 12
    → IsByte o
    → o.d + last_octet < 256
    → parse_cidr subnet ≡ some (p ++ bytes o)
    → parse_cidr bad ≡ none
    → (calc_ip parse_cidr show subnet id last_octet
        ≡ address (show (o.a ∷ o.b ∷ o.c ∷ (o.d + last_octet) ∷ [])))
      × (calc_ip parse_cidr show bad id last_octet ≡ invalid_subnet bad id)
unfolding calc_ip
calc_ip-last_octet parse_cidr show subnet bad id p o last_octet l s h e f =
    let host : Octets = record o { d = o.d + last_octet } in
    let host-IsByte : IsByte host = record {
      a_small = s.a_small;
      b_small = s.b_small;
      c_small = s.c_small;
      d_small = h;
    } in
    (
      rw (e, ipv4_to_int-mapped p o l)
          (ap (λ n. address (show (int_to_ipv4 n)))
              (no_carry o.a o.b o.c o.d last_octet s.a_small s.b_small s.c_small h)
            ∙ ap (λ ip. address (show ip)) (int_to_ipv4-value host host-IsByte)),
      rw f refl,
    )
