-- ===== src/Idp/Metadata/Address.antt =====
-- Which addresses the guarded HTTP client dials: metadataHTTPClient, checkFetchAddress and
-- externalURLIsLoopback of idp-auth-server/clientid_metadata.go. An address is a number below 2 ^ 128,
-- the 16 bytes that `net.ParseIP` returns; the parsing of addresses and URLs are parameters.
pub mod Ranges
pub mod Dial
use Prim.Native.Nat.{◌^◌}
use oidc_oauth2_idp.Prelude.{
  Bool, List, Option, String, [], any, false, if◌then◌else◌, none, not, some, true, ℕ, ◌%◌, ◌&&◌,
  ◌*◌, ◌+◌, ◌-◌, ◌/◌, ◌==◌, ◌=ℕ◌, ◌||◌, ◌∷◌,
}

-- `IP.To4`: the IPv4 address of an address in ::ffff:0:0/96.
unfoldable pub to4 : ℕ → Option ℕ
to4 ip = if ip / 0x1_0000_0000 =ℕ 0xffff then some (ip % 0x1_0000_0000) else none

-- The first bytes of an IPv4 address, and of an IPv6 address.
abbrev pub byte4_0 : ℕ → ℕ
byte4_0 ip = ip / 0x100_0000

abbrev pub byte4_1 : ℕ → ℕ
byte4_1 ip = ip / 0x1_0000 % 256

abbrev pub byte4_2 : ℕ → ℕ
byte4_2 ip = ip / 256 % 256

abbrev pub byte6_0 : ℕ → ℕ
byte6_0 ip = ip / 0x100_0000_0000_0000_0000_0000_0000_0000

abbrev pub byte6_1 : ℕ → ℕ
byte6_1 ip = ip / 0x1_0000_0000_0000_0000_0000_0000_0000 % 256

-- A test of `net.IP` that looks at the IPv4 address where there is one.
abbrev pub by_version : (ℕ → Bool) → (ℕ → Bool) → ℕ → Bool
by_version four six ip = elim (to4 ip) [ none ↦ six ip | some ip4 ↦ four ip4 ]

unfoldable pub is_loopback : ℕ → Bool
is_loopback = by_version (λ ip. byte4_0 ip =ℕ 127) (λ ip. ip =ℕ 1)

unfoldable pub is_unspecified : ℕ → Bool
is_unspecified = by_version (λ ip. ip =ℕ 0) (λ ip. ip =ℕ 0)

unfoldable pub is_private : ℕ → Bool
is_private =
    by_version
      (λ ip.
        byte4_0 ip =ℕ 10
        || (byte4_0 ip =ℕ 172 && byte4_1 ip / 16 =ℕ 1)
        || (byte4_0 ip =ℕ 192 && byte4_1 ip =ℕ 168))
      (λ ip. byte6_0 ip / 2 =ℕ 0x7e)

unfoldable pub is_link_local_unicast : ℕ → Bool
is_link_local_unicast =
    by_version (λ ip. byte4_0 ip =ℕ 169 && byte4_1 ip =ℕ 254)
      (λ ip. byte6_0 ip =ℕ 0xfe && byte6_1 ip / 64 =ℕ 2)

unfoldable pub is_link_local_multicast : ℕ → Bool
is_link_local_multicast =
    by_version (λ ip. byte4_0 ip =ℕ 224 && byte4_1 ip =ℕ 0 && byte4_2 ip =ℕ 0)
      (λ ip. byte6_0 ip =ℕ 0xff && byte6_1 ip % 16 =ℕ 2)

unfoldable pub is_interface_local_multicast : ℕ → Bool
is_interface_local_multicast ip = byte6_0 ip =ℕ 0xff && byte6_1 ip % 16 =ℕ 1

unfoldable pub is_multicast : ℕ → Bool
is_multicast = by_version (λ ip. byte4_0 ip / 16 =ℕ 14) (λ ip. byte6_0 ip =ℕ 0xff)

-- A network: whether it is of IPv4, its address, and how many addresses it has.
pub record Cidr : Type 0 where
  pub of_ipv4 : Bool
  pub network : ℕ
  pub size : ℕ

abbrev ipv4_cidr : ℕ → ℕ → ℕ → ℕ → ℕ → Cidr
ipv4_cidr a b c d bits = record {
  of_ipv4 = true;
  network = a * 0x100_0000 + b * 0x1_0000 + c * 256 + d;
  size = 2 ^ (32 - bits);
}

-- The address is given by its first two 16-bit groups; the others are zero.
abbrev ipv6_cidr : ℕ → ℕ → ℕ → Cidr
ipv6_cidr a b bits = record {
  of_ipv4 = false;
  network = a * 2 ^ 112 + b * 2 ^ 96;
  size = 2 ^ (128 - bits);
}

-- `IPNet.Contains`.
abbrev pub cidr_contains : ℕ → Cidr → Bool
cidr_contains ip net = elim (to4 ip) [
  | none ↦ not net.of_ipv4 && ip / net.size =ℕ net.network / net.size
  | some ip4 ↦ net.of_ipv4 && ip4 / net.size =ℕ net.network / net.size
]

unfoldable pub ssrf_blocked_cidrs : List Cidr
ssrf_blocked_cidrs =
    ipv4_cidr 100 64 0 0 10
    ∷ ipv4_cidr 192 0 0 0 24
    ∷ ipv4_cidr 192 0 2 0 24
    ∷ ipv4_cidr 198 18 0 0 15
    ∷ ipv4_cidr 198 51 100 0 24
    ∷ ipv4_cidr 203 0 113 0 24
    ∷ ipv4_cidr 240 0 0 0 4
    ∷ ipv4_cidr 255 255 255 255 32
    ∷ ipv6_cidr 0 0 128
    ∷ ipv6_cidr 0x100 0 64
    ∷ ipv6_cidr 0x2001 0xdb8 32
    ∷ []

unfoldable pub is_special_use : ℕ → Bool
is_special_use ip =
    is_unspecified ip
    || is_private ip
    || is_link_local_unicast ip
    || is_link_local_multicast ip
    || is_interface_local_multicast ip
    || is_multicast ip

-- `checkFetchAddress`: whether there is no error.
unfoldable pub check_fetch_address : Option ℕ → Bool → Bool
check_fetch_address none allow_loopback = false
check_fetch_address (some ip) allow_loopback =
    if is_loopback ip
    then allow_loopback
    else if is_special_use ip
    then false
    else not (any (cidr_contains ip) ssrf_blocked_cidrs)

-- `net.SplitHostPort` and `net.ParseIP`, and the host name of `url.Parse`.
pub record AddressParsers : Type 0 where
  pub split_host_port : String → Option (String × String)
  pub parse_ip : String → Option ℕ
  pub parse_hostname : String → Option String

module _ (parsers : AddressParsers) where
  -- The `Control` function of the dialer: whether an address is dialed.
  unfoldable pub dial_control : Bool → String → Bool
  dial_control allow_loopback address = elim (parsers.split_host_port address) [
    | none ↦ false
    | some (host, port) ↦ check_fetch_address (parsers.parse_ip host) allow_loopback
  ]

  abbrev pub is_loopback_ip : Option ℕ → Bool
  is_loopback_ip none = false
  is_loopback_ip (some ip) = is_loopback ip

  unfoldable pub external_url_is_loopback : String → Bool
  external_url_is_loopback external_url = elim (parsers.parse_hostname external_url) [
    | none ↦ false
    | some hostname ↦ hostname == "localhost" || is_loopback_ip (parsers.parse_ip hostname)
  ]
