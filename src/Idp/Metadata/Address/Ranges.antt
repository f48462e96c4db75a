-- ===== src/Idp/Metadata/Address/Ranges.antt =====
-- The addresses that are dialed, as ranges of numbers.
use oidc_oauth2_idp.Prelude.{
  Bool, List, [], any, arith, leb, none, not, refl, some, ℕ, ◌&&◌, ◌++◌, ◌/◌, ◌=ℕ◌, ◌∷◌, ◌≡◌,
}
use oidc_oauth2_idp.Idp.Metadata.Address.{
  Cidr, by_version, cidr_contains, is_link_local_unicast, is_multicast, is_private, is_unspecified,
  ssrf_blocked_cidrs, to4,
}
use Prim.Native.Nat.{}

-- Ranges of addresses, by the first and the last one.
abbrev pub Ranges : Type 0
Ranges = List (ℕ × ℕ)

abbrev unspecified4 : Ranges
unspecified4 = (0, 0) ∷ []

abbrev private4 : Ranges
private4 = (0xa00_0000, 0xaff_ffff) ∷ (0xac10_0000, 0xac1f_ffff) ∷ (0xc0a8_0000, 0xc0a8_ffff) ∷ []

abbrev link_local4 : Ranges
link_local4 = (0xa9fe_0000, 0xa9fe_ffff) ∷ []

abbrev multicast4 : Ranges
multicast4 = (0xe000_0000, 0xefff_ffff) ∷ []

-- What the list of networks has.
abbrev blocked4 : Ranges
blocked4 =
    (0x6440_0000, 0x647f_ffff)
    ∷ (0xc000_0000, 0xc000_00ff)
    ∷ (0xc000_0200, 0xc000_02ff)
    ∷ (0xc612_0000, 0xc613_ffff)
    ∷ (0xc633_6400, 0xc633_64ff)
    ∷ (0xcb00_7100, 0xcb00_71ff)
    ∷ (0xf000_0000, 0xffff_ffff)
    ∷ (0xffff_ffff, 0xffff_ffff)
    ∷ []

-- The ranges of IPv4 that the code refuses: 0.0.0.0 alone, 10/8, 172.16/12, 192.168/16, 169.254/16,
-- 224/4, 100.64/10, 192.0.0/24, 192.0.2/24, 198.18/15, 198.51.100/24, 203.0.113/24 and 240/4.
abbrev pub refused4 : Ranges
refused4 = unspecified4 ++ private4 ++ link_local4 ++ multicast4 ++ blocked4

abbrev unspecified6 : Ranges
unspecified6 = (0, 0) ∷ []

abbrev private6 : Ranges
private6 =
    (0xfc00_0000_0000_0000_0000_0000_0000_0000, 0xfdff_ffff_ffff_ffff_ffff_ffff_ffff_ffff) ∷ []

abbrev link_local6 : Ranges
link_local6 =
    (0xfe80_0000_0000_0000_0000_0000_0000_0000, 0xfebf_ffff_ffff_ffff_ffff_ffff_ffff_ffff) ∷ []

abbrev multicast6 : Ranges
multicast6 =
    (0xff00_0000_0000_0000_0000_0000_0000_0000, 0xffff_ffff_ffff_ffff_ffff_ffff_ffff_ffff) ∷ []

-- What the list of networks has.
abbrev blocked6 : Ranges
blocked6 =
    (0, 0)
    ∷ (0x100_0000_0000_0000_0000_0000_0000_0000, 0x100_0000_0000_0000_ffff_ffff_ffff_ffff)
    ∷ (0x2001_0db8_0000_0000_0000_0000_0000_0000, 0x2001_0db8_ffff_ffff_ffff_ffff_ffff_ffff)
    ∷ []

-- The ranges of IPv6 that the code refuses: :: alone, fc00::/7, fe80::/10, ff00::/8, 100::/64 and
-- 2001:db8::/32.
abbrev pub refused6 : Ranges
refused6 = unspecified6 ++ private6 ++ link_local6 ++ multicast6 ++ blocked6

abbrev pub within : ℕ → ℕ × ℕ → Bool
within ip (first, last) = leb first ip && leb ip last

by_version_four :
    (four six : ℕ → Bool) (ip ip4 : ℕ) → to4 ip ≡ some ip4 → by_version four six ip ≡ four ip4
by_version_four four six ip ip4 q = rw (q, by_version) refl

by_version_six : (four six : ℕ → Bool) (ip : ℕ) → to4 ip ≡ none → by_version four six ip ≡ six ip
by_version_six four six ip q = rw (q, by_version) refl

-- A network, as it contains an address of one version.
abbrev contains4 : ℕ → Cidr → Bool
contains4 ip net = net.of_ipv4 && ip / net.size =ℕ net.network / net.size

abbrev contains6 : ℕ → Cidr → Bool
contains6 ip net = not net.of_ipv4 && ip / net.size =ℕ net.network / net.size

pub any-contains4 :
    (ip ip4 : ℕ) (nets : List Cidr)
    → to4 ip ≡ some ip4
    → any (cidr_contains ip) nets ≡ any (contains4 ip4) nets
any-contains4 ip ip4 [] q = refl
any-contains4 ip ip4 (net ∷ nets) q = rw (q, cidr_contains, any-contains4 ip ip4 nets q) refl

pub any-contains6 :
    (ip : ℕ) (nets : List Cidr)
    → to4 ip ≡ none
    → any (cidr_contains ip) nets ≡ any (contains6 ip) nets
any-contains6 ip [] q = refl
any-contains6 ip (net ∷ nets) q = rw (q, cidr_contains, any-contains6 ip nets q) refl

pub is_unspecified-unspecified4 :
    (ip ip4 : ℕ) → to4 ip ≡ some ip4 → is_unspecified ip ≡ any (within ip4) unspecified4
unfolding is_unspecified
is_unspecified-unspecified4 ip ip4 q = rw (q, is_unspecified, by_version) ground arith

pub is_private-private4 :
    (ip ip4 : ℕ) → to4 ip ≡ some ip4 → is_private ip ≡ any (within ip4) private4
unfolding is_private
is_private-private4 ip ip4 q = rw (q, is_private, by_version) ground arith

pub is_link_local_unicast-link_local4 :
    (ip ip4 : ℕ) → to4 ip ≡ some ip4 → is_link_local_unicast ip ≡ any (within ip4) link_local4
unfolding is_link_local_unicast
is_link_local_unicast-link_local4 ip ip4 q = rw (q, is_link_local_unicast, by_version) ground arith

pub is_multicast-multicast4 :
    (ip ip4 : ℕ) → to4 ip ≡ some ip4 → is_multicast ip ≡ any (within ip4) multicast4
unfolding is_multicast
is_multicast-multicast4 ip ip4 q = rw (q, is_multicast, by_version) ground arith

pub contains-blocked4 : (ip : ℕ) → any (contains4 ip) ssrf_blocked_cidrs ≡ any (within ip) blocked4
unfolding ssrf_blocked_cidrs
contains-blocked4 ip = ground arith

pub is_unspecified-unspecified6 :
    (ip : ℕ) → to4 ip ≡ none → is_unspecified ip ≡ any (within ip) unspecified6
unfolding is_unspecified
is_unspecified-unspecified6 ip q = rw (q, is_unspecified, by_version) ground arith

pub is_private-private6 : (ip : ℕ) → to4 ip ≡ none → is_private ip ≡ any (within ip) private6
unfolding is_private
is_private-private6 ip q = rw (q, is_private, by_version) ground arith

pub is_link_local_unicast-link_local6 :
    (ip : ℕ) → to4 ip ≡ none → is_link_local_unicast ip ≡ any (within ip) link_local6
unfolding is_link_local_unicast
is_link_local_unicast-link_local6 ip q = rw (q, is_link_local_unicast, by_version) ground arith

pub is_multicast-multicast6 :
    (ip : ℕ) → to4 ip ≡ none → is_multicast ip ≡ any (within ip) multicast6
unfolding is_multicast
is_multicast-multicast6 ip q = rw (q, is_multicast, by_version) ground arith

pub contains-blocked6 : (ip : ℕ) → any (contains6 ip) ssrf_blocked_cidrs ≡ any (within ip) blocked6
unfolding ssrf_blocked_cidrs
contains-blocked6 ip = ground arith
