-- ===== src/Idp/Metadata/Address/Dial.antt =====
-- Which addresses are dialed.
use oidc_oauth2_idp.Prelude.{
  All, Bool, Option, Option-cases, String, [], any, arith, false, if◌then◌else◌, inl, inr, none,
  refl, some, sym, true, ℕ, ◌<◌, ◌=ℕ◌, ◌||◌, ◌↔◌, ◌∙◌, ◌∷◌, ◌≡◌, ◌≢◌, ◌⊎◌,
}
use oidc_oauth2_idp.Idp.Metadata.Address.{
  AddressParsers, by_version, check_fetch_address, cidr_contains, dial_control,
  external_url_is_loopback, is_interface_local_multicast, is_link_local_multicast, is_loopback,
  is_multicast, is_special_use, ssrf_blocked_cidrs, to4,
}
use oidc_oauth2_idp.Idp.Metadata.Address.Ranges.{
  Ranges, any-contains4, any-contains6, contains-blocked4, contains-blocked6,
  is_link_local_unicast-link_local4, is_link_local_unicast-link_local6, is_multicast-multicast4,
  is_multicast-multicast6, is_private-private4, is_private-private6, is_unspecified-unspecified4,
  is_unspecified-unspecified6, refused4, refused6, within,
}

-- The two narrower tests for multicast addresses add nothing.
multicast_covered :
    (ip : ℕ)
    → ip < 0x1_0000_0000_0000_0000_0000_0000_0000_0000
    → (is_link_local_multicast ip || is_interface_local_multicast ip || is_multicast ip)
      ≡ is_multicast ip
unfolding is_link_local_multicast is_interface_local_multicast is_multicast to4
multicast_covered ip h = ground arith

special_use4 :
    (ip ip4 : ℕ)
    → ip < 0x1_0000_0000_0000_0000_0000_0000_0000_0000
    → to4 ip ≡ some ip4
    → (is_special_use ip || any (cidr_contains ip) ssrf_blocked_cidrs) ≡ any (within ip4) refused4
unfolding is_special_use
special_use4 ip ip4 h q = ground (
  arith,
  multicast_covered ip h,
  is_unspecified-unspecified4 ip ip4 q,
  is_private-private4 ip ip4 q,
  is_link_local_unicast-link_local4 ip ip4 q,
  is_multicast-multicast4 ip ip4 q,
  any-contains4 ip ip4 ssrf_blocked_cidrs q ∙ contains-blocked4 ip4,
)

special_use6 :
    (ip : ℕ)
    → ip < 0x1_0000_0000_0000_0000_0000_0000_0000_0000
    → to4 ip ≡ none
    → (is_special_use ip || any (cidr_contains ip) ssrf_blocked_cidrs) ≡ any (within ip) refused6
unfolding is_special_use
special_use6 ip h q = ground (
  arith,
  multicast_covered ip h,
  is_unspecified-unspecified6 ip q,
  is_private-private6 ip q,
  is_link_local_unicast-link_local6 ip q,
  is_multicast-multicast6 ip q,
  any-contains6 ip ssrf_blocked_cidrs q ∙ contains-blocked6 ip,
)

abbrev pub Outside : ℕ → ℕ × ℕ → Type 0
Outside ip (first, last) = (ip < first) ⊎ (last < ip)

any_within_lem :
    (ip : ℕ) (ranges : Ranges) → (any (within ip) ranges ≡ false) ↔ All (Outside ip) ranges
any_within_lem ip [] = (λ _. tt, λ _. refl)
any_within_lem ip ((first, last) ∷ ranges) = ground (arith, any_within_lem ip ranges)

check_lem :
    (ip : ℕ) (allow : Bool)
    → (check_fetch_address (some ip) allow ≡ true) ↔ (
        if is_loopback ip
        then (allow ≡ true)
        else ((is_special_use ip || any (cidr_contains ip) ssrf_blocked_cidrs) ≡ false))
unfolding check_fetch_address
check_lem ip allow = ground arith

checked_by :
    (ip : ℕ) (allow : Bool) (b : Bool) (x : ℕ) (ranges : Ranges)
    → is_loopback ip ≡ b
    → (is_special_use ip || any (cidr_contains ip) ssrf_blocked_cidrs) ≡ any (within x) ranges
    → (check_fetch_address (some ip) allow ≡ true)
      ↔ (if b then (allow ≡ true) else All (Outside x) ranges)
checked_by ip allow true x ranges e f = rw e at (check_lem ip allow)
checked_by ip allow false x ranges e f =
    let c = rw e at (check_lem ip allow) in
    let w = any_within_lem x ranges in (λ t. w.0 (sym f ∙ c.0 t), λ a. c.1 (f ∙ w.1 a))

loopback4 :
    (ip ip4 : ℕ) → to4 ip ≡ some ip4 → is_loopback ip ≡ within ip4 (0x7f00_0000, 0x7fff_ffff)
unfolding is_loopback
loopback4 ip ip4 q = rw (q, is_loopback, by_version) ground arith

loopback6 : (ip : ℕ) → to4 ip ≡ none → is_loopback ip ≡ (ip =ℕ 1)
unfolding is_loopback
loopback6 ip q = rw (q, is_loopback, by_version) refl

-- An address that may be dialed, by its IPv4 address if it has one: a loopback address where that is
-- allowed, or one that is neither a loopback address nor in one of the ranges that the code refuses.
abbrev pub AllowedAs : Bool → ℕ → Option ℕ → Type 0
AllowedAs allow_loopback ip none =
    if ip =ℕ 1 then (allow_loopback ≡ true) else All (Outside ip) refused6
AllowedAs allow_loopback ip (some ip4) =
    if within ip4 (0x7f00_0000, 0x7fff_ffff)
    then (allow_loopback ≡ true)
    else All (Outside ip4) refused4

abbrev pub IsAllowed : Bool → ℕ → Type 0
IsAllowed allow_loopback ip = AllowedAs allow_loopback ip (to4 ip)

-- A 16-byte address passes the check if and only if it is a loopback address and those are allowed, or if
-- it is no loopback address and lies outside these ranges: if it holds an IPv4 address, 0.0.0.0 alone,
-- 10/8, 172.16/12, 192.168/16, 169.254/16, 224/4, 100.64/10, 192.0.0/24, 192.0.2/24, 198.18/15,
-- 198.51.100/24, 203.0.113/24 and 240/4, and otherwise :: alone, fc00::/7, fe80::/10, ff00::/8, 100::/64
-- and 2001:db8::/32.
pub check_fetch_address-IsAllowed :
    (ip : ℕ) (allow : Bool)
    → ip < 0x1_0000_0000_0000_0000_0000_0000_0000_0000
    → (check_fetch_address (some ip) allow ≡ true) ↔ IsAllowed allow ip
check_fetch_address-IsAllowed ip allow h = elim (Option-cases (to4 ip)) [
  | inl q ↦ rw q (checked_by ip allow (ip =ℕ 1) ip refused6 (loopback6 ip q) (special_use6 ip h q))
  | inr (ip4, q) ↦ rw q (
      checked_by ip allow (within ip4 (0x7f00_0000, 0x7fff_ffff)) ip4 refused4 (loopback4 ip ip4 q)
        (special_use4 ip ip4 h q))
]

not_an_ip : (allow : Bool) → check_fetch_address none allow ≢ true
unfolding check_fetch_address
not_an_ip allow e = cc

-- The guarded client dials an address only if its host part is an IP address that is neither a loopback
-- address nor in a range that the code refuses, or that is a loopback address while the host of the external URL is
-- "localhost" or a loopback address.
pub dial_control-IsAllowed :
    (parsers : AddressParsers) (external_url address : String)
    → ((host : String) (ip : ℕ)
        → parsers.parse_ip host ≡ some ip
        → ip < 0x1_0000_0000_0000_0000_0000_0000_0000_0000)
    → dial_control parsers (external_url_is_loopback parsers external_url) address ≡ true
    → (host : String) × (port : String) × (ip : ℕ) × (parsers.split_host_port address
        ≡ some (host, port))
      × (parsers.parse_ip host ≡ some ip)
      × IsAllowed (external_url_is_loopback parsers external_url) ip
unfolding dial_control
dial_control-IsAllowed parsers external_url address bound e =
    elim (Option-cases (parsers.split_host_port address)) [
      | inl q ↦ cc (rw (q, dial_control) at e)
      | inr ((host, port), q) ↦ elim (Option-cases (parsers.parse_ip host)) [
        | inl r ↦ absurd (
            not_an_ip (external_url_is_loopback parsers external_url)
              (rw (q, r, dial_control) at e))
        | inr (ip, r) ↦ (
          host,
          port,
          ip,
          q,
          r,
          (check_fetch_address-IsAllowed ip (external_url_is_loopback parsers external_url)
                (bound host ip r)).0
              (rw (q, r, dial_control) at e),
        )
      ]
    ]
