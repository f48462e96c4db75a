-- ===== src/Idp/Tests/Addresses.antt =====
-- Tests of the address check at concrete inputs.
use oidc_oauth2_idp.Prelude.{
  Bool-cases, Option, String, arith, false, if◌then◌else◌, inl, inr, none, refl, some,
  some_injective, subst, true, ℕ, ◌<◌, ◌==◌, ◌↔◌, ◌≡◌,
}
use oidc_oauth2_idp.Prelude.Text.{cut}
use oidc_oauth2_idp.Idp.Metadata.Address.{
  AddressParsers, check_fetch_address, dial_control, external_url_is_loopback,
  is_interface_local_multicast, is_link_local_multicast, is_link_local_unicast, is_loopback,
  is_multicast, is_private, is_special_use, is_unspecified, ssrf_blocked_cidrs, to4,
}
use oidc_oauth2_idp.Idp.Metadata.Address.Dial.{IsAllowed, check_fetch_address-IsAllowed}

-- Everything that these tests run.
unfoldable addresses : Unit {0}
unfolding to4 is_loopback is_unspecified is_private is_link_local_unicast is_link_local_multicast
    is_interface_local_multicast is_multicast ssrf_blocked_cidrs is_special_use check_fetch_address
    dial_control external_url_is_loopback cut
addresses = tt

-- 93.184.216.34
abbrev public_ip : ℕ
public_ip = 0xffff_5db8_d822

abbrev sample_parse_ip : String → Option ℕ
sample_parse_ip host = if host == "93.184.216.34" then some public_ip else none

sample_parse_ip-bound :
    (host : String) (ip : ℕ)
    → sample_parse_ip host ≡ some ip
    → ip < 0x1_0000_0000_0000_0000_0000_0000_0000_0000
sample_parse_ip-bound host ip e = elim (Bool-cases (host == "93.184.216.34")) [
  | inl t ↦
      subst (λ n. n < 0x1_0000_0000_0000_0000_0000_0000_0000_0000) (some_injective (rw t at e))
        (ground arith)
  | inr t ↦ cc (rw t at e)
]

abbrev sample_parsers : AddressParsers
sample_parsers = record {
  split_host_port = λ address. cut b':' address;
  parse_ip = sample_parse_ip;
  parse_hostname = λ url. some "idp.example";
}

check_fetch_address-IsAllowed_example :
    (check_fetch_address (some public_ip) false ≡ true) ↔ IsAllowed false public_ip
check_fetch_address-IsAllowed_example = check_fetch_address-IsAllowed public_ip false (ground arith)

-- 169.254.169.254, 127.0.0.1, ::1, and 0.0.0.1, which the check lets through.
special_example :
    (check_fetch_address (some 0xffff_a9fe_a9fe) true ≡ false)
    × (check_fetch_address (some 0xffff_7f00_0001) false ≡ false)
    × (check_fetch_address (some 1) true ≡ true)
    × (check_fetch_address (some 0xffff_0000_0001) false ≡ true)
unfolding addresses
special_example = (refl, refl, refl, refl)

dial_example :
    (dial_control sample_parsers false "93.184.216.34:443" ≡ true)
    × (dial_control sample_parsers true "localhost:443" ≡ false)
unfolding addresses
dial_example = (refl, refl)
