-- ===== src/NetAddr/Tests.antt =====
-- Addresses at concrete texts: the one that parses is 172.16.5.9, as are the ends of the ranges.
use sutil.Prelude.Text.{Bytes, codes, text_eq, split}
use sutil.Prelude.Maps.{Dict, lookup}
use sutil.NetAddr.{ipv4, is_inter_ip, holds, ip_address_http_client}
use sutil.NetAddr.Inside.{ReadsRanges, is_private, is_inter_ip-private}
use sutil.Prelude.{ℕ, ◌≡◌, refl, Option, [], ◌∷◌, arith}

abbrev known : Dict ℕ
known =
    (codes "10.0.0.0", ipv4 10 0 0 0)
    ∷ (codes "10.255.255.255", ipv4 10 255 255 255)
    ∷ (codes "172.16.0.0", ipv4 172 16 0 0)
    ∷ (codes "172.31.255.255", ipv4 172 31 255 255)
    ∷ (codes "192.168.0.0", ipv4 192 168 0 0)
    ∷ (codes "192.168.255.255", ipv4 192 168 255 255)
    ∷ (codes "172.16.5.9", ipv4 172 16 5 9)
    ∷ []

abbrev parse_ip : Bytes → Option ℕ
unfolding lookup
parse_ip s = lookup s known

parse_ip-ReadsRanges : ReadsRanges parse_ip
unfolding lookup text_eq
parse_ip-ReadsRanges = (refl, refl, refl, refl, refl, refl)

abbrev inner : Bytes
inner = codes "172.16.5.9"

is_inter_ip-private_example : is_inter_ip parse_ip inner ≡ holds (is_private 172 16)
unfolding lookup text_eq
is_inter_ip-private_example =
    is_inter_ip-private parse_ip parse_ip-ReadsRanges inner 172 16 5 9 (omega arith) (omega arith)
      (omega arith) (omega arith) refl

-- Only inside addresses are forwarded: the address is empty.
forwarded_inside : ip_address_http_client parse_ip [] inner (codes "9.9.9.9:80") ≡ []
unfolding ip_address_http_client lookup split
forwarded_inside = refl

-- A text that is no address is returned.
forwarded_text :
    ip_address_http_client parse_ip [] (codes "172.16.5.9, unknown") [] ≡ codes "unknown"
unfolding ip_address_http_client lookup split
forwarded_text = refl
