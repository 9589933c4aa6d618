-- ===== src/NetAddr/Inside.antt =====
-- snetutil/snetutil.go: the inside addresses are those of RFC 1918.
use sutil.Prelude.Text.{Bytes, codes}
use sutil.NetAddr.{holds, fails, ipv4, is_inter_ip, ip_between, ip_between_str, or_else}
use sutil.Prelude.{
  ℕ, ◌<◌, ◌≡◌, refl, Bool, true, false, ◌&&◌, ◌||◌, Option, none, some, leb, ◌==◌, arith, ◌∙◌,
}

-- what the ends of the three ranges are read as
abbrev pub ReadsRanges : (Bytes → Option ℕ) → Type 0
ReadsRanges parse_ip =
    (parse_ip (codes "10.0.0.0") ≡ some (ipv4 10 0 0 0))
    × (parse_ip (codes "10.255.255.255") ≡ some (ipv4 10 255 255 255))
    × (parse_ip (codes "172.16.0.0") ≡ some (ipv4 172 16 0 0))
    × (parse_ip (codes "172.31.255.255") ≡ some (ipv4 172 31 255 255))
    × (parse_ip (codes "192.168.0.0") ≡ some (ipv4 192 168 0 0))
    × (parse_ip (codes "192.168.255.255") ≡ some (ipv4 192 168 255 255))

-- 10.0.0.0/8, 172.16.0.0/12 and 192.168.0.0/16, by the first two numbers of an address
unfoldable pub is_private : ℕ → ℕ → Bool
is_private a b = a == 10 || ((a == 172 && (leb 16 b && leb b 31)) || (a == 192 && b == 168))

abbrev within : ℕ → ℕ → ℕ → Bool
within from to n = leb from n && leb n to

or_else-holds :
    (p q r : Bool) → or_else (holds p) (or_else (holds q) (holds r)) ≡ holds (p || (q || r))
or_else-holds true q r = refl
or_else-holds false true r = refl
or_else-holds false false r = refl

in_ten :
    (a b c d : ℕ)
    → a < 256
    → b < 256
    → c < 256
    → d < 256
    → within (ipv4 10 0 0 0) (ipv4 10 255 255 255) (ipv4 a b c d) ≡ a == 10
in_ten a b c d ha hb hc hd = ground arith

in_172 :
    (a b c d : ℕ)
    → a < 256
    → b < 256
    → c < 256
    → d < 256
    → within (ipv4 172 16 0 0) (ipv4 172 31 255 255) (ipv4 a b c d)
      ≡ (a == 172 && (leb 16 b && leb b 31))
in_172 a b c d ha hb hc hd = ground arith

in_192 :
    (a b c d : ℕ)
    → a < 256
    → b < 256
    → c < 256
    → d < 256
    → within (ipv4 192 168 0 0) (ipv4 192 168 255 255) (ipv4 a b c d) ≡ (a == 192 && b == 168)
in_192 a b c d ha hb hc hd = ground arith

module _ (parse_ip : Bytes → Option ℕ) (reads : ReadsRanges parse_ip) where
  ranges_of :
      (ip : Bytes) (n : ℕ)
      → parse_ip ip ≡ some n
      → is_inter_ip parse_ip ip
        ≡ holds (
            within (ipv4 10 0 0 0) (ipv4 10 255 255 255) n
            || (within (ipv4 172 16 0 0) (ipv4 172 31 255 255) n
                || within (ipv4 192 168 0 0) (ipv4 192 168 255 255) n))
  unfolding is_inter_ip ip_between_str ip_between
  ranges_of ip n h =
      rw (h, reads.0, reads.1, reads.2, reads.3, reads.4, reads.5)
        (or_else-holds (within (ipv4 10 0 0 0) (ipv4 10 255 255 255) n)
          (within (ipv4 172 16 0 0) (ipv4 172 31 255 255) n)
          (within (ipv4 192 168 0 0) (ipv4 192 168 255 255) n))

  -- `IsInterIp` tells of an address a.b.c.d whether it is in one of the three private ranges.
  pub is_inter_ip-private :
      (ip : Bytes) (a b c d : ℕ)
      → a < 256
      → b < 256
      → c < 256
      → d < 256
      → parse_ip ip ≡ some (ipv4 a b c d)
      → is_inter_ip parse_ip ip ≡ holds (is_private a b)
  unfolding is_private
  is_inter_ip-private ip a b c d ha hb hc hd h =
      ranges_of ip (ipv4 a b c d) h
      ∙ rw (in_ten a b c d ha hb hc hd, in_172 a b c d ha hb hc hd, in_192 a b c d ha hb hc hd) refl

  -- It fails for a text that is no address.
  pub no_address : (ip : Bytes) → parse_ip ip ≡ none → is_inter_ip parse_ip ip ≡ fails
  unfolding is_inter_ip ip_between_str ip_between
  no_address ip h = rw (h, reads.0, reads.1) refl
