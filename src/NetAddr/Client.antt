-- ===== src/NetAddr/Client.antt =====
-- snetutil/snetutil.go: which address an HTTP request is taken to come from.
use sutil.Prelude.Text.{Bytes, Lacks, codes, split, text_eq, last_index-append}
use sutil.Prelude.Spaces.{trim_space}
use sutil.NetAddr.{
  fails, is_inter_ip, is_taken, first_taken, ip_address_http_client, ip_addr_from_remote_addr,
  ip_addr_port, before_or_all, behind_or_nothing,
}
use sutil.Prelude.{
  ℕ, ◌<◌, ◌≡◌, refl, true, false, Option, List, [], ◌∷◌, ◌++◌, All, length, take, map,
  take-append_front, lt→ltb, drop_past,
}

module _ (parse_ip : Bytes → Option ℕ) where
  first_taken-none :
      (ips : List Bytes) (default : Bytes)
      → All (λ ip. is_taken parse_ip ip ≡ false) ips
      → first_taken parse_ip ips default ≡ default
  unfolding first_taken
  first_taken-none [] default h = refl
  first_taken-none (ip ∷ ips) default (h, hs) = rw h (first_taken-none ips default hs)

  -- A request whose X-Forwarded-For names only addresses that are passed over, and which has no
  -- X-Real-Ip, is given the empty address, although the address of its connection is known. Where the
  -- header is not sent either, that address is taken.
  pub ip_address_http_client-empty :
      (c : ℕ) (forwarded_for remote_addr : Bytes)
      → All (λ ip. is_taken parse_ip ip ≡ false) (map trim_space (split (c ∷ forwarded_for) b','))
      → (ip_address_http_client parse_ip [] (c ∷ forwarded_for) remote_addr ≡ [])
        × (ip_address_http_client parse_ip [] [] remote_addr ≡ ip_addr_from_remote_addr remote_addr)
  unfolding ip_address_http_client
  ip_address_http_client-empty c forwarded_for remote_addr h =
      (first_taken-none (map trim_space (split (c ∷ forwarded_for) b',')) [] h, refl)

  first_taken-append :
      (before : List Bytes) (ip : Bytes) (behind : List Bytes) (default : Bytes)
      → All (λ p. is_taken parse_ip p ≡ false) before
      → is_taken parse_ip ip ≡ true
      → first_taken parse_ip (before ++ ip ∷ behind) default ≡ ip
  unfolding first_taken
  first_taken-append [] ip behind default hs h = rw h refl
  first_taken-append (p ∷ before) ip behind default (hp, hs) h =
      rw hp (first_taken-append before ip behind default hs h)

  is_taken-unparsed :
      (ip : Bytes)
      → is_inter_ip parse_ip ip ≡ fails
      → 5 < length ip
      → text_eq (take 4 ip) (codes "127.") ≡ false
      → is_taken parse_ip ip ≡ true
  unfolding is_taken
  is_taken-unparsed ip f long outer = rw (f, outer, lt→ltb 5 (length ip) long) refl

  -- A part of X-Forwarded-For that is no address at all, longer than five bytes and not beginning with
  -- `127.`, is returned as the address of the client where the parts before it are passed over.
  pub ip_address_http_client-unparsed :
      (c : ℕ) (real_ip forwarded_for remote_addr : Bytes) (before : List Bytes) (ip : Bytes)
      (behind : List Bytes)
      → map trim_space (split (c ∷ forwarded_for) b',') ≡ before ++ ip ∷ behind
      → All (λ p. is_taken parse_ip p ≡ false) before
      → is_inter_ip parse_ip ip ≡ fails
      → 5 < length ip
      → text_eq (take 4 ip) (codes "127.") ≡ false
      → ip_address_http_client parse_ip real_ip (c ∷ forwarded_for) remote_addr ≡ ip
  unfolding ip_address_http_client
  ip_address_http_client-unparsed c real_ip forwarded_for remote_addr before ip behind parts hs f
        long outer =
      rw parts (first_taken-append before ip behind real_ip hs (is_taken-unparsed ip f long outer))

-- The address of a connection is cut at its last colon: what stands before it is the address, what
-- stands behind it the port.
pub ip_addr_from_remote_addr-joined :
    (host port : Bytes)
    → Lacks b':' port
    → (ip_addr_from_remote_addr (host ++ (b':' ∷ port)) ≡ host)
      × (ip_addr_port (host ++ (b':' ∷ port)) ≡ port)
unfolding ip_addr_from_remote_addr ip_addr_port
ip_addr_from_remote_addr-joined host port h = (
  rw
      (
        last_index-append host port b':' h,
        before_or_all,
        take-append_front (length host) host (b':' ∷ port) refl,
      )
      refl,
  rw (last_index-append host port b':' h, behind_or_nothing, drop_past host b':' port) refl,
)
