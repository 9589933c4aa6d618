-- ===== src/NetAddr.antt =====
-- snetutil/snetutil.go: which addresses are inside addresses, and the address of an HTTP client. An
-- address is its 16 bytes, read as one number. `net.ParseIP` is a parameter. What asks the machine for
-- the addresses of its interfaces (GetInterIp, GetExterIp, GetServAddr, GetListenAddr) is left out.
pub mod Inside
pub mod Client
mod Tests
use sutil.Prelude.Text.{Bytes, codes, split, text_eq, last_index}
use sutil.Prelude.Spaces.{trim_space}
use sutil.Prelude.{
  ℕ, suc, ◌+◌, ◌*◌, ◌^◌, Bool, true, false, not, ◌&&◌, Option, none, some, List, [], ◌∷◌, ltb, leb,
  if◌then◌else◌, length, take, drop, map,
}

-- a truth value or an error; of an error only that there is one is kept
pub data Verdict : Type 0 where
  holds : Bool → Verdict
  fails : Verdict

-- `IpBetween`: the 16 bytes are compared as texts of one length, which is by the number.
unfoldable pub ip_between : Option ℕ → Option ℕ → Option ℕ → Verdict
ip_between (some from) (some to) (some test) = holds (leb from test && leb test to)
ip_between _ _ _ = fails

-- the 16 bytes of a.b.c.d
abbrev pub ipv4 : ℕ → ℕ → ℕ → ℕ → ℕ
ipv4 a b c d = 0xffff00000000 + (a * 16777216 + b * 65536 + c * 256 + d)

abbrev pub or_else : Verdict → Verdict → Verdict
or_else (holds true) next = holds true
or_else (holds false) next = next
or_else fails next = fails

module _ (parse_ip : Bytes → Option ℕ) where
  unfoldable pub ip_between_str : Bytes → Bytes → Bytes → Verdict
  unfolding ip_between
  ip_between_str from to test = ip_between (parse_ip from) (parse_ip to) (parse_ip test)

  unfoldable pub is_inter_ip : Bytes → Verdict
  unfolding ip_between_str
  is_inter_ip ip = or_else (ip_between_str (codes "10.0.0.0") (codes "10.255.255.255") ip) (
      or_else (ip_between_str (codes "172.16.0.0") (codes "172.31.255.255") ip)
        (ip_between_str (codes "192.168.0.0") (codes "192.168.255.255") ip))

-- `ok, _ := IsInterIp(ip)`
abbrev pub verdict_or_false : Verdict → Bool
verdict_or_false (holds b) = b
verdict_or_false fails = false

abbrev pub before_or_all : Bytes → Option ℕ → Bytes
before_or_all s none = s
before_or_all s (some i) = take i s

-- `IpAddrFromRemoteAddr`
unfoldable pub ip_addr_from_remote_addr : Bytes → Bytes
unfolding last_index
ip_addr_from_remote_addr s = before_or_all s (last_index s b':')

abbrev pub behind_or_nothing : Bytes → Option ℕ → Bytes
behind_or_nothing s none = []
behind_or_nothing s (some i) = drop (suc i) s

-- `IpAddrPort`
unfoldable pub ip_addr_port : Bytes → Bytes
unfolding last_index
ip_addr_port s = behind_or_nothing s (last_index s b':')

module _ (parse_ip : Bytes → Option ℕ) where
  -- what the loop over X-Forwarded-For takes
  unfoldable pub is_taken : Bytes → Bool
  unfolding is_inter_ip text_eq
  is_taken ip =
      not (verdict_or_false (is_inter_ip parse_ip ip))
      && (ltb 5 (length ip) && not (text_eq (take 4 ip) (codes "127.")))

  unfoldable pub first_taken : List Bytes → Bytes → Bytes
  unfolding is_taken
  first_taken [] default = default
  first_taken (ip ∷ ips) default = if is_taken ip then ip else first_taken ips default

  -- `IpAddressHttpClient`, with the headers X-Real-Ip and X-Forwarded-For, empty where they are not
  -- sent, and the address of the connection
  unfoldable pub ip_address_http_client : Bytes → Bytes → Bytes → Bytes
  unfolding first_taken ip_addr_from_remote_addr trim_space
  ip_address_http_client [] [] remote_addr = ip_addr_from_remote_addr remote_addr
  ip_address_http_client (c ∷ real_ip) [] remote_addr = c ∷ real_ip
  ip_address_http_client real_ip (c ∷ forwarded_for) remote_addr =
      first_taken (map trim_space (split (c ∷ forwarded_for) b',')) real_ip
