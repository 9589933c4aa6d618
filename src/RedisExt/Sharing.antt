-- ===== src/RedisExt/Sharing.antt =====
-- cache/redisext over cache/redis: what values of RedisExt with their own namespaces and prefixes
-- leave of each other's keys on one server.
use sutil.RedisExt.{
  Client, fix_key, RedisExt, prefix_key, get_instance_conf, new_client, wrapper_type_redis_ext,
}
use sutil.Prelude.{
  Option, none, some, [], ◌∷◌, ℕ, ◌≡◌, ◌≢◌, Bool, true, false, ◌++◌, arith, refl, sym, ◌∙◌, ltb,
  length, ◌⊎◌,
}
use sutil.Prelude.Text.{Bytes, Lacks, join}
use sutil.RedisExt.Keys.{full_key}
use sutil.RedisExt.Calls.{ExtCall}

-- the client that `getRedisInstance` gives
unfoldable pub own_client : RedisExt → Bytes → Bool → Client
unfolding get_instance_conf new_client
own_client m group use_wrapper = new_client (get_instance_conf m group) use_wrapper

-- a prefix, and no dot in it or in the namespace
abbrev pub Plain : RedisExt → Type 0
Plain m = Lacks b'.' m.namespace × Lacks b'.' m.prefix × (m.prefix ≢ [])

heads_of :
    (a b x y : Bytes) (sep : ℕ)
    → Lacks sep a
    → Lacks sep b
    → a ++ (sep ∷ x) ≡ b ++ (sep ∷ y)
    → (a ≡ b) × (x ≡ y)
heads_of [] [] x y sep h k e = ground (arith, e)
heads_of [] (d ∷ b) x y sep h (k, ks) e = absurd (ground (arith, e, k))
heads_of (c ∷ a) [] x y sep (h, hs) k e = absurd (ground (arith, e, h))
heads_of (c ∷ a) (d ∷ b) x y sep (h, hs) (k, ks) e =
    ground (arith, heads_of a b x y sep hs ks (ground (arith, e)), e)

dotless : Lacks b'.' wrapper_type_redis_ext
dotless = ground arith

length_positive : (p : Bytes) → p ≢ [] → ltb 0 (length p) ≡ true
length_positive [] h = absurd (h refl)
length_positive (c ∷ p) h = ground arith

prefix_key-append :
    (m : RedisExt) (k : Bytes) → m.prefix ≢ [] → prefix_key m k ≡ m.prefix ++ (b'.' ∷ k)
unfolding prefix_key join
prefix_key-append m k h = rw (length_positive m.prefix h)

prefix_key_cut :
    (m n : RedisExt) (k j : Bytes)
    → Plain m
    → Plain n
    → prefix_key m k ≡ prefix_key n j
    → (m.prefix ≡ n.prefix) × (k ≡ j)
prefix_key_cut m n k j (_, p, np) (_, q, nq) e =
    heads_of m.prefix n.prefix k j b'.' p q
      (sym (prefix_key-append m k np) ∙ e ∙ prefix_key-append n j nq)

full_key_cut :
    (m n : RedisExt) (g h : Bytes) (u : Bool) (k j : Bytes)
    → Plain m
    → Plain n
    → full_key m (own_client m g u) k ≡ full_key n (own_client n h u) j
    → (m.namespace ≡ n.namespace) × (prefix_key m k ≡ prefix_key n j)
unfolding full_key fix_key own_client new_client get_instance_conf join
full_key_cut m n g h true k j (p, _, _) (q, _, _) e =
    let (e1, e2) = heads_of m.namespace n.namespace _ _ b'.' p q e in
    let (_, e3) =
      heads_of wrapper_type_redis_ext wrapper_type_redis_ext _ _ b'.' dotless dotless e2 in
    (e1, e3)
full_key_cut m n g h false k j (p, _, _) (q, _, _) e =
    heads_of m.namespace n.namespace _ _ b'.' p q e

-- Where namespaces and prefixes hold no dot and no prefix is empty, a key of go-redis tells the
-- namespace, the prefix and the caller's key, among clients that agree on `useWrapper`.
pub full_key-injective :
    (m n : RedisExt) (g h : Bytes) (u : Bool) (k j : Bytes)
    → Plain m
    → Plain n
    → full_key m (own_client m g u) k ≡ full_key n (own_client n h u) j
    → (m.namespace ≡ n.namespace) × (m.prefix ≡ n.prefix) × (k ≡ j)
full_key-injective m n g h u k j p q e =
    let (e1, e2) = full_key_cut m n g h u k j p q e in
    let (e3, e4) = prefix_key_cut m n k j p q e2 in (e1, e3, e4)

-- the other value has another namespace or another prefix
abbrev pub Apart : RedisExt → RedisExt → Type 0
Apart m n = (m.namespace ≢ n.namespace) ⊎ (m.prefix ≢ n.prefix)

-- a call of another value with the client of its own, if it has one
abbrev pub Foreign : RedisExt → Bool → (RedisExt × Option Client × ExtCall) → Type 0
Foreign m u (n, none, x) = Apart m n
Foreign m u (n, some c, x) = Apart m n × Plain n × ((group : Bytes) × (c ≡ own_client n group u))
