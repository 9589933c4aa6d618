-- ===== src/RedisExt.antt =====
-- cache/redisext (redisext.go, list.go, script.go) over cache/redis/redis.go: what each method
-- sends to the redis client. A call of a method, at any of the three layers (RedisExt, the Client
-- of cache/redis and the client of go-redis), is a value that holds its arguments; a layer is a
-- function from the calls it receives to the calls it makes. go-redis with its server is a
-- parameter.
pub mod Strings
pub mod Hashes
pub mod SortedSets
pub mod Lists
pub mod Calls
pub mod Keys
pub mod Sharing
pub mod Methods
pub mod Scripts
mod Tests
use sutil.Mq.{ℤ}
use sutil.RedisCache.{CacheInstanceConf}
use sutil.Prelude.Text.{Bytes, codes, join}
use sutil.Prelude.{ℕ, Bool, List, [], ◌∷◌, ltb, if◌then◌else◌, length}

-- a `float64`, by its 64 bits
abbrev pub Float64 : Type 0
Float64 = ℕ

-- an `interface{}` that go-redis writes
pub data Value : Type 0 where
  nil_value : Value
  text : Bytes → Value
  raw : Bytes → Value
  integer : ℤ → Value
  float : Float64 → Value
  truth : Bool → Value

-- `redis.Client`, less the connection
pub record Client : Type 0 where
  pub namespace : Bytes
  pub wrapper : Bytes
  pub use_wrapper : Bool

unfoldable pub fix_key : Client → Bytes → Bytes
fix_key c key =
    let parts = c.namespace ∷ c.wrapper ∷ key ∷ [] in
    if c.use_wrapper then join parts b'.' else join (c.namespace ∷ key ∷ []) b'.'

pub record RedisExt : Type 0 where
  pub namespace : Bytes
  pub prefix : Bytes

unfoldable pub prefix_key : RedisExt → Bytes → Bytes
prefix_key m key = if ltb 0 (length m.prefix) then join (m.prefix ∷ key ∷ []) b'.' else key

-- constants.WrapperTypeRedisExt and constants.WrapperTypeCache
abbrev pub wrapper_type_redis_ext : Bytes
wrapper_type_redis_ext = codes "e"

abbrev pub wrapper_type_cache : Bytes
wrapper_type_cache = codes "c"

-- `getInstanceConf`, with the group of the context
unfoldable pub get_instance_conf : RedisExt → Bytes → CacheInstanceConf
get_instance_conf m group = record {
  group = group;
  namespace = m.namespace;
  wrapper = wrapper_type_redis_ext;
}

-- `NewClient`, with the `useWrapper` of the configuration of the namespace
unfoldable pub new_client : CacheInstanceConf → Bool → Client
new_client conf use_wrapper = record {
  namespace = conf.namespace;
  wrapper = conf.wrapper;
  use_wrapper = use_wrapper;
}

-- `redisext.Z` and `redis.Z`
pub record Z : Type 0 where
  pub score : Float64
  pub member : Value

pub record RedisZ : Type 0 where
  pub redis_score : Float64
  pub redis_member : Value

unfoldable pub to_redis_z : Z → RedisZ
to_redis_z z = record { redis_score = z.score; redis_member = z.member }

unfoldable pub from_redis_z : RedisZ → Z
from_redis_z rz = record { score = rz.redis_score; member = rz.redis_member }

unfoldable pub to_redis_z_slice : List Z → List RedisZ
unfolding to_redis_z
to_redis_z_slice [] = []
to_redis_z_slice (z ∷ zs) = to_redis_z z ∷ to_redis_z_slice zs

unfoldable pub from_redis_z_slice : List RedisZ → List Z
unfolding from_redis_z
from_redis_z_slice [] = []
from_redis_z_slice (rz ∷ rzs) = from_redis_z rz ∷ from_redis_z_slice rzs

-- `redisext.ZRangeBy` and `redis.ZRangeBy`
pub record ZRangeBy : Type 0 where
  pub min : Bytes
  pub max : Bytes
  pub offset : ℤ
  pub count : ℤ

pub record RedisZRangeBy : Type 0 where
  pub redis_min : Bytes
  pub redis_max : Bytes
  pub redis_offset : ℤ
  pub redis_count : ℤ

unfoldable pub to_redis_z_range_by : ZRangeBy → RedisZRangeBy
to_redis_z_range_by by = record {
  redis_min = by.min;
  redis_max = by.max;
  redis_offset = by.offset;
  redis_count = by.count;
}
