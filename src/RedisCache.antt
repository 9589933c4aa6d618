-- ===== src/RedisCache.antt =====
-- cache/redis: the keys of the redis clients (instance.go) and of their configuration (config.go).
pub mod Keys
pub mod Manager
pub mod Config
mod Tests
use sutil.Prelude.Text.{Bytes, codes, split, join}
use sutil.Prelude.Maps.{Dict, lookup, store}
use sutil.Prelude.{
  ◌-◌, Option, none, some, List, [], ◌∷◌, ltb, if◌then◌else◌, length, get_elem?, take,
}

pub record CacheInstanceConf : Type 0 where
  pub group : Bytes
  pub namespace : Bytes
  pub wrapper : Bytes

unfoldable pub conf_of_parts : List Bytes → Option CacheInstanceConf
conf_of_parts (g ∷ n ∷ w ∷ []) = some (record { group = g; namespace = n; wrapper = w })
conf_of_parts _ = none

unfoldable pub instance_conf_from_string : Bytes → Option CacheInstanceConf
unfolding conf_of_parts
instance_conf_from_string s = conf_of_parts (split s b'-')

unfoldable pub build_instance_key : CacheInstanceConf → Bytes
build_instance_key c = join (c.group ∷ c.namespace ∷ c.wrapper ∷ []) b'-'

pub record CacheKeyParts : Type 0 where
  pub key_namespace : Bytes
  pub key_group : Bytes

-- `fmt.Sprint(constants.CacheTypeRedis)`
abbrev pub cache_type_redis : Bytes
cache_type_redis = codes "redis"

-- `ApolloConfig.buildKey`, with the group of the context
unfoldable pub build_config_key : Bytes → Bytes → Bytes → Bytes
build_config_key group namespace item = join (namespace ∷ group ∷ cache_type_redis ∷ item ∷ []) b'.'

unfoldable pub key_parts : List Bytes → Option Bytes → Option CacheKeyParts
key_parts names none = none
key_parts names (some g) = some (record { key_namespace = join names b'.'; key_group = g })

-- `ApolloConfig.ParseKey`
unfoldable pub parse_key : Bytes → Option CacheKeyParts
unfolding key_parts
parse_key key =
    let parts = split key b'.' in
    if ltb (length parts) 4
    then none
    else key_parts (take (length parts - 3) parts) (get_elem? parts (length parts - 3))
