-- ===== src/RedisCache/Keys.antt =====
-- The keys of the redis clients and of their configuration are read back.
use sutil.Prelude.Text.{Bytes, Lacks, split-join}
use sutil.Prelude.Dotted.{parts-join}
use sutil.RedisCache.{
  CacheInstanceConf, build_instance_key, instance_conf_from_string, conf_of_parts, build_config_key,
  parse_key, key_parts, cache_type_redis,
}
use sutil.Prelude.{◌≡◌, some, [], ◌∷◌, arith}

-- The key of a client whose group, namespace and wrapper hold no dash is read back as its configuration.
pub instance_conf_from_string-build_instance_key :
    (c : CacheInstanceConf)
    → Lacks b'-' c.group
    → Lacks b'-' c.namespace
    → Lacks b'-' c.wrapper
    → instance_conf_from_string (build_instance_key c) ≡ some c
unfolding instance_conf_from_string build_instance_key conf_of_parts
instance_conf_from_string-build_instance_key c g n w =
    ground (arith, split-join c.group (c.namespace ∷ c.wrapper ∷ []) b'-' g (n, (w, tt)))

redis_Lacks : Lacks b'.' cache_type_redis
redis_Lacks = ground arith

-- A configuration key, whose namespace may hold dots, is read back as its namespace and group, where the
-- group and the item hold none.
pub parse_key-build_config_key :
    (group namespace item : Bytes)
    → Lacks b'.' group
    → Lacks b'.' item
    → parse_key (build_config_key group namespace item)
      ≡ some (record { key_namespace = namespace; key_group = group })
unfolding parse_key key_parts build_config_key
parse_key-build_config_key group namespace item g i =
    let (parts, cut, enough, name, third) =
      parts-join namespace group cache_type_redis item g redis_Lacks i in
    simp (cut, enough, third, name)
