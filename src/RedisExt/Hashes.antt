-- ===== src/RedisExt/Hashes.antt =====
-- cache/redisext/redisext.go and cache/redis/redis.go: hashes. A map of fields is the list of its
-- entries.
use sutil.RedisExt.{Client, fix_key, RedisExt, prefix_key, Value, ℤ, Float64}
use sutil.Prelude.Text.{Bytes, codes}
use sutil.Prelude.{List}
use sutil.Prelude.Maps.{Dict}
use sutil.Mq.{ℤ}

-- Calls from `HSet` to `HIncrByFloat`, and `HSetNX`.
pub data HashCall : Type 0 where
  h_set : Bytes → Bytes → Value → HashCall
  h_del : Bytes → List Bytes → HashCall
  h_exists : Bytes → Bytes → HashCall
  h_get : Bytes → Bytes → HashCall
  h_get_all : Bytes → HashCall
  h_incr_by : Bytes → Bytes → ℤ → HashCall
  h_incr_by_float : Bytes → Bytes → Float64 → HashCall
  h_set_nx : Bytes → Bytes → Value → HashCall

unfoldable pub ext_h_set_nx : RedisExt → Bytes → Bytes → Value → HashCall
unfolding prefix_key
ext_h_set_nx m key field val = h_set (prefix_key m key) field val

unfoldable pub ext_hash : RedisExt → HashCall → HashCall
unfolding prefix_key ext_h_set_nx
ext_hash m (h_set key field value) = h_set (prefix_key m key) field value
ext_hash m (h_del key fields) = h_del (prefix_key m key) fields
ext_hash m (h_exists key field) = h_exists (prefix_key m key) field
ext_hash m (h_get key field) = h_get (prefix_key m key) field
ext_hash m (h_get_all key) = h_get_all (prefix_key m key)
ext_hash m (h_incr_by key field incr) = h_incr_by (prefix_key m key) field incr
ext_hash m (h_incr_by_float key field incr) = h_incr_by_float (prefix_key m key) field incr
ext_hash m (h_set_nx key field val) = ext_h_set_nx m key field val

unfoldable pub client_hash : Client → HashCall → HashCall
unfolding fix_key
client_hash c (h_set key field value) = h_set (fix_key c key) field value
client_hash c (h_del key fields) = h_del (fix_key c key) fields
client_hash c (h_exists key field) = h_exists (fix_key c key) field
client_hash c (h_get key field) = h_get (fix_key c key) field
client_hash c (h_get_all key) = h_get_all (fix_key c key)
client_hash c (h_incr_by key field incr) = h_incr_by (fix_key c key) field incr
client_hash c (h_incr_by_float key field incr) = h_incr_by_float (fix_key c key) field incr
client_hash c (h_set_nx key field val) = h_set_nx (fix_key c key) field val

-- the key that a call names
unfoldable pub hash_key : HashCall → Bytes
hash_key (h_set key _ _) = key
hash_key (h_del key _) = key
hash_key (h_exists key _) = key
hash_key (h_get key _) = key
hash_key (h_get_all key) = key
hash_key (h_incr_by key _ _) = key
hash_key (h_incr_by_float key _ _) = key
hash_key (h_set_nx key _ _) = key

-- the method that is called
unfoldable pub hash_method : HashCall → Bytes
hash_method (h_set _ _ _) = codes "HSet"
hash_method (h_del _ _) = codes "HDel"
hash_method (h_exists _ _) = codes "HExists"
hash_method (h_get _ _) = codes "HGet"
hash_method (h_get_all _) = codes "HGetAll"
hash_method (h_incr_by _ _ _) = codes "HIncrBy"
hash_method (h_incr_by_float _ _ _) = codes "HIncrByFloat"
hash_method (h_set_nx _ _ _) = codes "HSetNX"

-- Calls from `HKeys` to `HVals`, less `HSetNX`.
pub data FieldsCall : Type 0 where
  h_keys : Bytes → FieldsCall
  h_len : Bytes → FieldsCall
  h_mget : Bytes → List Bytes → FieldsCall
  h_mset : Bytes → Dict Value → FieldsCall
  h_vals : Bytes → FieldsCall

unfoldable pub ext_fields : RedisExt → FieldsCall → FieldsCall
unfolding prefix_key
ext_fields m (h_keys key) = h_keys (prefix_key m key)
ext_fields m (h_len key) = h_len (prefix_key m key)
ext_fields m (h_mget key fields) = h_mget (prefix_key m key) fields
ext_fields m (h_mset key fields) = h_mset (prefix_key m key) fields
ext_fields m (h_vals key) = h_vals (prefix_key m key)

unfoldable pub client_fields : Client → FieldsCall → FieldsCall
unfolding fix_key
client_fields c (h_keys key) = h_keys (fix_key c key)
client_fields c (h_len key) = h_len (fix_key c key)
client_fields c (h_mget key fields) = h_mget (fix_key c key) fields
client_fields c (h_mset key fields) = h_mset (fix_key c key) fields
client_fields c (h_vals key) = h_vals (fix_key c key)

-- the key that a call names
unfoldable pub fields_key : FieldsCall → Bytes
fields_key (h_keys key) = key
fields_key (h_len key) = key
fields_key (h_mget key _) = key
fields_key (h_mset key _) = key
fields_key (h_vals key) = key

-- the method that is called
unfoldable pub fields_method : FieldsCall → Bytes
fields_method (h_keys _) = codes "HKeys"
fields_method (h_len _) = codes "HLen"
fields_method (h_mget _ _) = codes "HMGet"
fields_method (h_mset _ _) = codes "HMSet"
fields_method (h_vals _) = codes "HVals"
