-- ===== src/RedisExt/Lists.antt =====
-- cache/redisext/list.go and cache/redis/redis.go: lists.
use sutil.RedisExt.{Client, fix_key, RedisExt, prefix_key, ℤ, Value}
use sutil.Prelude.Text.{Bytes, codes}
use sutil.Prelude.{List}
use sutil.Mq.{ℤ}

-- Calls from `LIndex` to `LPushX`.
pub data ListCall : Type 0 where
  l_index : Bytes → ℤ → ListCall
  l_insert : Bytes → Bytes → Value → Value → ListCall
  l_len : Bytes → ListCall
  l_pop : Bytes → ListCall
  l_push : Bytes → List Value → ListCall
  l_push_x : Bytes → Value → ListCall

unfoldable pub ext_list : RedisExt → ListCall → ListCall
unfolding prefix_key
ext_list m (l_index key at) = l_index (prefix_key m key) at
ext_list m (l_insert key op pivot value) = l_insert (prefix_key m key) op pivot value
ext_list m (l_len key) = l_len (prefix_key m key)
ext_list m (l_pop key) = l_pop (prefix_key m key)
ext_list m (l_push key values) = l_push (prefix_key m key) values
ext_list m (l_push_x key value) = l_push_x (prefix_key m key) value

unfoldable pub client_list : Client → ListCall → ListCall
unfolding fix_key
client_list c (l_index key at) = l_index (fix_key c key) at
client_list c (l_insert key op pivot value) = l_insert (fix_key c key) op pivot value
client_list c (l_len key) = l_len (fix_key c key)
client_list c (l_pop key) = l_pop (fix_key c key)
client_list c (l_push key values) = l_push (fix_key c key) values
client_list c (l_push_x key value) = l_push_x (fix_key c key) value

-- the key that a call names
unfoldable pub list_key : ListCall → Bytes
list_key (l_index key _) = key
list_key (l_insert key _ _ _) = key
list_key (l_len key) = key
list_key (l_pop key) = key
list_key (l_push key _) = key
list_key (l_push_x key _) = key

-- the method that is called
unfoldable pub list_method : ListCall → Bytes
list_method (l_index _ _) = codes "LIndex"
list_method (l_insert _ _ _ _) = codes "LInsert"
list_method (l_len _) = codes "LLen"
list_method (l_pop _) = codes "LPop"
list_method (l_push _ _) = codes "LPush"
list_method (l_push_x _ _) = codes "LPushX"

-- Calls from `LRange` to `RPushX`.
pub data TailCall : Type 0 where
  l_range : Bytes → ℤ → ℤ → TailCall
  l_rem : Bytes → ℤ → Value → TailCall
  l_set : Bytes → ℤ → Value → TailCall
  l_trim : Bytes → ℤ → ℤ → TailCall
  r_pop : Bytes → TailCall
  r_push : Bytes → List Value → TailCall
  r_push_x : Bytes → Value → TailCall

unfoldable pub ext_tail : RedisExt → TailCall → TailCall
unfolding prefix_key
ext_tail m (l_range key start stop) = l_range (prefix_key m key) start stop
ext_tail m (l_rem key count value) = l_rem (prefix_key m key) count value
ext_tail m (l_set key at value) = l_set (prefix_key m key) at value
ext_tail m (l_trim key start stop) = l_trim (prefix_key m key) start stop
ext_tail m (r_pop key) = r_pop (prefix_key m key)
ext_tail m (r_push key values) = r_push (prefix_key m key) values
ext_tail m (r_push_x key value) = r_push_x (prefix_key m key) value

unfoldable pub client_tail : Client → TailCall → TailCall
unfolding fix_key
client_tail c (l_range key start stop) = l_range (fix_key c key) start stop
client_tail c (l_rem key count value) = l_rem (fix_key c key) count value
client_tail c (l_set key at value) = l_set (fix_key c key) at value
client_tail c (l_trim key start stop) = l_trim (fix_key c key) start stop
client_tail c (r_pop key) = r_pop (fix_key c key)
client_tail c (r_push key values) = r_push (fix_key c key) values
client_tail c (r_push_x key value) = r_push_x (fix_key c key) value

-- the key that a call names
unfoldable pub tail_key : TailCall → Bytes
tail_key (l_range key _ _) = key
tail_key (l_rem key _ _) = key
tail_key (l_set key _ _) = key
tail_key (l_trim key _ _) = key
tail_key (r_pop key) = key
tail_key (r_push key _) = key
tail_key (r_push_x key _) = key

-- the method that is called
unfoldable pub tail_method : TailCall → Bytes
tail_method (l_range _ _ _) = codes "LRange"
tail_method (l_rem _ _ _) = codes "LRem"
tail_method (l_set _ _ _) = codes "LSet"
tail_method (l_trim _ _ _) = codes "LTrim"
tail_method (r_pop _) = codes "RPop"
tail_method (r_push _ _) = codes "RPush"
tail_method (r_push_x _ _) = codes "RPushX"
