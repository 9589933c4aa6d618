-- ===== src/RedisExt/Strings.antt =====
-- cache/redisext/redisext.go and cache/redis/redis.go: strings, bits, counters, and calls of
-- several keys.
use sutil.RedisExt.{Client, fix_key, RedisExt, prefix_key, Value, ℤ, text}
use sutil.Prelude.Text.{Bytes, codes}
use sutil.Prelude.{Bool, true, false, Option, none, some, List, [], ◌∷◌, map}
use sutil.Mq.{ℤ}

pub data StringCall : Type 0 where
  get : Bytes → StringCall
  set : Bytes → Value → ℤ → StringCall
  get_bit : Bytes → ℤ → StringCall
  set_bit : Bytes → ℤ → ℤ → StringCall

unfoldable pub ext_string : RedisExt → StringCall → StringCall
unfolding prefix_key
ext_string m (get key) = get (prefix_key m key)
ext_string m (set key val exp) = set (prefix_key m key) val exp
ext_string m (get_bit key offset) = get_bit (prefix_key m key) offset
ext_string m (set_bit key offset value) = set_bit (prefix_key m key) offset value

unfoldable pub client_string : Client → StringCall → StringCall
unfolding fix_key
client_string c (get key) = get (fix_key c key)
client_string c (set key val exp) = set (fix_key c key) val exp
client_string c (get_bit key offset) = get_bit (fix_key c key) offset
client_string c (set_bit key offset value) = set_bit (fix_key c key) offset value

-- the key that a call names
unfoldable pub string_key : StringCall → Bytes
string_key (get key) = key
string_key (set key _ _) = key
string_key (get_bit key _) = key
string_key (set_bit key _ _) = key

-- the method that is called
unfoldable pub string_method : StringCall → Bytes
string_method (get _) = codes "Get"
string_method (set _ _ _) = codes "Set"
string_method (get_bit _ _) = codes "GetBit"
string_method (set_bit _ _ _) = codes "SetBit"

pub data CounterCall : Type 0 where
  incr : Bytes → CounterCall
  incr_by : Bytes → ℤ → CounterCall
  decr : Bytes → CounterCall
  decr_by : Bytes → ℤ → CounterCall
  set_nx : Bytes → Value → ℤ → CounterCall
  exists : Bytes → CounterCall
  expire : Bytes → ℤ → CounterCall

unfoldable pub ext_counter : RedisExt → CounterCall → CounterCall
unfolding prefix_key
ext_counter m (incr key) = incr (prefix_key m key)
ext_counter m (incr_by key val) = incr_by (prefix_key m key) val
ext_counter m (decr key) = decr (prefix_key m key)
ext_counter m (decr_by key val) = decr_by (prefix_key m key) val
ext_counter m (set_nx key val exp) = set_nx (prefix_key m key) val exp
ext_counter m (exists key) = exists (prefix_key m key)
ext_counter m (expire key expiration) = expire (prefix_key m key) expiration

unfoldable pub client_counter : Client → CounterCall → CounterCall
unfolding fix_key
client_counter c (incr key) = incr (fix_key c key)
client_counter c (incr_by key val) = incr_by (fix_key c key) val
client_counter c (decr key) = decr (fix_key c key)
client_counter c (decr_by key val) = decr_by (fix_key c key) val
client_counter c (set_nx key val exp) = set_nx (fix_key c key) val exp
client_counter c (exists key) = exists (fix_key c key)
client_counter c (expire key expiration) = expire (fix_key c key) expiration

-- the key that a call names
unfoldable pub counter_key : CounterCall → Bytes
counter_key (incr key) = key
counter_key (incr_by key _) = key
counter_key (decr key) = key
counter_key (decr_by key _) = key
counter_key (set_nx key _ _) = key
counter_key (exists key) = key
counter_key (expire key _) = key

-- the method that is called
unfoldable pub counter_method : CounterCall → Bytes
counter_method (incr _) = codes "Incr"
counter_method (incr_by _ _) = codes "IncrBy"
counter_method (decr _) = codes "Decr"
counter_method (decr_by _ _) = codes "DecrBy"
counter_method (set_nx _ _ _) = codes "SetNX"
counter_method (exists _) = codes "Exists"
counter_method (expire _ _) = codes "Expire"

abbrev onto : Value → Option (List Value) → Option (List Value)
onto v none = none
onto v (some vs) = some (v ∷ vs)

-- the loop over `pairs` at an even or an odd position; the type assertion on a key that is no
-- string panics
unfoldable pub fix_pairs : (Bytes → Bytes) → Bool → List Value → Option (List Value)
fix_pairs f even [] = some []
fix_pairs f true (text key ∷ pairs) = onto (text (f key)) (fix_pairs f false pairs)
fix_pairs f true (_ ∷ pairs) = none
fix_pairs f false (v ∷ pairs) = onto v (fix_pairs f true pairs)

unfoldable pub ext_mget : RedisExt → List Bytes → List Bytes
unfolding prefix_key
ext_mget m keys = map (prefix_key m) keys

unfoldable pub ext_mset : RedisExt → List Value → Option (List Value)
unfolding fix_pairs prefix_key
ext_mset m pairs = fix_pairs (prefix_key m) true pairs

unfoldable pub ext_del : RedisExt → Bytes → List Bytes
unfolding prefix_key
ext_del m key = prefix_key m key ∷ []

unfoldable pub client_mget : Client → List Bytes → List Bytes
unfolding fix_key
client_mget c keys = map (fix_key c) keys

unfoldable pub client_mset : Client → List Value → Option (List Value)
unfolding fix_pairs fix_key
client_mset c pairs = fix_pairs (fix_key c) true pairs

unfoldable pub client_del : Client → List Bytes → List Bytes
unfolding fix_key
client_del c keys = map (fix_key c) keys
