-- ===== src/CacheValue.antt =====
-- cache/value/value.go: the cache that loads what redis does not have. What redis holds is the state;
-- the client, the faults of redis, the function `load` and the JSON encoding are parameters or inputs.
-- An error is its text. Metrics, spans and logging are left out.
pub mod ReadThrough
mod Tests
use sutil.Prelude.Text.{Bytes, codes, text_eq}
use sutil.Prelude.Maps.{Dict, lookup, store, delete}
use sutil.Prelude.{ℕ, Option, none, some, ◌∷◌, ◌++◌, ltb, if◌then◌else◌, length}

-- a value or the text of an error
pub data Result {ℓ} (A : Type ℓ) : Type ℓ where
  ok : A → Result A
  err : Bytes → Result A

-- what a key can be: a string, one of the integer types (as its decimal digits), or anything else (as
-- the verb %v prints it)
pub data Key : Type 0 where
  string_key : Bytes → Key
  integer_key : Bytes → Key
  other_key : Bytes → Key

-- what a key holds in redis: the data, and the time after which it expires
pub record Entry : Type 0 where
  pub payload : Bytes
  pub expire : ℕ

abbrev pub Redis : Type 0
Redis = Dict Entry

-- the faults that one use of redis meets
pub record Faults : Type 0 where
  pub no_client : Option Bytes
  pub get_fault : Option Bytes
  pub set_fault : Option Bytes
  pub del_fault : Option Bytes

abbrev pub no_faults : Faults
no_faults = record { no_client = none; get_fault = none; set_fault = none; del_fault = none }

abbrev pub redis_nil : Bytes
redis_nil = codes "redis: nil"

abbrev pub dirty_expire_time : ℕ
dirty_expire_time = 60

unfoldable pub key_to_string : Key → Result Bytes
key_to_string (string_key s) = ok s
key_to_string (integer_key s) = ok s
key_to_string (other_key s) = err (codes "key err: unsupported type")

unfoldable pub with_prefix : Bytes → Result Bytes → Result Bytes
with_prefix prefix (ok skey) =
    if ltb 0 (length prefix) then ok (prefix ++ (b'.' ∷ skey)) else ok skey
with_prefix prefix (err e) = err e

unfoldable pub prefix_key : Bytes → Key → Result Bytes
unfolding with_prefix key_to_string
prefix_key prefix key = with_prefix prefix (key_to_string key)

unfoldable pub answer_of_redis : Option Bytes → Option Entry → Result Bytes
answer_of_redis (some fault) found = err fault
answer_of_redis none (some e) = ok e.payload
answer_of_redis none none = err redis_nil

infixl 5 ◌>>=◌
abbrev pub ◌>>=◌ {ℓ κ} : {A : Type ℓ} {B : Type κ} → Result A → (A → Result B) → Result B
ok a >>= f = f a
err e >>= f = err e

-- `GetInstance`
abbrev pub client : Faults → Result (Unit {0})
client faults = elim faults.no_client [ none ↦ ok tt | some e ↦ err e ]

module _ {V : Type 0} (unmarshal : Bytes → Option V) where
  -- data that does not decode is returned as the text of the error
  unfoldable pub decode : Bytes → Result V
  decode payload = elim (unmarshal payload) [ some v ↦ ok v | none ↦ err payload ]

  unfoldable pub get_value_from_cache : Bytes → Key → Faults → Redis → Result V
  unfolding decode answer_of_redis prefix_key
  get_value_from_cache prefix key faults redis = do
    skey ← prefix_key prefix key
    c ← client faults
    payload ← answer_of_redis faults.get_fault (lookup skey redis)
    decode payload

-- the data to be stored and its time: the text of an error is stored for a short time
unfoldable pub data_of_load : {V : Type 0} → (V → Result Bytes) → ℕ → Result V → Entry
data_of_load marshal expire (err e) = record { payload = e; expire = dirty_expire_time }
data_of_load marshal expire (ok v) = elim (marshal v) [
  | ok d ↦ record { payload = d; expire = expire }
  | err e ↦ record { payload = e; expire = dirty_expire_time }
]

-- A fault of `Set` is only logged.
unfoldable pub set_redis : Bytes → Entry → Option Bytes → Redis → Redis
set_redis skey e none redis = store skey e redis
set_redis skey e (some fault) redis = redis

-- behind the key and the client
unfoldable pub stored : Entry → Faults → Redis → Result Bytes → Result Bytes × Redis
unfolding set_redis
stored e faults redis (err t) = (err t, redis)
stored e faults redis (ok skey) = (ok e.payload, set_redis skey e faults.set_fault redis)

-- `loadValueToCache`: the error of `load` is overwritten by that of `prefixKey`, so the data returned
-- is the text of the error, with no error.
unfoldable pub load_value_to_cache :
    {V : Type 0}
    → (V → Result Bytes)
    → Bytes
    → ℕ
    → Result V
    → Key
    → Faults
    → Redis
    → Result Bytes × Redis
unfolding data_of_load stored prefix_key
load_value_to_cache marshal prefix expire loaded key faults redis =
    stored (data_of_load marshal expire loaded) faults redis
      (prefix_key prefix key >>= λ skey. client faults >>= λ c. ok skey)

-- `%v` of a key
unfoldable pub print_key : Key → Bytes
print_key (string_key s) = s
print_key (integer_key s) = s
print_key (other_key s) = s

unfoldable pub cache_error : Key → Bytes → Bytes
unfolding print_key
cache_error key e = codes "Cache.Get --> cache key: " ++ (print_key key ++ (codes " err: " ++ e))

module _ {V : Type 0} (marshal : V → Result Bytes) (unmarshal : Bytes → Option V) where
  -- the end of `Get` on a miss
  unfoldable pub decoded : Result Bytes × Redis → Result V × Redis
  unfolding decode
  decoded (ok payload, redis) = (decode unmarshal payload, redis)
  decoded (err e, redis) = (err e, redis)

  unfoldable pub on_cached :
      Bytes → ℕ → Result V → Key → Faults → Redis → Result V → Result V × Redis
  unfolding decoded load_value_to_cache cache_error
  on_cached prefix expire loaded key writing redis (ok v) = (ok v, redis)
  on_cached prefix expire loaded key writing redis (err e) =
      if text_eq e redis_nil
      then decoded (load_value_to_cache marshal prefix expire loaded key writing redis)
      else (err (cache_error key e), redis)

  -- `Get`, with what `load` returns if it is called, and the faults of the read and of the write after it
  unfoldable pub get : Bytes → ℕ → Result V → Key → Faults → Faults → Redis → Result V × Redis
  unfolding on_cached get_value_from_cache
  get prefix expire loaded key reading writing redis =
      on_cached prefix expire loaded key writing redis
        (get_value_from_cache unmarshal prefix key reading redis)

-- `Load`
unfoldable pub load :
    {V : Type 0}
    → (V → Result Bytes)
    → Bytes
    → ℕ
    → Result V
    → Key
    → Faults
    → Redis
    → Result Bytes × Redis
unfolding load_value_to_cache
load marshal prefix expire loaded key faults redis =
    load_value_to_cache marshal prefix expire loaded key faults redis

unfoldable pub deleted : Key → Faults → Redis → Result Bytes → Result (Unit {0}) × Redis
unfolding print_key
deleted key faults redis (err e) = (err e, redis)
deleted key faults redis (ok skey) = elim faults.del_fault [
  | none ↦ (ok tt, delete skey redis)
  | some e ↦ (err (codes "del cache key: " ++ (print_key key ++ (codes " err: " ++ e))), redis)
]

-- `Del`
unfoldable pub del : Bytes → Key → Faults → Redis → Result (Unit {0}) × Redis
unfolding deleted prefix_key
del prefix key faults redis =
    deleted key faults redis (prefix_key prefix key >>= λ skey. client faults >>= λ c. ok skey)
