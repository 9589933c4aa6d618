-- ===== src/CacheValue/Tests.antt =====
-- A cache at concrete keys: the values are numbers below 256, written as one byte behind a b'v'.
use sutil.Prelude.Text.{Bytes, codes, text_eq}
use sutil.Prelude.Maps.{lookup, store}
use sutil.CacheValue.{
  Result, ok, err, Key, integer_key, other_key, Redis, no_faults, get, prefix_key, cache_error,
  dirty_expire_time,
}
use sutil.CacheValue.ReadThrough.{get-get_kept, get-get_failed}
use sutil.Prelude.{ℕ, ◌≡◌, refl, Option, none, some, [], ◌∷◌, arith}

abbrev marshal : ℕ → Result Bytes
marshal n = ok (b'v' ∷ n ∷ [])

abbrev unmarshal : Bytes → Option ℕ
unmarshal (c ∷ n ∷ []) = some n
unmarshal _ = none

abbrev users : Bytes
users = codes "users"

abbrev seven : Key
seven = integer_key (codes "7")

abbrev seven_key : Bytes
seven_key = codes "users.7"

abbrev another : Redis
another = store (codes "users.8") (record { payload = b'v' ∷ 1 ∷ []; expire = 300 }) []

keyed : prefix_key users seven ≡ ok seven_key
unfolding prefix_key
keyed = refl

abbrev five : Bytes
five = b'v' ∷ 5 ∷ []

get-get_kept_example :
    (get marshal unmarshal users 300 (ok 5) seven no_faults no_faults another
      ≡ (ok 5, store seven_key (record { payload = five; expire = 300 }) another))
    × (get marshal unmarshal users 300
          (err (codes "down"))
          seven
          no_faults
          no_faults
          (store seven_key (record { payload = five; expire = 300 }) another)
        ≡ (ok 5, store seven_key (record { payload = five; expire = 300 }) another))
unfolding lookup store text_eq
get-get_kept_example =
    get-get_kept marshal unmarshal users seven_key 300 seven keyed 5 five (err (codes "down"))
      another refl refl refl

get-get_failed_example :
    (get marshal unmarshal users 300 (err (codes "down")) seven no_faults no_faults another ≡ (
      err (codes "down"),
      store seven_key (record { payload = codes "down"; expire = dirty_expire_time }) another,
    ))
    × (get marshal unmarshal users 300
          (ok 5)
          seven
          no_faults
          no_faults
          (store seven_key (record { payload = codes "down"; expire = dirty_expire_time }) another)
        ≡ (
          err (cache_error seven (codes "down")),
          store seven_key (record { payload = codes "down"; expire = dirty_expire_time }) another,
        ))
unfolding lookup store text_eq
get-get_failed_example =
    get-get_failed marshal unmarshal users seven_key 300 seven keyed (codes "down") (ok 5) another
      refl (λ e. ground arith) refl

refuses_other_keys :
    get marshal unmarshal users 300 (ok 5) (other_key (codes "1.5")) no_faults no_faults another
    ≡ (err (cache_error (other_key (codes "1.5")) (codes "key err: unsupported type")), another)
unfolding get text_eq
refuses_other_keys = refl
