-- ===== src/CacheValue/ReadThrough.antt =====
-- cache/value/value.go: what the cache answers with, and for how long.
use sutil.Prelude.Text.{Bytes, text_eq_iff, text_eq_refl}
use sutil.Prelude.Maps.{lookup, store, delete, lookup-store_self, lookup-delete}
use sutil.CacheValue.{
  Result, ok, err, Key, Entry, Redis, no_faults, redis_nil, prefix_key, get, load, del, decode,
  get_value_from_cache, load_value_to_cache, data_of_load, stored, set_redis, on_cached, decoded,
  answer_of_redis, cache_error, dirty_expire_time, deleted, ◌>>=◌,
}
use sutil.Prelude.{ℕ, ◌≡◌, refl, ◌≢◌, Option, none, some, arith}

module _ {V : Type 0} (marshal : V → Result Bytes) (unmarshal : Bytes → Option V) where
  module _ (prefix skey : Bytes) (expire : ℕ) (key : Key)
      (keyed : prefix_key prefix key ≡ ok skey) where
    miss :
        (redis : Redis)
        → lookup skey redis ≡ none
        → get_value_from_cache unmarshal prefix key no_faults redis ≡ err redis_nil
    unfolding get_value_from_cache answer_of_redis
    miss redis h = rw (keyed, h) refl

    get_on_miss :
        (loaded : Result V) (redis : Redis)
        → lookup skey redis ≡ none
        → get marshal unmarshal prefix expire loaded key no_faults no_faults redis ≡ (
          decode unmarshal (data_of_load marshal expire loaded).payload,
          store skey (data_of_load marshal expire loaded) redis,
        )
    unfolding get on_cached load_value_to_cache stored set_redis decoded
    get_on_miss loaded redis h = rw (miss redis h, text_eq_refl redis_nil, keyed) refl

    hit_value :
        (e : Entry) (v : V) (redis : Redis)
        → lookup skey redis ≡ some e
        → unmarshal e.payload ≡ some v
        → get_value_from_cache unmarshal prefix key no_faults redis ≡ ok v
    unfolding get_value_from_cache answer_of_redis decode
    hit_value e v redis h d = rw (keyed, h, ◌>>=◌, decode, d) refl

    hit_text :
        (e : Entry) (redis : Redis)
        → lookup skey redis ≡ some e
        → unmarshal e.payload ≡ none
        → get_value_from_cache unmarshal prefix key no_faults redis ≡ err e.payload
    unfolding get_value_from_cache answer_of_redis decode
    hit_text e redis h d = rw (keyed, h, ◌>>=◌, decode, d) refl

    get_of_value :
        (loaded : Result V) (e : Entry) (v : V) (redis : Redis)
        → lookup skey redis ≡ some e
        → unmarshal e.payload ≡ some v
        → get marshal unmarshal prefix expire loaded key no_faults no_faults redis ≡ (ok v, redis)
    unfolding get on_cached
    get_of_value loaded e v redis h d = rw (hit_value e v redis h d) refl

    get_of_text :
        (loaded : Result V) (e : Entry) (redis : Redis)
        → lookup skey redis ≡ some e
        → unmarshal e.payload ≡ none
        → e.payload ≢ redis_nil
        → get marshal unmarshal prefix expire loaded key no_faults no_faults redis
          ≡ (err (cache_error key e.payload), redis)
    unfolding get on_cached
    get_of_text loaded e redis h d n =
        rw (hit_text e redis h d) (ground (arith, n, text_eq_iff e.payload redis_nil))

    decode_value : (d : Bytes) (v : V) → unmarshal d ≡ some v → decode unmarshal d ≡ ok v
    unfolding decode
    decode_value d v h = rw (h, decode) refl

    decode_text : (d : Bytes) → unmarshal d ≡ none → decode unmarshal d ≡ err d
    unfolding decode
    decode_text d h = rw (h, decode) refl

    data_of_value :
        (v : V) (d : Bytes)
        → marshal v ≡ ok d
        → data_of_load marshal expire (ok v) ≡ record { payload = d; expire = expire }
    unfolding data_of_load
    data_of_value v d h = rw (h, data_of_load) refl

    -- Without faults, a value that `load` gives on a miss, and whose encoding decodes to it again, is
    -- returned and kept with the cache's time: a `Get` that finds it there returns it again and changes
    -- nothing, whatever `load` would give by then.
    pub get-get_kept :
        (v : V) (d : Bytes) (later : Result V) (redis : Redis)
        → marshal v ≡ ok d
        → unmarshal d ≡ some v
        → lookup skey redis ≡ none
        → (get marshal unmarshal prefix expire (ok v) key no_faults no_faults redis
            ≡ (ok v, store skey (record { payload = d; expire = expire }) redis))
          × (get marshal unmarshal prefix expire later key no_faults no_faults
                (store skey (record { payload = d; expire = expire }) redis)
              ≡ (ok v, store skey (record { payload = d; expire = expire }) redis))
    get-get_kept v d later redis m u h =
        let e : Entry = record { payload = d; expire = expire } in
        (
          rw (get_on_miss (ok v) redis h, data_of_value v d m, decode_value d v u) refl,
          get_of_value later e v (store skey e redis) (lookup-store_self skey e redis) u,
        )

    -- Without faults, an error of `load` on a miss is returned as it is, where its text is no encoded
    -- value and not that of a miss. The text is kept with a time of 60 seconds: a `Get` that finds it
    -- there gives it as an error, behind the key, changes nothing and has no use for `load`.
    pub get-get_failed :
        (e : Bytes) (later : Result V) (redis : Redis)
        → unmarshal e ≡ none
        → e ≢ redis_nil
        → lookup skey redis ≡ none
        → (get marshal unmarshal prefix expire (err e) key no_faults no_faults redis
            ≡ (err e, store skey (record { payload = e; expire = dirty_expire_time }) redis))
          × (get marshal unmarshal prefix expire later key no_faults no_faults
                (store skey (record { payload = e; expire = dirty_expire_time }) redis)
              ≡ (
                err (cache_error key e),
                store skey (record { payload = e; expire = dirty_expire_time }) redis,
              ))
    unfolding data_of_load
    get-get_failed e later redis u n h =
        let x : Entry = record { payload = e; expire = dirty_expire_time } in
        (
          rw (get_on_miss (err e) redis h, decode_text e u) refl,
          get_of_text later x (store skey x redis) (lookup-store_self skey x redis) u n,
        )

    -- `load` fails with a text that is an encoded value: `Get` on a miss returns that value and no
    -- error, and keeps it. `Load` returns no error for any failure of `load`.
    pub failed_load_gives_value :
        (e : Bytes) (v : V) (redis : Redis)
        → unmarshal e ≡ some v
        → lookup skey redis ≡ none
        → ((get marshal unmarshal prefix expire (err e) key no_faults no_faults redis).0 ≡ ok v)
          × ((load marshal prefix expire (err e) key no_faults redis).0 ≡ ok e)
    unfolding load load_value_to_cache stored data_of_load
    failed_load_gives_value e v redis u h =
        (rw (get_on_miss (err e) redis h, decode_value e v u) refl, rw keyed refl)

    -- After `Del` without faults the key is a miss: the next `Get` answers and keeps the value that
    -- `load` gives, where its encoding decodes to it again. What the other keys hold is as it was.
    pub get-del :
        (v : V) (d : Bytes) (other : Bytes) (redis : Redis)
        → marshal v ≡ ok d
        → unmarshal d ≡ some v
        → other ≢ skey
        → (get marshal unmarshal prefix expire
              (ok v)
              key
              no_faults
              no_faults
              (del prefix key no_faults redis).1
            ≡ (
              ok v,
              store skey
                  (record { payload = d; expire = expire })
                  (del prefix key no_faults redis).1,
            ))
          × (lookup other (del prefix key no_faults redis).1 ≡ lookup other redis)
    unfolding del deleted
    get-del v d other redis m u n =
        rw keyed
          let gone : lookup skey (delete skey redis) ≡ none =
              rw (lookup-delete skey skey redis, text_eq_refl skey) refl in
            (
              rw
                  (
                    get_on_miss (ok v) (delete skey redis) gone,
                    data_of_value v d m,
                    decode_value d v u,
                  )
                  refl,
              ground (arith, n, lookup-delete skey other redis, text_eq_iff skey other),
            )
