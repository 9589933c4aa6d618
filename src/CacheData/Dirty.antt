-- ===== src/CacheData/Dirty.antt =====
-- cache/cache.go: what a `Get` leaves for the next one.
use sutil.Prelude.{none, some, ℕ, ◌≡◌, refl, ◌⊎◌, inl, Bool, true, false, ◌*◌, ◌∙◌, inr}
use sutil.CacheData.{
  Cache, Meets, Redis, get, fix_key, get_data, set_data, after_get, encoded, after_load, on_reply,
  decoded, cache_dirty_expire_time,
}
use sutil.Prelude.Text.{Bytes}
use sutil.Prelude.Maps.{lookup, store, lookup-store_self}

-- a call that has a client and is answered
abbrev pub all_well : Meets
all_well = record { client = true; reads = true; writes = true }

module _ {Data : Type 0} (unmarshal : Bytes → Data → Data × Bool) (marshal : Data → Bytes ⊎ Bytes)
    (load : Bytes → Data → Data × Bool) (m : Cache) where
  set_on_miss :
      (key : Bytes) (d v : Data) (s : Redis)
      → lookup (fix_key m key) s ≡ none
      → load key d ≡ (v, false)
      → get unmarshal marshal load m all_well key d s
        ≡ (let (after, error) = set_data marshal m all_well key v s in (after, v, error))
  unfolding get get_data after_get after_load on_reply
  set_on_miss key d v s hl hd = rw (hl, hd) refl

  get_on_hit :
      (key : Bytes) (d : Data) (sdata : Bytes) (expire : ℕ) (v : Data) (s : Redis)
      → lookup (fix_key m key) s ≡ some (sdata, expire)
      → unmarshal sdata d ≡ (v, false)
      → get unmarshal marshal load m all_well key d s ≡ (s, v, false)
  unfolding get get_data after_get on_reply decoded
  get_on_hit key d sdata expire v s hl hd = rw (hl, hd) refl

  get_on_dirt :
      (key : Bytes) (d : Data) (sdata : Bytes) (expire : ℕ) (v : Data) (s : Redis)
      → lookup (fix_key m key) s ≡ some (sdata, expire)
      → unmarshal sdata d ≡ (v, true)
      → get unmarshal marshal load m all_well key d s ≡ (s, v, true)
  unfolding get get_data after_get on_reply decoded
  get_on_dirt key d sdata expire v s hl hd = rw (hl, hd) refl

  -- Data that were loaded on a miss and encoded are kept, and what the next `Get` of the key gives,
  -- without loading and without a change of redis, where redis answers and has not let them expire.
  pub get_twice :
      (key : Bytes) (d e v w : Data) (sdata : Bytes) (s : Redis)
      → lookup (fix_key m key) s ≡ none
      → load key d ≡ (v, false)
      → marshal v ≡ inl sdata
      → unmarshal sdata e ≡ (w, false)
      → let after = store (fix_key m key) (sdata, m.expire * 1_000_000_000) s in
        (get unmarshal marshal load m all_well key d s ≡ (after, v, false))
        × (get unmarshal marshal load m all_well key e after ≡ (after, w, false))
  unfolding set_data encoded
  get_twice key d e v w sdata s hl hd hs hu = (
    set_on_miss key d v s hl hd ∙ rw hs refl,
    get_on_hit key e sdata (m.expire * 1_000_000_000) w _ (lookup-store_self (fix_key m key) _ s)
        hu,
  )

  -- Data that do not encode leave the text of the error under the key for 60 seconds, with an error, and
  -- the next `Get` of the key then gives an error without loading, where that text does not
  -- decode and redis answers and has not let it expire.
  pub get_dirty :
      (key : Bytes) (d e v w : Data) (error : Bytes) (s : Redis)
      → lookup (fix_key m key) s ≡ none
      → load key d ≡ (v, false)
      → marshal v ≡ inr error
      → unmarshal error e ≡ (w, true)
      → let after = store (fix_key m key) (error, cache_dirty_expire_time) s in
        (get unmarshal marshal load m all_well key d s ≡ (after, v, true))
        × (get unmarshal marshal load m all_well key e after ≡ (after, w, true))
  unfolding set_data encoded
  get_dirty key d e v w error s hl hd hs hu = (
    set_on_miss key d v s hl hd ∙ rw hs refl,
    get_on_dirt key e error cache_dirty_expire_time w _ (lookup-store_self (fix_key m key) _ s) hu,
  )
