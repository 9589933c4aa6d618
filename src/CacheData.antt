-- ===== src/CacheData.antt =====
-- cache/cache.go: the cache whose data load themselves. Redis is the map of what it holds, with the
-- time to live that was set; whether there is a client, and whether redis answers a call, are inputs
-- of each call. The data are a type with their encoding, decoding and loading as parameters, where a
-- decoding or a load gives what the data become and whether it fails.
pub mod Dirty
use sutil.Prelude.Text.{Bytes, join}
use sutil.Prelude.Maps.{Dict, lookup, store, delete}
use sutil.Prelude.{
  ℕ, ◌*◌, Bool, true, false, Option, none, some, [], ◌∷◌, ltb, if◌then◌else◌, length, ◌⊎◌, inl, inr,
}

pub record Cache : Type 0 where
  pub expire : ℕ
  pub prefix : Bytes

-- constants.CacheDirtyExpireTime, in nanoseconds
abbrev pub cache_dirty_expire_time : ℕ
cache_dirty_expire_time = 60_000_000_000

abbrev pub Redis : Type 0
Redis = Dict (Bytes × ℕ)

-- what a call meets: a client, and answers to `Get` and to `Set` or `Del`
pub record Meets : Type 0 where
  pub client : Bool
  pub reads : Bool
  pub writes : Bool

unfoldable pub fix_key : Cache → Bytes → Bytes
fix_key m key = if ltb 0 (length m.prefix) then join (m.prefix ∷ key ∷ []) b'.' else key

-- the error of `getData`: none, that of redis for a missing key, or another one
pub data GetError : Type 0 where
  got : GetError
  redis_nil : GetError
  other_error : GetError

module _ {Data : Type 0} (marshal : Data → Bytes ⊎ Bytes) where
  -- the bytes, their time to live, and whether the encoding failed
  unfoldable pub encoded : Cache → Bytes ⊎ Bytes → Bytes × ℕ × Bool
  encoded m (inl sdata) = (sdata, m.expire * 1_000_000_000, false)
  encoded m (inr error) = (error, cache_dirty_expire_time, true)

  -- `setData` and `Set`: redis afterwards, and whether there is an error
  unfoldable pub set_data : Cache → Meets → Bytes → Data → Redis → Redis × Bool
  unfolding encoded fix_key
  set_data m meets key data_of s =
      let (sdata, expire, failed) = encoded m (marshal data_of) in
      if meets.client
      then (if meets.writes then (store (fix_key m key) (sdata, expire) s, failed) else (s, true))
      else (s, true)

module _ {Data : Type 0} (unmarshal : Bytes → Data → Data × Bool) where
  unfoldable pub decoded : Data × Bool → Data × GetError
  decoded (d, true) = (d, other_error)
  decoded (d, false) = (d, got)

  unfoldable pub on_reply : Option (Bytes × ℕ) → Data → Data × GetError
  unfolding decoded
  on_reply none d = (d, redis_nil)
  on_reply (some (sdata, expire)) d = decoded (unmarshal sdata d)

  unfoldable pub get_data : Cache → Meets → Bytes → Data → Redis → Data × GetError
  unfolding on_reply fix_key
  get_data m meets key d s =
      let reply = on_reply (lookup (fix_key m key) s) d in
      if meets.client then (if meets.reads then reply else (d, other_error)) else (d, other_error)

  -- `GetCache`: a missing key is no error
  unfoldable pub is_other : GetError → Bool
  is_other got = false
  is_other redis_nil = false
  is_other other_error = true

  unfoldable pub get_cache : Cache → Meets → Bytes → Data → Redis → Data × Bool
  unfolding get_data is_other
  get_cache m meets key d s =
      let (after, error) = get_data m meets key d s in (after, is_other error)

  module _ (marshal : Data → Bytes ⊎ Bytes) (load : Bytes → Data → Data × Bool) where
    -- the end of `Get`, behind `Load`
    unfoldable pub after_load : Cache → Meets → Bytes → Data × Bool → Redis → Redis × Data × Bool
    unfolding set_data
    after_load m meets key (d, true) s = (s, d, true)
    after_load m meets key (d, false) s =
        let (after, error) = set_data marshal m meets key d s in (after, d, error)

    unfoldable pub after_get : Cache → Meets → Bytes → Data × GetError → Redis → Redis × Data × Bool
    unfolding after_load
    after_get m meets key (d, got) s = (s, d, false)
    after_get m meets key (d, other_error) s = (s, d, true)
    after_get m meets key (d, redis_nil) s = after_load m meets key (load key d) s

    -- `Get`: redis, the data, and whether there is an error
    unfoldable pub get : Cache → Meets → Bytes → Data → Redis → Redis × Data × Bool
    unfolding after_get get_data
    get m meets key d s = after_get m meets key (get_data m meets key d s) s

-- `Del`, with whether there is an error
unfoldable pub del : Cache → Meets → Bytes → Redis → Redis × Bool
unfolding fix_key
del m meets key s =
    if meets.client
    then (if meets.writes then (delete (fix_key m key) s, false) else (s, true))
    else (s, true)
