-- ===== src/RedisExt/Scripts.antt =====
-- cache/redisext/script.go over cache/redis/redis.go: Lua scripts. SHA-1 in hexadecimal is a
-- parameter, and so are the scripts that the server holds. Both layers write the keys into the
-- slice that the caller gave, which a method therefore returns.
use sutil.RedisExt.{Client, fix_key, RedisExt, prefix_key, Value}
use sutil.Prelude.{
  Option, none, some, List, [], ◌∷◌, map, ◌<◌, ◌≡◌, refl, ap, Bool, false, length, ◌≤◌, sym, ◌∙◌,
  ◌≢◌, inl, inr, ◌++◌, arith, Bool-cases, length-append, ◌||◌,
}
use sutil.Prelude.Text.{Bytes, join, text_eq}
use sutil.RedisExt.Keys.{full_key}

pub record Script : Type 0 where
  pub src : Bytes
  pub hash : Bytes

unfoldable pub new_script : (Bytes → Bytes) → Bytes → Script
new_script sha1_hex src = record { src = src; hash = sha1_hex src }

-- what go-redis is called with
pub data ScriptCall : Type 0 where
  script_load : Bytes → ScriptCall
  script_exists : Bytes → ScriptCall
  eval : Bytes → List Bytes → List Value → ScriptCall
  eval_sha : Bytes → List Bytes → List Value → ScriptCall

unfoldable pub client_script_load : Bytes → ScriptCall
client_script_load script = script_load script

unfoldable pub client_script_exists : Bytes → ScriptCall
client_script_exists script_hash = script_exists script_hash

-- `Client.Eval` and `Client.EvalSha`: the slice as it leaves it, and the call
unfoldable pub client_eval : Client → Bytes → List Bytes → List Value → List Bytes × ScriptCall
unfolding fix_key
client_eval c script keys args = let fixed = map (fix_key c) keys in (fixed, eval script fixed args)

unfoldable pub client_eval_sha : Client → Bytes → List Bytes → List Value → List Bytes × ScriptCall
unfolding fix_key
client_eval_sha c script_hash keys args =
    let fixed = map (fix_key c) keys in (fixed, eval_sha script_hash fixed args)

-- `RedisExt.ScriptLoad`
unfoldable pub ext_script_load : Option Client → Script → Option ScriptCall
unfolding client_script_load
ext_script_load none script = none
ext_script_load (some c) script = some (client_script_load script.src)

-- the call of `RedisExt.ScriptExists`
unfoldable pub ext_script_exists : Option Client → Script → Option ScriptCall
unfolding client_script_exists
ext_script_exists none script = none
ext_script_exists (some c) script = some (client_script_exists script.src)

-- what it gives for the answer: its first element, or its error, which is none
unfoldable pub exists_result : Option (List Bool) → Option Bool
exists_result none = none
exists_result (some []) = some false
exists_result (some (r ∷ result)) = some r

unfoldable pub eval_on :
    Option Client → Bytes → List Bytes → List Value → List Bytes × Option ScriptCall
unfolding client_eval
eval_on none script keys args = (keys, none)
eval_on (some c) script keys args =
    let (fixed, made) = client_eval c script keys args in (fixed, some made)

unfoldable pub eval_sha_on :
    Option Client → Bytes → List Bytes → List Value → List Bytes × Option ScriptCall
unfolding client_eval_sha
eval_sha_on none script_hash keys args = (keys, none)
eval_sha_on (some c) script_hash keys args =
    let (fixed, made) = client_eval_sha c script_hash keys args in (fixed, some made)

-- `RedisExt.Eval`, whose loop over the keys stands before `getRedisInstance`
unfoldable pub ext_eval :
    RedisExt → Option Client → Script → List Bytes → List Value → List Bytes × Option ScriptCall
unfolding eval_on prefix_key
ext_eval m c script keys args = eval_on c script.src (map (prefix_key m) keys) args

-- `RedisExt.EvalSha`
unfoldable pub ext_eval_sha :
    RedisExt → Option Client → Script → List Bytes → List Value → List Bytes × Option ScriptCall
unfolding eval_sha_on prefix_key
ext_eval_sha m c script keys args = eval_sha_on c script.hash (map (prefix_key m) keys) args

-- the keys of a call
unfoldable pub script_keys : Option ScriptCall → List Bytes
script_keys (some (eval _ keys _)) = keys
script_keys (some (eval_sha _ keys _)) = keys
script_keys _ = []

-- `EvalSha` and, where the server does not know the script, `Eval` with the same slice
unfoldable pub eval_sha_then_eval :
    RedisExt
    → Option Client
    → Script
    → List Bytes
    → List Value
    → Option ScriptCall × Option ScriptCall
unfolding ext_eval ext_eval_sha
eval_sha_then_eval m c script keys args =
    let (after, first) = ext_eval_sha m c script keys args in
    let (_, second) = ext_eval m c script after args in (first, second)

map-full_key :
    (m : RedisExt) (c : Client) (keys : List Bytes)
    → map (fix_key c) (map (prefix_key m) keys) ≡ map (full_key m c) keys
unfolding full_key
map-full_key m c [] = refl
map-full_key m c (k ∷ keys) = ap (◌∷◌ (full_key m c k)) (map-full_key m c keys)

length-fix_key : (c : Client) (k : Bytes) → length k < length (fix_key c k)
unfolding fix_key join
length-fix_key c k = elim (Bool-cases c.use_wrapper) [
  | inl e ↦ ground (
    arith,
    e,
    length-append c.namespace (b'.' ∷ (c.wrapper ++ (b'.' ∷ k))),
    length-append c.wrapper (b'.' ∷ k),
  )
  | inr e ↦ ground (arith, e, length-append c.namespace (b'.' ∷ k))
]

length-prefix_key : (m : RedisExt) (k : Bytes) → length k ≤ length (prefix_key m k)
unfolding prefix_key join
length-prefix_key m k = ground (arith, length-append m.prefix (b'.' ∷ k))

full_key-ne : (m : RedisExt) (c : Client) (k : Bytes) → full_key m c k ≢ k
unfolding full_key
full_key-ne m c k e =
    ground (arith, ap length e, length-fix_key c (prefix_key m k), length-prefix_key m k)

map-full_key-ne :
    (m : RedisExt) (c : Client) (k : Bytes) (keys : List Bytes)
    → map (full_key m c) (k ∷ keys) ≢ k ∷ keys
map-full_key-ne m c k keys e = full_key-ne m c k (ground (arith, e))

-- `EvalSha` calls go-redis with each key behind prefix and namespace. `Eval`, called next with the
-- same slice, puts them before those keys again, so that where there is a key, the two calls name
-- different keys.
pub eval_sha_then_eval_lem :
    (m : RedisExt) (c : Client) (script : Script) (k : Bytes) (keys : List Bytes)
    (args : List Value)
    → let (first, second) = eval_sha_then_eval m (some c) script (k ∷ keys) args in
      (script_keys first ≡ map (full_key m c) (k ∷ keys))
      × (script_keys second ≡ map (full_key m c) (script_keys first))
      × (script_keys second ≢ script_keys first)
unfolding eval_sha_then_eval ext_eval ext_eval_sha eval_on eval_sha_on client_eval client_eval_sha
    script_keys
eval_sha_then_eval_lem m c script k keys args =
    let e = map-full_key m c (k ∷ keys) in
    let d = map-full_key m c (map (fix_key c) (map (prefix_key m) (k ∷ keys))) in
    (e, d, λ q. map-full_key-ne m c _ _ (sym d ∙ q))

module _ {Server : Type 0} (load : Server → Bytes → Server) (knows : Server → Bytes → Bool) where
  unfoldable pub after_call : Server → Option ScriptCall → Server
  after_call s (some (script_load body)) = load s body
  after_call s _ = s

  unfoldable pub exists_answer : Server → Option ScriptCall → Option (List Bool)
  exists_answer s (some (script_exists of)) = some (knows s of ∷ [])
  exists_answer s _ = none

  -- `ScriptLoad` and then `ScriptExists` of the same script
  unfoldable pub load_then_exists : Option Client → Script → Server → Option Bool
  unfolding after_call exists_answer ext_script_load ext_script_exists exists_result
  load_then_exists c script s =
      let loaded = after_call s (ext_script_load c script) in
      exists_result (exists_answer loaded (ext_script_exists c script))

  -- Right behind a `ScriptLoad`, `ScriptExists` of the same script answers whether the server holds
  -- a script whose hash is the source text, where the server holds what it loaded under its hash:
  -- unless the text is its own hash, the load changes nothing of the answer.
  pub load_then_exists_lem :
      (sha1_hex : Bytes → Bytes)
      → ((s : Server) (body hash : Bytes)
          → knows (load s body) hash ≡ text_eq (sha1_hex body) hash || knows s hash)
      → (c : Client) (src : Bytes) (s : Server)
      → load_then_exists (some c) (new_script sha1_hex src) s
        ≡ some (text_eq (sha1_hex src) src || knows s src)
  unfolding load_then_exists after_call exists_answer ext_script_load ext_script_exists
      exists_result new_script client_script_load client_script_exists
  load_then_exists_lem sha1_hex law c src s = ap some (law s src src)
