-- ===== src/Redispool/Lua.antt =====
-- redispool/redispool.go: running a script by its digest. The digest is only looked up and sent, so a
-- script is the pair of its digest and its text.
use mathlib.Core.Option
use sutil.Prelude.Text.{Bytes, codes, text_eq}
use sutil.Prelude.Maps.{Dict, lookup}
use sutil.Redispool.{RedisPool, Reply, value, error_reply, Try, Ran, behind, cmd_single}
use sutil.Prelude.{Bool, false, Option, none, some, List, [], if◌then◌else◌}

pub record LuaScript : Type 0 where
  pub sha1 : Bytes
  pub data_text : Bytes

unfoldable pub digest_of : Option LuaScript → Option Bytes
digest_of none = none
digest_of (some s) = some s.sha1

unfoldable pub sha1_lua : Bytes → Dict LuaScript → Option Bytes
unfolding digest_of
sha1_lua key luas = digest_of (lookup key luas)

abbrev pub no_script : Bytes
no_script = codes "NOSCRIPT No matching script. Please use EVAL."

unfoldable pub wants_text : Reply → Bool
wants_text (value v) = false
wants_text (error_reply e) = text_eq e no_script

abbrev pub lua_not_found : Bytes
lua_not_found = codes "get lua sha1"

unfoldable pub then_eval : Bytes → List Try → Option Ran → Option Ran
unfolding wants_text
then_eval addr again none = none
then_eval addr again (some r) =
    if wants_text r.answer
    then Option.map (behind r.trace) (cmd_single addr again r.after)
    else some r

unfoldable pub eval_known : Bytes → List Try → List Try → RedisPool → Option Bytes → Option Ran
unfolding then_eval
eval_known addr tries again p none =
    some (record { answer = error_reply lua_not_found; after = p; trace = [] })
eval_known addr tries again p (some digest) = then_eval addr again (cmd_single addr tries p)

-- `EvalSingle`: `tries` are for the digest, `again` for the text
unfoldable pub eval_single :
    Bytes → Bytes → Dict LuaScript → List Try → List Try → RedisPool → Option Ran
unfolding eval_known sha1_lua
eval_single addr key luas tries again p = eval_known addr tries again p (sha1_lua key luas)
