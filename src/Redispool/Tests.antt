-- ===== src/Redispool/Tests.antt =====
-- A pool at concrete replies.
use sutil.Prelude.Text.{Bytes, codes, text_eq}
use sutil.Prelude.Maps.{lookup, store}
use sutil.Redispool.{RedisPool, value, Try, Ran, cmd_single, opened, sent, get_pool, channel_or_new}
use sutil.Redispool.Connections.{Bounded, idle, opens, closes}
use sutil.Redispool.Leaks.{eof, cmd_single-conserves}
use sutil.Prelude.{ℕ, ◌+◌, ◌≡◌, refl, ◌≢◌, some, [], ◌∷◌, arith}
use sutil.Redispool.Lua.{LuaScript, eval_single}

abbrev here : Bytes
here = codes "h:1"

abbrev works : ℕ → Try
works c = record { dialled = some c; reply = value [] }

abbrev breaks : ℕ → Try
breaks c = record { dialled = some c; reply = eof }

abbrev fresh : RedisPool
fresh = record { clipool = []; pool_len = 2 }

abbrev one_idle : ℕ → RedisPool
one_idle c = record { clipool = (here, c ∷ []) ∷ []; pool_len = 2 }

abbrev ran_once : Ran
ran_once = record { answer = value []; after = one_idle 7; trace = opened 7 ∷ sent 7 ∷ [] }

runs_once : cmd_single here (works 7 ∷ []) fresh ≡ some ran_once
unfolding cmd_single lookup store text_eq
runs_once = refl

fresh-Bounded : Bounded fresh
unfolding get_pool channel_or_new lookup
fresh-Bounded addr = ground arith

value_ne_eof : value [] ≢ eof
value_ne_eof e = ground (arith, e)

cmd_single-conserves_example :
    idle here (one_idle 7) + closes ran_once.trace ≡ idle here fresh + opens ran_once.trace
cmd_single-conserves_example =
    cmd_single-conserves here (works 7) [] fresh ran_once value_ne_eof runs_once

abbrev ran_twice : Ran
ran_twice = record {
  answer = value [];
  after = one_idle 8;
  trace = opened 7 ∷ sent 7 ∷ opened 8 ∷ sent 8 ∷ [];
}

runs_twice : cmd_single here (breaks 7 ∷ works 8 ∷ []) fresh ≡ some ran_twice
unfolding cmd_single lookup store text_eq
runs_twice = refl

abbrev script : LuaScript
script = record { sha1 = codes "ab"; data_text = codes "return 1" }

eval_runs :
    eval_single here (codes "k") ((codes "k", script) ∷ []) (works 7 ∷ []) [] fresh ≡ some ran_once
unfolding eval_single lookup store text_eq cmd_single
eval_runs = refl
