-- ===== src/Redispool/Scripts.antt =====
-- Running a script.
use sutil.Prelude.Text.{Bytes}
use sutil.Prelude.Maps.{Dict}
use sutil.Redispool.{RedisPool, Try, Ran, cmd_single}
use sutil.Redispool.Connections.{Bounded, cmd_single-Bounded}
use sutil.Redispool.Lua.{LuaScript, eval_single, eval_known, then_eval, sha1_lua}
use sutil.Prelude.{◌≡◌, inl, inr, some, List, arith, Option-cases}

then_eval-Bounded :
    (addr : Bytes) (again : List Try) (r ran : Ran)
    → Bounded r.after
    → then_eval addr again (some r) ≡ some ran
    → Bounded ran.after
unfolding then_eval
then_eval-Bounded addr again r ran b h = elim (Option-cases (cmd_single addr again r.after)) [
  | inl e ↦ λ other. ground (arith, h, e, b other)
  | inr (s, e) ↦
      λ other. ground (arith, h, e, b other, cmd_single-Bounded addr again r.after s b e other)
]

-- Running a script keeps every channel of the pool within its length.
pub eval_single-Bounded :
    (addr key : Bytes) (luas : Dict LuaScript) (tries again : List Try) (p : RedisPool) (ran : Ran)
    → Bounded p
    → eval_single addr key luas tries again p ≡ some ran
    → Bounded ran.after
unfolding eval_single eval_known then_eval
eval_single-Bounded addr key luas tries again p ran b h = elim (Option-cases (sha1_lua key luas)) [
  | inl e ↦ λ other. ground (arith, h, e, b other)
  | inr (d, e) ↦ elim (Option-cases (cmd_single addr tries p)) [
    | inl f ↦ λ other. ground (arith, h, e, f, b other)
    | inr (r, f) ↦
        then_eval-Bounded addr again r ran (cmd_single-Bounded addr tries p r b f)
          (ground (arith, h, e, f))
  ]
]
