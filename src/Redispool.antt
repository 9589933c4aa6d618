-- ===== src/Redispool.antt =====
-- redispool/redispool.go: the pool of connections of each redis address. A connection is a number. What
-- dialling and the commands answer is an input of each try, and what a call does to connections is a
-- list of events. A channel is the list of its connections, the first to leave at the front.
pub mod Connections
pub mod Leaks
pub mod Lua
pub mod Scripts
mod Tests
use mathlib.Core.Option
use sutil.Prelude.Text.{Bytes, codes, text_eq}
use sutil.Prelude.Maps.{Dict, lookup, store}
use sutil.Prelude.{
  ℕ, ◌+◌, Bool, Option, none, some, List, [], ◌∷◌, ◌++◌, map, ltb, ◌==◌, if◌then◌else◌, length,
}

pub data Reply : Type 0 where
  value : Bytes → Reply
  error_reply : Bytes → Reply

-- what one try meets: the connection that dialling gives, if it has to dial, and the command's reply
pub record Try : Type 0 where
  pub dialled : Option ℕ
  pub reply : Reply

pub data Event : Type 0 where
  opened : ℕ → Event
  sent : ℕ → Event
  closed : ℕ → Event

pub record RedisPool : Type 0 where
  pub clipool : Dict (List ℕ)
  pub pool_len : ℕ

unfoldable pub channel_or_new : Option (List ℕ) → List ℕ
channel_or_new (some po) = po
channel_or_new none = []

-- `getPool`: what is in the channel of an address
unfoldable pub get_pool : Bytes → RedisPool → List ℕ
unfolding channel_or_new
get_pool addr p = channel_or_new (lookup addr p.clipool)

unfoldable pub set_pool : Bytes → List ℕ → RedisPool → RedisPool
set_pool addr po p = record p { clipool = store addr po p.clipool }

-- a connection or none (the error of dialling), the pool, and the events
pub record Got : Type 0 where
  pub entry : Option ℕ
  pub pool : RedisPool
  pub events : List Event

unfoldable pub add : Option ℕ → RedisPool → Got
add none p = record { entry = none; pool = p; events = [] }
add (some c) p = record { entry = some c; pool = p; events = opened c ∷ [] }

unfoldable pub get_from : Bytes → Option ℕ → List ℕ → RedisPool → Got
unfolding add set_pool
get_from addr dialled [] p = add dialled (set_pool addr [] p)
get_from addr dialled (c ∷ po) p = record { entry = some c; pool = set_pool addr po p; events = [] }

unfoldable pub get : Bytes → Option ℕ → RedisPool → Got
unfolding get_from get_pool
get addr dialled p = get_from addr dialled (get_pool addr p) p

-- the pool and the events
unfoldable pub payback : Bytes → ℕ → RedisPool → RedisPool × List Event
unfolding get_pool set_pool
payback addr c p =
    if ltb (length (get_pool addr p)) p.pool_len
    then (set_pool addr (get_pool addr p ++ c ∷ []) p, [])
    else (p, closed c ∷ [])

pub record Ran : Type 0 where
  pub answer : Reply
  pub after : RedisPool
  pub trace : List Event

abbrev pub behind : List Event → Ran → Ran
behind es r = record r { trace = es ++ r.trace }

unfoldable pub is_eof : Bytes → Bool
is_eof e = text_eq e (codes "EOF")

-- behind the command on the connection `c`; `retry` is the call with `retrytimes+1`
unfoldable pub settle : ℕ → Bytes → ℕ → Reply → RedisPool → Option Ran → Option Ran
unfolding payback is_eof
settle retrytimes addr c (value v) p retry =
    let (after, es) = payback addr c p in
    some (record { answer = value v; after = after; trace = sent c ∷ es })
settle retrytimes addr c (error_reply e) p retry =
    if is_eof e
    then if ltb 0 retrytimes
      then some (record { answer = error_reply e; after = p; trace = sent c ∷ [] })
      else Option.map (behind (sent c ∷ [])) retry
    else some (record { answer = error_reply e; after = p; trace = sent c ∷ closed c ∷ [] })

abbrev pub no_connection : Bytes
no_connection = codes "get conn"

-- none stands for a call that would need more tries than are given
unfoldable pub after_get : ℕ → Bytes → Reply → Got → (RedisPool → Option Ran) → Option Ran
unfolding settle
after_get retrytimes addr r g retry = elim g.entry [
  | none ↦ some (record { answer = error_reply no_connection; after = g.pool; trace = g.events })
  | some c ↦ Option.map (behind g.events) (settle retrytimes addr c r g.pool (retry g.pool))
]

unfoldable pub cmd_single_retry : ℕ → Bytes → List Try → RedisPool → Option Ran
unfolding after_get get
cmd_single_retry retrytimes addr [] p = none
cmd_single_retry retrytimes addr (t ∷ tries) p =
    after_get retrytimes addr t.reply (get addr t.dialled p)
      (cmd_single_retry (retrytimes + 1) addr tries)

unfoldable pub cmd_single : Bytes → List Try → RedisPool → Option Ran
unfolding cmd_single_retry
cmd_single addr tries p = cmd_single_retry 0 addr tries p

-- `NewRedisPool`; POOL_SIZE stands in for a length of 0 (or below)
unfoldable pub new_redis_pool : ℕ → RedisPool
new_redis_pool pool_len = record {
  clipool = [];
  pool_len = if pool_len == 0 then 512 else pool_len;
}
