-- ===== src/Redispool/Connections.antt =====
-- Where the connections of a pool are.
use sutil.Prelude.Text.{Bytes, text_eq}
use sutil.Prelude.Maps.{lookup-store}
use sutil.Redispool.{
  RedisPool, Reply, value, error_reply, Try, Event, opened, sent, closed, get, get_from, get_pool,
  set_pool, payback, settle, Ran, after_get, cmd_single_retry, cmd_single, channel_or_new, add,
}
use sutil.Prelude.{
  ℕ, suc, ◌≤◌, ◌≡◌, refl, Option, none, some, List, [], ◌∷◌, ◌++◌, arith, if◌then◌else◌, length,
  length-append, ◌+◌, ◌≢◌, inl, inr, Option-cases,
}

abbrev pub opens : List Event → ℕ
opens [] = 0
opens (opened c ∷ es) = suc (opens es)
opens (sent c ∷ es) = opens es
opens (closed c ∷ es) = opens es

abbrev pub closes : List Event → ℕ
closes [] = 0
closes (closed c ∷ es) = suc (closes es)
closes (sent c ∷ es) = closes es
closes (opened c ∷ es) = closes es

abbrev pub idle : Bytes → RedisPool → ℕ
idle addr p = length (get_pool addr p)

-- no channel holds more than the pool's length
abbrev pub Bounded : RedisPool → Type 0
Bounded p = (addr : Bytes) → idle addr p ≤ p.pool_len

pub get_pool-set_pool :
    (addr other : Bytes) (po : List ℕ) (p : RedisPool)
    → get_pool other (set_pool addr po p) ≡ (if text_eq addr other then po else get_pool other p)
unfolding get_pool set_pool channel_or_new
get_pool-set_pool addr other po p = ground (arith, lookup-store addr other po p.clipool)

pool_len-set_pool :
    (addr : Bytes) (po : List ℕ) (p : RedisPool) → (set_pool addr po p).pool_len ≡ p.pool_len
unfolding set_pool
pool_len-set_pool addr po p = refl

Bounded-set_pool :
    (addr : Bytes) (po : List ℕ) (p : RedisPool)
    → Bounded p
    → length po ≤ p.pool_len
    → Bounded (set_pool addr po p)
Bounded-set_pool addr po p b l other =
    ground (arith, get_pool-set_pool addr other po p, pool_len-set_pool addr po p, b other)

get_from-Bounded :
    (addr : Bytes) (dialled : Option ℕ) (po : List ℕ) (p : RedisPool)
    → Bounded p
    → length po ≤ p.pool_len
    → Bounded (get_from addr dialled po p).pool
unfolding get_from add
get_from-Bounded addr none [] p b l = Bounded-set_pool addr [] p b l
get_from-Bounded addr (some c) [] p b l = Bounded-set_pool addr [] p b l
get_from-Bounded addr dialled (c ∷ po) p b l = Bounded-set_pool addr po p b (ground arith)

get-Bounded :
    (addr : Bytes) (dialled : Option ℕ) (p : RedisPool)
    → Bounded p
    → Bounded (get addr dialled p).pool
unfolding get
get-Bounded addr dialled p b = get_from-Bounded addr dialled (get_pool addr p) p b (b addr)

payback-Bounded : (addr : Bytes) (c : ℕ) (p : RedisPool) → Bounded p → Bounded (payback addr c p).0
unfolding payback
payback-Bounded addr c p b other = ground (
  arith,
  get_pool-set_pool addr other (get_pool addr p ++ c ∷ []) p,
  pool_len-set_pool addr (get_pool addr p ++ c ∷ []) p,
  b other,
  length-append (get_pool addr p) (c ∷ []),
)

settle-Bounded :
    (retrytimes : ℕ) (addr : Bytes) (c : ℕ) (r : Reply) (p : RedisPool) (retry : Option Ran)
    (ran : Ran)
    → Bounded p
    → ((again : Ran) → retry ≡ some again → Bounded again.after)
    → settle retrytimes addr c r p retry ≡ some ran
    → Bounded ran.after
unfolding settle
settle-Bounded retrytimes addr c (value v) p retry ran b again h other =
    ground (arith, payback-Bounded addr c p b other)
settle-Bounded retrytimes addr c (error_reply e) p none ran b again h other =
    ground (arith, b other)
settle-Bounded retrytimes addr c (error_reply e) p (some r) ran b again h other =
    ground (arith, b other, again r refl other)

cmd_single_retry-Bounded :
    (retrytimes : ℕ) (addr : Bytes) (tries : List Try) (p : RedisPool) (ran : Ran)
    → Bounded p
    → cmd_single_retry retrytimes addr tries p ≡ some ran
    → Bounded ran.after
unfolding cmd_single_retry after_get
cmd_single_retry-Bounded retrytimes addr [] p ran b h = λ other. ground (arith, h)
cmd_single_retry-Bounded retrytimes addr (t ∷ tries) p ran b h =
    let g = get addr t.dialled p in
    let bg : Bounded g.pool = get-Bounded addr t.dialled p b in
    elim (Option-cases g.entry) [
      | inl e ↦ λ other. ground (arith, h, e, bg other)
      | inr (c, e) ↦
          let retry = cmd_single_retry (retrytimes + 1) addr tries g.pool in
          elim (Option-cases (settle retrytimes addr c t.reply g.pool retry)) [
            | inl f ↦ λ other. ground (arith, h, e, f)
            | inr (r, f) ↦ λ other. ground (
              arith,
              h,
              e,
              f,
              settle-Bounded retrytimes addr c t.reply g.pool retry r bg
                  (λ again.
                    λ i. cmd_single_retry-Bounded (retrytimes + 1) addr tries g.pool again bg i)
                  f other,
            )
          ]
    ]

-- A command leaves at most `pool_len` connections in every channel.
pub cmd_single-Bounded :
    (addr : Bytes) (tries : List Try) (p : RedisPool) (ran : Ran)
    → Bounded p
    → cmd_single addr tries p ≡ some ran
    → Bounded ran.after
unfolding cmd_single
cmd_single-Bounded addr tries p ran b h = cmd_single_retry-Bounded 0 addr tries p ran b h

second_try_returns :
    (addr : Bytes) (t : Try) (tries : List Try) (p : RedisPool)
    → cmd_single_retry 1 addr (t ∷ tries) p ≢ none
unfolding cmd_single_retry after_get settle
second_try_returns addr t tries p h = ground (arith, h, Option-cases (get addr t.dialled p).entry)

-- A command returns within two tries.
pub cmd_single-ne-none :
    (addr : Bytes) (t u : Try) (p : RedisPool) → cmd_single addr (t ∷ u ∷ []) p ≢ none
unfolding cmd_single cmd_single_retry after_get settle
cmd_single-ne-none addr t u p h = ground (
  arith,
  h,
  Option-cases (get addr t.dialled p).entry,
  second_try_returns addr u [] (get addr t.dialled p).pool,
)
