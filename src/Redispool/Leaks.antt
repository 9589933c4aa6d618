-- ===== src/Redispool/Leaks.antt =====
-- Which connections a command opens, gives back and closes.
use mathlib.Core.Option
use sutil.Prelude.Text.{Bytes, codes, text_eq_iff, text_eq_refl}
use sutil.Redispool.{
  RedisPool, Reply, value, error_reply, Try, Event, opened, sent, closed, get, get_from, get_pool,
  payback, settle, Ran, behind, is_eof, after_get, cmd_single_retry, cmd_single, add,
}
use sutil.Redispool.Connections.{opens, closes, idle, get_pool-set_pool}
use sutil.Prelude.{
  ℕ, suc, ◌+◌, ◌≡◌, ◌≢◌, inl, inr, Option, none, some, List, [], ◌∷◌, ◌++◌, arith, Option-cases,
  length, length-append,
}

-- the connection that a `get` hands out
abbrev handed : Option ℕ → ℕ
handed none = 0
handed (some c) = 1

get_from_counts :
    (addr : Bytes) (dialled : Option ℕ) (po : List ℕ) (p : RedisPool)
    → (idle addr (get_from addr dialled po p).pool + handed (get_from addr dialled po p).entry
        ≡ length po + opens (get_from addr dialled po p).events)
      × (closes (get_from addr dialled po p).events ≡ 0)
unfolding get_from add
get_from_counts addr none [] p = ground (arith, get_pool-set_pool addr addr [] p, text_eq_refl addr)
get_from_counts addr (some c) [] p =
    ground (arith, get_pool-set_pool addr addr [] p, text_eq_refl addr)
get_from_counts addr dialled (c ∷ po) p =
    ground (arith, get_pool-set_pool addr addr po p, text_eq_refl addr)

get_counts :
    (addr : Bytes) (dialled : Option ℕ) (p : RedisPool)
    → (idle addr (get addr dialled p).pool + handed (get addr dialled p).entry
        ≡ idle addr p + opens (get addr dialled p).events)
      × (closes (get addr dialled p).events ≡ 0)
unfolding get
get_counts addr dialled p = get_from_counts addr dialled (get_pool addr p) p

payback_counts :
    (addr : Bytes) (c : ℕ) (p : RedisPool)
    → (idle addr (payback addr c p).0 + closes (payback addr c p).1 ≡ suc (idle addr p))
      × (opens (payback addr c p).1 ≡ 0)
unfolding payback
payback_counts addr c p = ground (
  arith,
  get_pool-set_pool addr addr (get_pool addr p ++ c ∷ []) p,
  text_eq_refl addr,
  length-append (get_pool addr p) (c ∷ []),
)

opens-append : (es fs : List Event) → opens (es ++ fs) ≡ opens es + opens fs
opens-append [] fs = ground arith
opens-append (opened c ∷ es) fs = ground (arith, opens-append es fs)
opens-append (sent c ∷ es) fs = ground (arith, opens-append es fs)
opens-append (closed c ∷ es) fs = ground (arith, opens-append es fs)

closes-append : (es fs : List Event) → closes (es ++ fs) ≡ closes es + closes fs
closes-append [] fs = ground arith
closes-append (opened c ∷ es) fs = ground (arith, closes-append es fs)
closes-append (sent c ∷ es) fs = ground (arith, closes-append es fs)
closes-append (closed c ∷ es) fs = ground (arith, closes-append es fs)

-- the reply on which a command is tried again
abbrev pub eof : Reply
eof = error_reply (codes "EOF")

settle_counts :
    (retrytimes : ℕ) (addr : Bytes) (c : ℕ) (r : Reply) (p : RedisPool) (retry : Option Ran)
    (ran : Ran)
    → r ≢ eof
    → settle retrytimes addr c r p retry ≡ some ran
    → (idle addr ran.after + closes ran.trace ≡ suc (idle addr p)) × (opens ran.trace ≡ 0)
unfolding settle is_eof
settle_counts retrytimes addr c (value v) p retry ran ne h =
    ground (arith, h, payback_counts addr c p)
settle_counts retrytimes addr c (error_reply e) p retry ran ne h =
    ground (arith, h, ne, text_eq_iff e (codes "EOF"))

retry_counts :
    (retrytimes : ℕ) (addr : Bytes) (t : Try) (tries : List Try) (p : RedisPool) (ran : Ran)
    → t.reply ≢ eof
    → cmd_single_retry retrytimes addr (t ∷ tries) p ≡ some ran
    → idle addr ran.after + closes ran.trace ≡ idle addr p + opens ran.trace
unfolding cmd_single_retry after_get
retry_counts retrytimes addr t tries p ran ne h =
    let g = get addr t.dialled p in
    elim (Option-cases g.entry) [
      | inl e ↦ ground (arith, h, e, get_counts addr t.dialled p)
      | inr (c, e) ↦
          let retry = cmd_single_retry (retrytimes + 1) addr tries g.pool in
          elim (Option-cases (settle retrytimes addr c t.reply g.pool retry)) [
            | inl f ↦ ground (arith, h, e, f)
            | inr (r, f) ↦ ground (
              arith,
              h,
              e,
              f,
              get_counts addr t.dialled p,
              settle_counts retrytimes addr c t.reply g.pool retry r ne f,
              opens-append g.events r.trace,
              closes-append g.events r.trace,
            )
          ]
    ]

-- Where the first reply is not EOF, a command loses no connection: those of its address that were idle
-- or opened are idle afterwards or closed.
pub cmd_single-conserves :
    (addr : Bytes) (t : Try) (tries : List Try) (p : RedisPool) (ran : Ran)
    → t.reply ≢ eof
    → cmd_single addr (t ∷ tries) p ≡ some ran
    → idle addr ran.after + closes ran.trace ≡ idle addr p + opens ran.trace
unfolding cmd_single
cmd_single-conserves addr t tries p ran ne h = retry_counts 0 addr t tries p ran ne h

settle-eof :
    (addr : Bytes) (c : ℕ) (p : RedisPool) (retry : Option Ran)
    → settle 0 addr c eof p retry ≡ Option.map (behind (sent c ∷ [])) retry
unfolding settle is_eof
settle-eof addr c p retry = ground (arith, text_eq_refl (codes "EOF"))

-- Where the first reply is EOF, and the second is not, the connection of the first try is lost: of those
-- that were idle or opened, one less is idle afterwards or closed.
pub cmd_single-leaks :
    (addr : Bytes) (t u : Try) (c : ℕ) (p : RedisPool) (ran : Ran)
    → t.reply ≡ eof
    → u.reply ≢ eof
    → (get addr t.dialled p).entry ≡ some c
    → cmd_single addr (t ∷ u ∷ []) p ≡ some ran
    → suc (idle addr ran.after + closes ran.trace) ≡ idle addr p + opens ran.trace
unfolding cmd_single cmd_single_retry after_get
cmd_single-leaks addr t u c p ran eq ne e h =
    let g = get addr t.dialled p in
    let retry = cmd_single_retry (0 + 1) addr (u ∷ []) g.pool in
    let s : settle 0 addr c t.reply g.pool retry ≡ Option.map (behind (sent c ∷ [])) retry =
      ground (arith, eq, settle-eof addr c g.pool retry) in
    elim (Option-cases retry) [
      | inl f ↦ ground (arith, h, e, f, s)
      | inr (r, f) ↦ ground (
        arith,
        h,
        e,
        f,
        s,
        get_counts addr t.dialled p,
        retry_counts (0 + 1) addr u [] g.pool r ne f,
        opens-append g.events (sent c ∷ r.trace),
        closes-append g.events (sent c ∷ r.trace),
      )
    ]
