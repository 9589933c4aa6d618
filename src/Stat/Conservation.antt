-- ===== src/Stat/Conservation.antt =====
-- stat/stat.go: no query is lost between the reports, and none is reported twice.
use sutil.Prelude.Text.{Bytes, text_eq, text_eq_iff}
use sutil.Prelude.Maps.{Dict, lookup, store}
use sutil.Stat.{QueryStat, stat_info, item_or_new, counted, inc_query}
use sutil.Prelude.{ℕ, ◌+◌, ◌/◌, ◌%◌, ◌^◌, ◌≡◌, refl, List, [], ◌∷◌, ◌++◌, if◌then◌else◌, arith}

pub data Call : Type 0 where
  inc : Bytes → Bytes → ℕ → Call
  info : Call

-- the counters after the calls, and all that was reported
unfoldable pub run : List Call → Dict QueryStat → List QueryStat × Dict QueryStat
run [] runs = ([], runs)
run (inc cluster table elapse ∷ calls) runs = run calls (inc_query cluster table elapse runs)
run (info ∷ calls) runs =
    let (items, rest) = stat_info runs in let (more, end) = run calls rest in (items ++ more, end)

abbrev pub at_key : Bytes → Bytes → ℕ → ℕ
at_key key k n = if text_eq k key then n else 0

-- the queries of a key that were counted by the calls, and their time in microseconds
unfoldable pub asked : Bytes → List Call → ℕ × ℕ
asked key [] = (0, 0)
asked key (inc cluster table elapse ∷ calls) =
    let (n, t) = asked key calls in
    (
      at_key key (cluster ++ (b'.' ∷ table)) 1 + n,
      at_key key (cluster ++ (b'.' ∷ table)) (elapse / 1000) + t,
    )
asked key (info ∷ calls) = asked key calls

module _ (key : Bytes) where
  -- the counters of a key
  unfoldable pub kept : Dict QueryStat → ℕ × ℕ
  kept [] = (0, 0)
  kept ((k, item) ∷ runs) =
      let (n, t) = kept runs in (at_key key k item.count + n, at_key key k item.sum + t)

  -- what was reported of a key
  unfoldable pub reported : List QueryStat → ℕ × ℕ
  reported [] = (0, 0)
  reported (item ∷ items) =
      let (n, t) = reported items in
      (at_key key item.cluster_table item.count + n, at_key key item.cluster_table item.sum + t)

  kept-store :
      (k : Bytes) (v : QueryStat) (runs : Dict QueryStat)
      → ((kept (store k v runs)).0 + at_key key k (item_or_new (lookup k runs)).count
          ≡ (kept runs).0 + at_key key k v.count)
        × ((kept (store k v runs)).1 + at_key key k (item_or_new (lookup k runs)).sum
            ≡ (kept runs).1 + at_key key k v.sum)
  unfolding kept store lookup
  kept-store k v [] = ground arith
  kept-store k v ((j, item) ∷ runs) = ground (arith, text_eq_iff j k, kept-store k v runs)

  reported-append :
      (xs ys : List QueryStat)
      → ((reported (xs ++ ys)).0 ≡ (reported xs).0 + (reported ys).0)
        × ((reported (xs ++ ys)).1 ≡ (reported xs).1 + (reported ys).1)
  unfolding reported
  reported-append [] ys = ground arith
  reported-append (x ∷ xs) ys = ground (arith, reported-append xs ys)

  stat_info-empties :
      (runs : Dict QueryStat)
      → (reported (stat_info runs).0 ≡ kept runs) × (kept (stat_info runs).1 ≡ (0, 0))
  unfolding stat_info kept reported
  stat_info-empties [] = (refl, refl)
  stat_info-empties ((k, item) ∷ runs) = ground (arith, stat_info-empties runs)

  inc_query-kept :
      (cluster table : Bytes) (elapse : ℕ) (runs : Dict QueryStat)
      → ((kept (inc_query cluster table elapse runs)).0 % 2 ^ 64
          ≡ ((kept runs).0 + at_key key (cluster ++ (b'.' ∷ table)) 1) % 2 ^ 64)
        × ((kept (inc_query cluster table elapse runs)).1 % 2 ^ 64
            ≡ ((kept runs).1 + at_key key (cluster ++ (b'.' ∷ table)) (elapse / 1000)) % 2 ^ 64)
  unfolding inc_query counted
  inc_query-kept cluster table elapse runs =
      let k = cluster ++ (b'.' ∷ table) in
      ground (arith, kept-store k (counted (elapse / 1000) (item_or_new (lookup k runs))) runs)

  -- Over any sequence of queries and reports: what was reported of a key and what its counters still
  -- hold are together, modulo 2^64, what the counters held before and the queries of the key that
  -- were made, in number and in time (whole microseconds each).
  pub run-conserves :
      (calls : List Call) (runs : Dict QueryStat)
      → (((reported (run calls runs).0).0 + (kept (run calls runs).1).0) % 2 ^ 64
          ≡ ((kept runs).0 + (asked key calls).0) % 2 ^ 64)
        × (((reported (run calls runs).0).1 + (kept (run calls runs).1).1) % 2 ^ 64
            ≡ ((kept runs).1 + (asked key calls).1) % 2 ^ 64)
  unfolding run asked
  run-conserves [] runs = unfold reported in ground arith
  run-conserves (inc cluster table elapse ∷ calls) runs = ground (
    arith,
    inc_query-kept cluster table elapse runs,
    run-conserves calls (inc_query cluster table elapse runs),
  )
  run-conserves (info ∷ calls) runs = ground (
    arith,
    stat_info-empties runs,
    run-conserves calls (stat_info runs).1,
    reported-append (stat_info runs).0 (run calls (stat_info runs).1).0,
  )
