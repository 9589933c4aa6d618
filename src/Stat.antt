-- ===== src/Stat.antt =====
-- stat/stat.go: the counts of queries, and the reports that take them out. Each call is taken as a
-- whole. The counters are int64 in the source, kept here as their 64 bits; atomic.AddInt64 wraps.
pub mod Conservation
mod Tests
use sutil.Prelude.Text.{Bytes}
use sutil.Prelude.Maps.{Dict, lookup, store}
use sutil.Prelude.{ℕ, ◌+◌, ◌/◌, ◌%◌, ◌^◌, Option, none, some, List, [], ◌∷◌, ◌++◌}

pub record QueryStat : Type 0 where
  pub cluster_table : Bytes
  pub count : ℕ
  pub sum : ℕ

-- what the fields are swapped for
unfoldable pub emptied : QueryStat → QueryStat
emptied item = record item { count = 0; sum = 0 }

-- `copyItem`: the copy, with the table's name left to the caller
unfoldable pub copy_item : QueryStat → QueryStat
copy_item item = record { cluster_table = []; count = item.count; sum = item.sum }

-- `StatInfo`: the report, and the counters after it
unfoldable pub stat_info : Dict QueryStat → List QueryStat × Dict QueryStat
unfolding emptied copy_item
stat_info [] = ([], [])
stat_info ((key, item) ∷ runs) =
    let (items, rest) = stat_info runs in
    (record (copy_item item) { cluster_table = key } ∷ items, (key, emptied item) ∷ rest)

-- `getItem`, and `addItem` where there is none
abbrev pub item_or_new : Option QueryStat → QueryStat
item_or_new (some item) = item
item_or_new none = record { cluster_table = []; count = 0; sum = 0 }

unfoldable pub counted : ℕ → QueryStat → QueryStat
counted micro item = record item {
  count = (item.count + 1) % 2 ^ 64;
  sum = (item.sum + micro) % 2 ^ 64;
}

-- `IncQuery`, with the time in nanoseconds, which is not negative
unfoldable pub inc_query : Bytes → Bytes → ℕ → Dict QueryStat → Dict QueryStat
unfolding counted
inc_query cluster table elapse runs =
    let key = cluster ++ (b'.' ∷ table) in
    store key (counted (elapse / 1000) (item_or_new (lookup key runs))) runs
