-- ===== src/RedisCache/Tests.antt =====
-- Keys at concrete names.
use sutil.Prelude.Text.{codes, Lacks, split}
use sutil.RedisCache.{parse_key}
use sutil.Prelude.{◌≡◌, refl, none, arith}

group_Lacks : Lacks b'.' (codes "default")
group_Lacks = ground arith

addr_Lacks : Lacks b'.' (codes "addr")
addr_Lacks = ground arith

short_key : parse_key (codes "a.b.addr") ≡ none
unfolding parse_key split
short_key = refl
