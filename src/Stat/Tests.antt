-- ===== src/Stat/Tests.antt =====
-- Two queries of a table, with a report between them.
use sutil.Prelude.Text.{Bytes, codes, text_eq}
use sutil.Prelude.Maps.{lookup, store}
use sutil.Stat.{inc_query, stat_info}
use sutil.Stat.Conservation.{Call, inc, info, run, asked, kept, reported, run-conserves}
use sutil.Prelude.{◌+◌, ◌%◌, ◌^◌, ◌≡◌, refl, List, [], ◌∷◌}

abbrev calls : List Call
calls =
    inc (codes "base") (codes "user") 2500
    ∷ info
    ∷ inc (codes "base") (codes "user") 1999
    ∷ inc (codes "base") (codes "shop") 9000
    ∷ []

abbrev user : Bytes
user = codes "base.user"

run-conserves_example :
    (((reported user (run calls []).0).0 + (kept user (run calls []).1).0) % 2 ^ 64
      ≡ ((kept user []).0 + (asked user calls).0) % 2 ^ 64)
    × (((reported user (run calls []).0).1 + (kept user (run calls []).1).1) % 2 ^ 64
        ≡ ((kept user []).1 + (asked user calls).1) % 2 ^ 64)
run-conserves_example = run-conserves user calls []

two_users : asked user calls ≡ (2, 3)
unfolding asked text_eq
two_users = refl

one_reported : reported user (run calls []).0 ≡ (1, 2)
unfolding run reported inc_query stat_info lookup store text_eq
one_reported = refl
