-- ===== src/Version/Tests.antt =====
-- Versions at concrete texts.
use sutil.Prelude.Text.{codes, split}
use sutil.Version.{new_version_cmp, lt, lte, gt, gte, max, less}
use sutil.Version.Ordering.{IsPart, value_from, numbers_less, lt-numbers_less}
use sutil.Prelude.{◌≡◌, refl, true, not, All, arith, map}

old_parts : All IsPart (split (codes "1.9.3") b'.')
unfolding split
old_parts = omega arith

new_parts : All IsPart (split (codes "1.10") b'.')
unfolding split
new_parts = omega arith

lt-numbers_less_example :
    (lt (new_version_cmp (codes "1.9.3")) (codes "1.10")
      ≡ numbers_less
          (map (value_from 0) (split (codes "1.9.3") b'.'))
          (map (value_from 0) (split (codes "1.10") b'.')))
    × (gt (new_version_cmp (codes "1.9.3")) (codes "1.10")
        ≡ numbers_less
            (map (value_from 0) (split (codes "1.10") b'.'))
            (map (value_from 0) (split (codes "1.9.3") b'.')))
    × (lte (new_version_cmp (codes "1.9.3")) (codes "1.10")
        ≡ not (
            numbers_less
              (map (value_from 0) (split (codes "1.10") b'.'))
              (map (value_from 0) (split (codes "1.9.3") b'.'))))
    × (gte (new_version_cmp (codes "1.9.3")) (codes "1.10")
        ≡ not (
            numbers_less
              (map (value_from 0) (split (codes "1.9.3") b'.'))
              (map (value_from 0) (split (codes "1.10") b'.'))))
lt-numbers_less_example = lt-numbers_less (codes "1.9.3") (codes "1.10") old_parts new_parts

older : lt (new_version_cmp (codes "1.9.3")) (codes "1.10") ≡ true
unfolding lt new_version_cmp
older = refl

-- `Max` has one part, so a version can be above it.
above_max : less max (new_version_cmp (codes "99999999999999999999.1")).ver ≡ true
unfolding max new_version_cmp less
above_max = refl
