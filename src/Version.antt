-- ===== src/Version.antt =====
-- sutil.go: the comparison of versions (VersionCmp), and the choice of an address by the hash of a key
-- (HashV), with the hash function as a parameter. Text is ASCII, so the width 20 of the verb %020s
-- counts bytes, and a text is padded with zeros on the left.
pub mod Ordering
mod Tests
use sutil.Prelude.Text.{Bytes, codes, split, text_eq}
use sutil.Prelude.{
  ℕ, ◌-◌, ◌%◌, Bool, true, false, not, Option, none, some, List, [], ◌∷◌, ◌++◌, ltb, ◌==◌,
  if◌then◌else◌, length, replicate, get_elem?,
}

-- `HashV`; none is an index out of range
unfoldable pub hash_v : (Bytes → ℕ) → List Bytes → Bytes → Option Bytes
hash_v hash [] key = some []
hash_v hash (a ∷ addrs) key = get_elem? (a ∷ addrs) (hash key % length (a ∷ addrs))

pub record VersionCmp : Type 0 where
  pub ver : Bytes

-- the verb %020s
unfoldable pub pad : Bytes → Bytes
pad pv = replicate (20 - length pv) b'0' ++ pv

unfoldable pub fmt_parts : List Bytes → Bytes
unfolding pad
fmt_parts [] = []
fmt_parts (pv ∷ pvs) = pad pv ++ fmt_parts pvs

unfoldable pub fmtver : Bytes → Bytes
unfolding fmt_parts split
fmtver ver = fmt_parts (split ver b'.')

unfoldable pub new_version_cmp : Bytes → VersionCmp
unfolding fmtver
new_version_cmp ver = record { ver = fmtver ver }

-- `<` on strings
unfoldable pub less : Bytes → Bytes → Bool
less [] [] = false
less [] (b ∷ t) = true
less (a ∷ s) [] = false
less (a ∷ s) (b ∷ t) = if a == b then less s t else ltb a b

unfoldable pub min : Bytes
unfolding fmtver
min = fmtver (codes "0")

unfoldable pub max : Bytes
unfolding fmtver
max = fmtver (codes "99999999999999999999")

unfoldable pub lt : VersionCmp → Bytes → Bool
unfolding less fmtver
lt m ver = less m.ver (fmtver ver)

unfoldable pub lte : VersionCmp → Bytes → Bool
unfolding less fmtver
lte m ver = not (less (fmtver ver) m.ver)

unfoldable pub gt : VersionCmp → Bytes → Bool
unfolding less fmtver
gt m ver = less (fmtver ver) m.ver

unfoldable pub gte : VersionCmp → Bytes → Bool
unfolding less fmtver
gte m ver = not (less m.ver (fmtver ver))

unfoldable pub eq : VersionCmp → Bytes → Bool
unfolding text_eq fmtver
eq m ver = text_eq m.ver (fmtver ver)

unfoldable pub ne : VersionCmp → Bytes → Bool
unfolding text_eq fmtver
ne m ver = not (text_eq m.ver (fmtver ver))

unfoldable pub get_format_version : VersionCmp → Bytes
get_format_version m = m.ver
