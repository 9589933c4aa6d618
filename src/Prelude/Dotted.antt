-- ===== src/Prelude/Dotted.antt =====
-- Keys of four parts joined by dots, of which the first may hold dots itself.
use sutil.Prelude.Text.{
  Bytes, Lacks, split, join, split-join, join-split, split-append_parts, split-ne-nil,
}
use sutil.Prelude.Booleans.{ltb}
use sutil.Prelude.Lists.{length, get_elem?, take, length-append, take-append_front}
use Prim.Native.Nat.{◌+◌, ◌-◌}
use mathlib.Core.Path.{◌≡◌, refl, sym, ap, ◌∙◌}
use mathlib.Core.Bool.{false}
use mathlib.Core.Option.{some}
use mathlib.Core.List.{List, [], ◌∷◌, ◌++◌}
use native.Mathlib.Omega.{arith}

split_key :
    (name group kind item : Bytes)
    → Lacks b'.' group
    → Lacks b'.' kind
    → Lacks b'.' item
    → split (join (name ∷ group ∷ kind ∷ item ∷ []) b'.') b'.'
      ≡ split name b'.' ++ (group ∷ kind ∷ item ∷ [])
unfolding join
split_key name group kind item g k i =
    split-append_parts name (join (group ∷ kind ∷ item ∷ []) b'.') b'.'
    ∙ ap (◌++◌ (split name b'.')) (split-join group (kind ∷ item ∷ []) b'.' g (k, (i, tt)))

get_elem?-append_head :
    (xs : List Bytes) (y : Bytes) (ys : List Bytes) → get_elem? (xs ++ y ∷ ys) (length xs) ≡ some y
get_elem?-append_head [] y ys = refl
get_elem?-append_head (x ∷ xs) y ys = ground (arith, get_elem?-append_head xs y ys)

three_behind :
    (ns : List Bytes) (group kind item : Bytes)
    → (length (ns ++ (group ∷ kind ∷ item ∷ [])) ≡ length ns + 3)
      × (take (length ns) (ns ++ (group ∷ kind ∷ item ∷ [])) ≡ ns)
three_behind ns group kind item = (
  ground (arith, length-append ns (group ∷ kind ∷ item ∷ [])),
  take-append_front (length ns) ns (group ∷ kind ∷ item ∷ []) refl,
)

-- Where the last three parts hold no dot, the parts are found from the end, and what stands before
-- them, joined again, is the first.
pub parts-join :
    (name group kind item : Bytes)
    → Lacks b'.' group
    → Lacks b'.' kind
    → Lacks b'.' item
    → (parts : List Bytes) × (split (join (name ∷ group ∷ kind ∷ item ∷ []) b'.') b'.' ≡ parts)
      × (ltb (length parts) 4 ≡ false)
      × (join (take (length parts - 3) parts) b'.' ≡ name)
      × (get_elem? parts (length parts - 3) ≡ some group)
parts-join name group kind item g k i =
    let (p, ps, e) = split-ne-nil name b'.' in
    let three = group ∷ kind ∷ item ∷ [] in
    let back : join (p ∷ ps) b'.' ≡ name = ap (λ ns. join ns b'.') (sym e) ∙ join-split name b'.' in
    let count : length ((p ∷ ps) ++ three) - 3 ≡ length (p ∷ ps) =
      ground (arith, (three_behind (p ∷ ps) group kind item).0) in
    (
      (p ∷ ps) ++ three,
      split_key name group kind item g k i ∙ ap (λ ns. ns ++ three) e,
      ground (arith, (three_behind (p ∷ ps) group kind item).0),
      rw (count, (three_behind (p ∷ ps) group kind item).1) back,
      rw count (get_elem?-append_head (p ∷ ps) group (kind ∷ item ∷ [])),
    )
