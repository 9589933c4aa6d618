-- ===== src/Prelude/Table.antt =====
-- Go maps with uint64 keys: association lists that hold a key at most once.
use mathlib.Core.List.{List, [], ◌∷◌}
use mathlib.Core.Path.{refl}
use sutil.Prelude.{ℕ, Option, if◌then◌else◌, ◌≡◌, none, ◌==◌, some, arith}

abbrev pub Table {ℓ} : Type ℓ → Type ℓ
Table V = List (ℕ × V)

module _ {ℓ} {V : Type ℓ} where
  unfoldable pub find_at : ℕ → Table V → Option V
  find_at k [] = none
  find_at k ((j, v) ∷ m) = if j == k then some v else find_at k m

  unfoldable pub put_at : ℕ → V → Table V → Table V
  put_at k v [] = (k, v) ∷ []
  put_at k v ((j, w) ∷ m) = if j == k then (k, v) ∷ m else (j, w) ∷ put_at k v m

  unfoldable pub remove_at : ℕ → Table V → Table V
  remove_at k [] = []
  remove_at k ((j, w) ∷ m) = if j == k then remove_at k m else (j, w) ∷ remove_at k m

  pub find_at-put_at :
      (k j : ℕ) (v : V) (m : Table V)
      → find_at j (put_at k v m) ≡ (if k == j then some v else find_at j m)
  unfolding find_at put_at
  find_at-put_at k j v [] = refl
  find_at-put_at k j v ((i, w) ∷ m) = ground (arith, find_at-put_at k j v m)

  pub find_at-remove_at :
      (k j : ℕ) (m : Table V) → find_at j (remove_at k m) ≡ (if k == j then none else find_at j m)
  unfolding find_at remove_at
  find_at-remove_at k j [] = ground arith
  find_at-remove_at k j ((i, w) ∷ m) = ground (arith, find_at-remove_at k j m)
