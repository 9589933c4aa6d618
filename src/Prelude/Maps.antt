-- ===== src/Prelude/Maps.antt =====
-- Go maps with string keys, as association lists that hold a key at most once. An iteration with
-- `range` visits the list in its order, which stands for the order that Go chooses.
use mathlib.Core.List.{List, [], ◌∷◌}
use mathlib.Core.Option.{Option, none, some}
use mathlib.Core.Path.{◌≡◌, refl}
use native.Mathlib.Omega.{arith}
use sutil.Prelude.Booleans.{if◌then◌else◌}
use sutil.Prelude.Text.{Bytes, text_eq, text_eq_iff, text_eq_refl}
use sutil.Prelude.{length, Bool, ◌||◌, false, suc}

abbrev pub Dict {ℓ} : Type ℓ → Type ℓ
Dict V = List (Bytes × V)

module _ {ℓ} {V : Type ℓ} where
  -- `v, ok := m[k]`
  unfoldable pub lookup : Bytes → Dict V → Option V
  lookup k [] = none
  lookup k ((j, v) ∷ m) = if text_eq j k then some v else lookup k m

  -- `m[k] = v`
  unfoldable pub store : Bytes → V → Dict V → Dict V
  store k v [] = (k, v) ∷ []
  store k v ((j, w) ∷ m) = if text_eq j k then (k, v) ∷ m else (j, w) ∷ store k v m

  -- `delete(m, k)`
  unfoldable pub delete : Bytes → Dict V → Dict V
  delete k [] = []
  delete k ((j, w) ∷ m) = if text_eq j k then delete k m else (j, w) ∷ delete k m

  pub lookup-store :
      (k j : Bytes) (v : V) (m : Dict V)
      → lookup j (store k v m) ≡ (if text_eq k j then some v else lookup j m)
  unfolding lookup store
  lookup-store k j v [] = refl
  lookup-store k j v ((i, w) ∷ m) =
      ground (arith, text_eq_iff k j, text_eq_iff i k, text_eq_iff i j, lookup-store k j v m)

  pub lookup-delete :
      (k j : Bytes) (m : Dict V)
      → lookup j (delete k m) ≡ (if text_eq k j then none else lookup j m)
  unfolding lookup delete
  lookup-delete k j [] = ground arith
  lookup-delete k j ((i, w) ∷ m) =
      ground (arith, text_eq_iff k j, text_eq_iff i k, text_eq_iff i j, lookup-delete k j m)

  pub lookup-store_self : (k : Bytes) (v : V) (m : Dict V) → lookup k (store k v m) ≡ some v
  lookup-store_self k v m = simp (lookup-store, text_eq_refl)

  -- `_, ok := m[k]`
  unfoldable pub has : Bytes → Dict V → Bool
  unfolding lookup
  has k [] = false
  has k ((j, v) ∷ m) = text_eq j k || has k m

  pub has-store : (k j : Bytes) (v : V) (m : Dict V) → has j (store k v m) ≡ text_eq k j || has j m
  unfolding has store
  has-store k j v [] = ground arith
  has-store k j v ((i, w) ∷ m) =
      ground (arith, text_eq_iff k j, text_eq_iff i k, text_eq_iff i j, has-store k j v m)

  pub length-store :
      (k : Bytes) (v : V) (m : Dict V)
      → length (store k v m) ≡ (if has k m then length m else suc (length m))
  unfolding has store
  length-store k v [] = refl
  length-store k v ((i, w) ∷ m) = ground (arith, length-store k v m)

  pub lookup-absent : (k : Bytes) (m : Dict V) → has k m ≡ false → lookup k m ≡ none
  unfolding has lookup
  lookup-absent k [] h = refl
  lookup-absent k ((j, v) ∷ m) h = ground (arith, lookup-absent k m)
