-- ===== src/Mq/Reload.antt =====
-- What a change of the configuration does to the instances, and what closing leaves.
use sutil.Prelude.Text.{Bytes, text_eq, text_eq_iff}
use sutil.Prelude.Maps.{Dict, lookup}
use sutil.Mq.{
  ℤ, InstanceConf, KeyParts, conf_from_string, reloaded, keep_entry, apply_change, close,
  close_entry,
}
use sutil.Prelude.{
  ◌≡◌, refl, ◌≢◌, ◌↔◌, inl, inr, Option, none, some, [], ◌∷◌, arith, if◌then◌else◌, Option-cases,
}
use sutil.Sconf.Load.{or_else}

module _ {Instance : Type 0} (new_instance : InstanceConf → Option Instance) where
  -- what a change makes of the instance that a key had
  unfoldable pub reloaded_in :
      (Bytes → Option ℤ) → Bytes → Option KeyParts → Option Instance → Option Instance
  unfolding reloaded
  reloaded_in atoi k parts (some i) = reloaded new_instance (conf_from_string atoi k) parts i
  reloaded_in atoi k parts none = none

  lookup-keep_entry :
      (k j : Bytes) (o : Option Instance) (m : Dict Instance)
      → lookup j (keep_entry new_instance k o m)
        ≡ (if text_eq k j then or_else o (lookup j m) else lookup j m)
  unfolding keep_entry lookup
  lookup-keep_entry k j none m = ground arith
  lookup-keep_entry k j (some i) m = ground arith

  -- A change acts on the instance of each key by itself: an instance of the changed group and topic
  -- is replaced by a new one or, where there is none, deleted, and every other one is kept.
  pub lookup-apply_change :
      (atoi : Bytes → Option ℤ) (parts : Option KeyParts) (k : Bytes) (m : Dict Instance)
      → lookup k (apply_change new_instance atoi parts m) ≡ reloaded_in atoi k parts (lookup k m)
  unfolding apply_change reloaded_in lookup reloaded
  lookup-apply_change atoi parts k [] = refl
  lookup-apply_change atoi parts k ((j, i) ∷ m) = ground (
    arith,
    text_eq_iff j k,
    lookup-apply_change atoi parts k m,
    lookup-keep_entry j k (reloaded new_instance (conf_from_string atoi j) parts i)
        (apply_change new_instance atoi parts m),
    Option-cases (conf_from_string atoi j),
    Option-cases (lookup k m),
  )

-- every key is read
unfoldable pub KeysParse {ℓ} : {V : Type ℓ} → (Bytes → Option ℤ) → Dict V → Type 0
KeysParse atoi [] = Unit
KeysParse atoi ((k, v) ∷ m) = (conf_from_string atoi k ≢ none) × KeysParse atoi m

module _ {Instance : Type 0} where
  -- Closing leaves no instance exactly if every key can be read as a configuration.
  pub close_iff :
      (atoi : Bytes → Option ℤ) (m : Dict Instance) → (close atoi m ≡ []) ↔ KeysParse atoi m
  unfolding close close_entry KeysParse
  close_iff atoi [] = (λ h. tt, λ h. refl)
  close_iff atoi ((k, i) ∷ m) = elim (Option-cases (conf_from_string atoi k)) [
    | inl e ↦ ground (arith, e, close_iff atoi m)
    | inr (c, e) ↦ ground (arith, e, close_iff atoi m)
  ]
