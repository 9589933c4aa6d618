-- ===== src/MqConfig/Watch.antt =====
-- mq/instance.go and mq/config.go together: what an event of the configuration center does to the
-- running instances. An event is the list of its changes in the order in which Go's map gives them.
use sutil.Prelude.Text.{Bytes}
use sutil.Prelude.Maps.{Dict, lookup}
use sutil.Mq.{ℤ, InstanceConf, KeyParts, conf_from_string, apply_change, is_affected, reloaded}
use sutil.Mq.Reload.{reloaded_in, lookup-apply_change}
use sutil.MqConfig.{parse_key}
use sutil.Prelude.{
  Bool, true, false, ◌≡◌, refl, Option, none, some, [], ◌∷◌, arith, ◌||◌, if◌then◌else◌, ◌∙◌, ap,
  inl, inr, ◌&&◌, Bool-cases,
}

pub data ChangeType : Type 0 where
  add : ChangeType
  modify : ChangeType
  delete : ChangeType

abbrev pub matters : ChangeType → Bool
matters add = false
matters modify = true
matters delete = true

module _ {Instance : Type 0} (new_instance : InstanceConf → Option Instance) where
  -- `applyChangeEvent`
  unfoldable pub apply_change_event :
      (Bytes → Option ℤ) → Dict ChangeType → Dict Instance → Dict Instance
  apply_change_event atoi [] m = m
  apply_change_event atoi ((k, kind) ∷ changes) m =
      apply_change_event atoi changes
        (if matters kind then apply_change new_instance atoi (parse_key k) m else m)

  abbrev affects_parts : InstanceConf → Option KeyParts → Bool
  affects_parts c (some parts) = is_affected new_instance parts c
  affects_parts c none = false

  -- some key that is modified or deleted is read as one that affects the configuration
  unfoldable pub affects : InstanceConf → Dict ChangeType → Bool
  affects c [] = false
  affects c ((k, kind) ∷ changes) =
      (matters kind && affects_parts c (parse_key k)) || affects c changes

  module _ (atoi : Bytes → Option ℤ) (key : Bytes) (c : InstanceConf)
      (reads : conf_from_string atoi key ≡ some c) where
    reloaded_in_kept :
        (parts : Option KeyParts) (m : Dict Instance) (o : Option Instance)
        → lookup key m ≡ o
        → lookup key (apply_change new_instance atoi parts m)
          ≡ reloaded_in new_instance atoi key parts o
    reloaded_in_kept parts m o h =
        lookup-apply_change new_instance atoi parts key m
        ∙ ap (reloaded_in new_instance atoi key parts) h

    reloaded_some :
        (parts : Option KeyParts) (i : Instance)
        → reloaded_in new_instance atoi key parts (some i)
          ≡ (if affects_parts c parts then new_instance c else some i)
    unfolding reloaded_in reloaded
    reloaded_some none i = rw reads refl
    reloaded_some (some parts) i = rw reads refl

    reloaded_again :
        (parts : Option KeyParts) (o : Option Instance)
        → o ≡ new_instance c
        → reloaded_in new_instance atoi key parts o ≡ new_instance c
    unfolding reloaded_in
    reloaded_again parts none h = h
    reloaded_again parts (some i) h = ground (arith, h, reloaded_some parts i)

    stays_renewed :
        (changes : Dict ChangeType) (m : Dict Instance)
        → lookup key m ≡ new_instance c
        → lookup key (apply_change_event atoi changes m) ≡ new_instance c
    unfolding apply_change_event
    stays_renewed [] m h = h
    stays_renewed ((k, add) ∷ changes) m h = stays_renewed changes m h
    stays_renewed ((k, modify) ∷ changes) m h =
        stays_renewed changes (apply_change new_instance atoi (parse_key k) m) (
          reloaded_in_kept (parse_key k) m (new_instance c) h
          ∙ reloaded_again (parse_key k) (new_instance c) refl)
    stays_renewed ((k, delete) ∷ changes) m h =
        stays_renewed changes (apply_change new_instance atoi (parse_key k) m) (
          reloaded_in_kept (parse_key k) m (new_instance c) h
          ∙ reloaded_again (parse_key k) (new_instance c) refl)

    -- one change that matters, then the others
    after_change :
        (k : Bytes) (changes : Dict ChangeType) (i : Instance) (m : Dict Instance)
        → lookup key m ≡ some i
        → ((n : Dict Instance)
            → lookup key n ≡ some i
            → lookup key (apply_change_event atoi changes n)
              ≡ (if affects c changes then new_instance c else some i))
        → lookup key
            (apply_change_event atoi changes (apply_change new_instance atoi (parse_key k) m))
          ≡ (if affects_parts c (parse_key k) || affects c changes then new_instance c else some i)
    after_change k changes i m h rest =
        let n = apply_change new_instance atoi (parse_key k) m in
        let now = reloaded_in_kept (parse_key k) m (some i) h ∙ reloaded_some (parse_key k) i in
        elim (Bool-cases (affects_parts c (parse_key k))) [
          | inl e ↦ rw e (stays_renewed changes n (rw e at now))
          | inr e ↦ rw e (rest n (rw e at now))
        ]

    -- What an event does to the instance of a key that reads as its configuration, by `affects`.
    pub lookup-apply_change_event :
        (changes : Dict ChangeType) (i : Instance) (m : Dict Instance)
        → lookup key m ≡ some i
        → lookup key (apply_change_event atoi changes m)
          ≡ (if affects c changes then new_instance c else some i)
    unfolding apply_change_event affects
    lookup-apply_change_event [] i m h = h
    lookup-apply_change_event ((k, add) ∷ changes) i m h = lookup-apply_change_event changes i m h
    lookup-apply_change_event ((k, modify) ∷ changes) i m h =
        after_change k changes i m h (lookup-apply_change_event changes i)
    lookup-apply_change_event ((k, delete) ∷ changes) i m h =
        after_change k changes i m h (lookup-apply_change_event changes i)
