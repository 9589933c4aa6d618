-- ===== src/MqConfig/Events.antt =====
-- mq/instance.go and mq/config.go together: what an event does to a running instance, told by the
-- topics and groups of the configuration keys that it names.
use sutil.Prelude.Text.{Bytes, Lacks, text_eq_iff}
use sutil.Prelude.Maps.{Dict, lookup}
use sutil.Mq.{ℤ, InstanceConf, conf_from_string, is_affected}
use sutil.MqConfig.{MqType, build_key, default_route_group}
use sutil.MqConfig.Keys.{parse_key-build_key}
use sutil.MqConfig.Watch.{
  ChangeType, add, modify, delete, apply_change_event, affects, lookup-apply_change_event,
}
use sutil.Prelude.{
  ◌≡◌, refl, ◌≢◌, ◌⊎◌, inl, inr, true, false, Option, some, List, [], ◌∷◌, arith, All,
}

-- what `buildKey` makes a key of
pub record ConfigKey : Type 0 where
  pub of_group : Bytes
  pub of_topic : Bytes
  pub of_item : Bytes
  pub of_kind : MqType

-- an event by the changes of configuration keys
abbrev pub event_of : List (ConfigKey × ChangeType) → Dict ChangeType
event_of [] = []
event_of ((k, change) ∷ changes) =
    (build_key k.of_group k.of_topic k.of_item k.of_kind, change) ∷ event_of changes

-- the group and the item hold no dot
abbrev pub Dotless : ConfigKey × ChangeType → Type 0
Dotless (k, change) = Lacks b'.' k.of_group × Lacks b'.' k.of_item

-- a change or a deletion of a key of the topic, in the group or the default one
abbrev pub Concerns : InstanceConf → ConfigKey × ChangeType → Type 0
Concerns c (k, change) =
    (change ≢ add)
    × (k.of_topic ≡ c.topic)
    × ((k.of_group ≡ c.group) ⊎ (k.of_group ≡ default_route_group))

abbrev pub SomeConcerns : InstanceConf → List (ConfigKey × ChangeType) → Type 0
SomeConcerns c [] = ⊥
SomeConcerns c (x ∷ changes) = Concerns c x ⊎ SomeConcerns c changes

module _ {Instance : Type 0} (new_instance : InstanceConf → Option Instance) where
  affects-concerned :
      (c : InstanceConf) (changes : List (ConfigKey × ChangeType))
      → All Dotless changes
      → SomeConcerns c changes
      → affects new_instance c (event_of changes) ≡ true
  unfolding affects is_affected
  affects-concerned c [] ds s = elim s [ ]
  affects-concerned c ((k, change) ∷ changes) ((g, i), ds) (inr h) =
      ground (arith, affects-concerned c changes ds h)
  affects-concerned c ((k, add) ∷ changes) ((g, i), ds) (inl (n, _, _)) = absurd (n refl)
  affects-concerned c ((k, modify) ∷ changes) ((g, i), ds) (inl (_, t, e)) =
      rw (parse_key-build_key k.of_group k.of_topic k.of_item k.of_kind g i) (
        ground (
          arith,
          t,
          e,
          text_eq_iff k.of_group c.group,
          text_eq_iff k.of_group default_route_group,
          text_eq_iff k.of_topic c.topic,
        ))
  affects-concerned c ((k, delete) ∷ changes) ((g, i), ds) (inl (_, t, e)) =
      rw (parse_key-build_key k.of_group k.of_topic k.of_item k.of_kind g i) (
        ground (
          arith,
          t,
          e,
          text_eq_iff k.of_group c.group,
          text_eq_iff k.of_group default_route_group,
          text_eq_iff k.of_topic c.topic,
        ))

  unconcerned_key :
      (c : InstanceConf) (k : ConfigKey) (change : ChangeType)
      → change ≢ add
      → ¬ Concerns c (k, change)
      → is_affected new_instance (record { key_group = k.of_group; key_topic = k.of_topic }) c
        ≡ false
  unfolding is_affected
  unconcerned_key c k change n free = ground (
    arith,
    text_eq_iff k.of_group c.group,
    text_eq_iff k.of_group default_route_group,
    text_eq_iff k.of_topic c.topic,
    λ (t : k.of_topic ≡ c.topic) (e : (k.of_group ≡ c.group) ⊎ (k.of_group ≡ default_route_group)).
        free (n, t, e),
  )

  affects-unconcerned :
      (c : InstanceConf) (changes : List (ConfigKey × ChangeType))
      → All Dotless changes
      → ¬ SomeConcerns c changes
      → affects new_instance c (event_of changes) ≡ false
  unfolding affects
  affects-unconcerned c [] ds free = refl
  affects-unconcerned c ((k, add) ∷ changes) (_, ds) free =
      affects-unconcerned c changes ds (λ h. free (inr h))
  affects-unconcerned c ((k, modify) ∷ changes) ((g, i), ds) free =
      rw
        (
          parse_key-build_key k.of_group k.of_topic k.of_item k.of_kind g i,
          unconcerned_key c k modify (λ e. cc) (λ h. free (inl h)),
        )
        (affects-unconcerned c changes ds (λ h. free (inr h)))
  affects-unconcerned c ((k, delete) ∷ changes) ((g, i), ds) free =
      rw
        (
          parse_key-build_key k.of_group k.of_topic k.of_item k.of_kind g i,
          unconcerned_key c k delete (λ e. cc) (λ h. free (inl h)),
        )
        (affects-unconcerned c changes ds (λ h. free (inr h)))

  -- An event of configuration keys, whose groups and items hold no dot, replaces an instance whose
  -- key reads as its configuration (where no part of it holds a dash) by a new one, or deletes it
  -- where none can be made, if the event modifies or deletes a key of the instance's topic, in the
  -- instance's group or in "default"; every other event keeps the instance.
  pub apply_change_event-concerns :
      (atoi : Bytes → Option ℤ) (key : Bytes) (c : InstanceConf)
      (changes : List (ConfigKey × ChangeType)) (i : Instance) (m : Dict Instance)
      → conf_from_string atoi key ≡ some c
      → All Dotless changes
      → lookup key m ≡ some i
      → (SomeConcerns c changes
          → lookup key (apply_change_event new_instance atoi (event_of changes) m) ≡ new_instance c)
        × (¬ SomeConcerns c changes
            → lookup key (apply_change_event new_instance atoi (event_of changes) m) ≡ some i)
  apply_change_event-concerns atoi key c changes i m reads ds h =
      let after =
        lookup-apply_change_event new_instance atoi key c reads (event_of changes) i m h in
      (
        λ s. rw (affects-concerned c changes ds s) at after,
        λ s. rw (affects-unconcerned c changes ds s) at after,
      )
