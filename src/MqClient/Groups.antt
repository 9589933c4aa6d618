-- ===== src/MqClient/Groups.antt =====
-- mq/instance.go with mq/interface.go: the Kafka topic of an instance that a call makes in its
-- context's group, and of the instance that replaces it when the configuration changes.
-- `WatchUpdate` is called with the background context, which has no group.
use sutil.Prelude.{
  ℕ, Option, none, some, [], ◌∷◌, ltb, if◌then◌else◌, length, ◌≡◌, ap, ◌≢◌, inl, inr, arith,
  length-append, refl, ◌⊎◌, Bool, true, false, ◌==◌, sym, ◌∙◌,
}
use sutil.Prelude.Text.{Bytes, join}
use sutil.MqClient.{
  Instance, Made, wrap_topic_from_context, new_group_reader, new_writer, reading, made,
  group_reader_of, writer_of, writing, new_kafka_reader, get_config, no_instance, delaying, kafka,
  made_panics, MqType, Config, delaying_of, KafkaReader, delay, Created, partition_reader_of,
  new_instance, created, started_at, new_partition_reader, ℤ, InstanceConf, kept,
}
use sutil.MqConfig.{get_config, kafka, MqType, Config, delay}
use sutil.MqDelay.{Created, refused, panics}
use sutil.Mq.{
  ℤ, InstanceConf, MqRoleType, reader, writer, delay_client, reloaded, KeyParts, conf_from_string,
  is_affected, apply_change,
}
use sutil.Prelude.Maps.{Dict, lookup}
use sutil.Mq.Reload.{reloaded_in, lookup-apply_change}

-- the topic of an instance of Kafka
unfoldable pub kafka_topic : Instance → Option Bytes
kafka_topic (reading r) = some r.read_topic
kafka_topic (writing w) = some w.written_topic
kafka_topic (delaying client) = none

unfoldable pub made_topic : Made → Option Bytes
unfolding kafka_topic
made_topic (made i) = kafka_topic i
made_topic no_instance = none
made_topic made_panics = none

-- the topic, where there is an instance of Kafka
pub HasTopic : Bytes → Option Bytes → Type 0
HasTopic t none = Unit
HasTopic t (some u) = u ≡ t

wrapped-ne : (c : ℕ) (g t : Bytes) → wrap_topic_from_context (some (c ∷ g)) t ≢ t
unfolding wrap_topic_from_context join
wrapped-ne c g t e = ground (arith, ap length e, length-append t (b'_' ∷ c ∷ g))

HasTopic-if :
    (t : Bytes) (b : Bool) (x y : Made)
    → HasTopic t (made_topic x)
    → HasTopic t (made_topic y)
    → HasTopic t (made_topic (if b then x else y))
HasTopic-if t true x y hx hy = hx
HasTopic-if t false x y hx hy = hy

role-cases : (k : MqRoleType) → (k ≡ reader) ⊎ ((k ≡ writer) ⊎ (k ≡ delay_client))
role-cases reader = inl refl
role-cases writer = inr (inl refl)
role-cases delay_client = inr (inr refl)

kept-HasTopic :
    (t : Bytes) (x : Made) (i : Instance)
    → HasTopic t (made_topic x)
    → kept x ≡ some i
    → HasTopic t (kafka_topic i)
unfolding made_topic kept
kept-HasTopic t (made i) j h e = let q : i ≡ j = ground (arith, e) in rw (sym q) h
kept-HasTopic t no_instance j h e = ground (arith, e)
kept-HasTopic t made_panics j h e = ground (arith, e)

MqType-cases : (k : MqType) → (k ≡ kafka) ⊎ (k ≡ delay)
MqType-cases kafka = inl refl
MqType-cases delay = inr refl

module _ (center : Bytes → Option Bytes) where
  group_reader_of-HasTopic :
      (group : Option Bytes) (t i : Bytes) (o : Option Config)
      → HasTopic (wrap_topic_from_context group t) (made_topic (group_reader_of center group t i o))
  unfolding group_reader_of made_topic HasTopic new_kafka_reader
  group_reader_of-HasTopic group t i none = tt
  group_reader_of-HasTopic group t i (some config) = elim (MqType-cases config.mq_type) [
    | inl e ↦ rw e refl
    | inr e ↦ rw e tt
  ]

  writer_of-HasTopic :
      (group : Option Bytes) (t : Bytes) (o : Option Config)
      → HasTopic (wrap_topic_from_context group t) (made_topic (writer_of center group t o))
  unfolding writer_of made_topic HasTopic
  writer_of-HasTopic group t none = tt
  writer_of-HasTopic group t (some config) = elim (MqType-cases config.mq_type) [
    | inl e ↦ rw e refl
    | inr e ↦ rw e tt
  ]

  delaying_of-HasTopic :
      (t : Bytes) (made_of : Created) → HasTopic t (made_topic (delaying_of made_of))
  unfolding delaying_of made_topic HasTopic
  delaying_of-HasTopic t (created client) = tt
  delaying_of-HasTopic t refused = tt
  delaying_of-HasTopic t panics = tt

  module _ {Time : Type 0} (parse_time : Bytes → Option Time)
      (set_offset_at : KafkaReader → Time → Bool) where
    started_at-HasTopic :
        (r : KafkaReader) (o : Option Time)
        → HasTopic r.read_topic (made_topic (started_at center parse_time set_offset_at r o))
    unfolding started_at made_topic HasTopic kafka_topic
    started_at-HasTopic r none = tt
    started_at-HasTopic r (some t) =
        HasTopic-if r.read_topic (set_offset_at r t) (made (reading r)) no_instance refl tt

    partition_reader_of-HasTopic :
        (group : Option Bytes) (t : Bytes) (n : ℤ) (o : Option Config)
        → HasTopic
            (wrap_topic_from_context group t)
            (made_topic (partition_reader_of center parse_time set_offset_at group t n o))
    unfolding partition_reader_of new_kafka_reader
    partition_reader_of-HasTopic group t n none = unfold HasTopic made_topic in tt
    partition_reader_of-HasTopic group t n (some config) = elim (MqType-cases config.mq_type) [
      | inl e ↦ rw e (
          HasTopic-if (wrap_topic_from_context group t) (length config.offset_at == 0) no_instance _
            (unfold HasTopic made_topic in tt)
            (started_at-HasTopic
              (new_kafka_reader config.mq_addr (wrap_topic_from_context group t) [] n 0)
              (parse_time config.offset_at)))
      | inr e ↦ rw e (unfold HasTopic made_topic in tt)
    ]

    -- Whatever its role, an instance of Kafka is made on the topic of its configuration, wrapped by
    -- the group of the context that it is made in.
    pub new_instance-HasTopic :
        (group : Option Bytes) (conf : InstanceConf)
        → HasTopic
            (wrap_topic_from_context group conf.topic)
            (made_topic (new_instance center parse_time set_offset_at group conf))
    unfolding new_instance new_group_reader new_partition_reader new_writer
    new_instance-HasTopic group conf = elim (role-cases conf.role) [
      | inl e ↦ rw e (
          HasTopic-if (wrap_topic_from_context group conf.topic) (ltb 0 (length conf.group_id)) _ _
            (group_reader_of-HasTopic group conf.topic conf.group_id
              (get_config center group conf.topic kafka))
            (partition_reader_of-HasTopic group conf.topic conf.partition
              (get_config center group conf.topic kafka)))
      | inr (inl e) ↦ rw e (writer_of-HasTopic group conf.topic _)
      | inr (inr e) ↦ rw e (delaying_of-HasTopic _ _)
    ]

    -- what the manager's `get` and its watcher make of a configuration
    unfoldable pub kept_in : Option Bytes → InstanceConf → Option Instance
    unfolding kept new_instance
    kept_in group conf = kept (new_instance center parse_time set_offset_at group conf)

    kept_in-HasTopic :
        (group : Option Bytes) (conf : InstanceConf) (i : Instance)
        → kept_in group conf ≡ some i
        → HasTopic (wrap_topic_from_context group conf.topic) (kafka_topic i)
    unfolding kept_in
    kept_in-HasTopic group conf i e =
        kept-HasTopic _ (new_instance center parse_time set_offset_at group conf) i
          (new_instance-HasTopic group conf) e

    -- An instance of Kafka that a call in a group made for a configuration is replaced, when a change
    -- concerns it, by an instance on another Kafka topic than its own, the one without the group,
    -- where its key reads as its configuration and the new instance, of Kafka too, can be made.
    pub reload-ne :
        (atoi : Bytes → Option ℤ) (parts : KeyParts) (key : Bytes) (conf : InstanceConf) (c : ℕ)
        (g : Bytes) (i j : Instance) (t u : Bytes) (m : Dict Instance)
        → kept_in (some (c ∷ g)) conf ≡ some i
        → lookup key m ≡ some i
        → conf_from_string atoi key ≡ some conf
        → is_affected (kept_in none) parts conf ≡ true
        → kafka_topic i ≡ some t
        → kept_in none conf ≡ some j
        → kafka_topic j ≡ some u
        → (lookup key (apply_change (kept_in none) atoi (some parts) m) ≡ some j) × (u ≢ t)
    unfolding reloaded_in reloaded wrap_topic_from_context HasTopic
    reload-ne atoi parts key conf c g i j t u m hi hm hk ha ht hj hu =
        let e1 : u ≡ conf.topic = rw hu at (kept_in-HasTopic none conf j hj) in
        let e2 : t ≡ wrap_topic_from_context (some (c ∷ g)) conf.topic =
          rw ht at (kept_in-HasTopic (some (c ∷ g)) conf i hi) in
        (
          lookup-apply_change (kept_in none) atoi (some parts) key m ∙ rw (hm, hk, ha, hj) refl,
          λ q. wrapped-ne c g conf.topic (sym e2 ∙ sym q ∙ e1),
        )
