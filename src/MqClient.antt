-- ===== src/MqClient.antt =====
-- mq (interface.go, reader.go, writer.go, instance.go): the instances that a message queue call
-- uses, and the configuration under which it asks the manager of Mq for one. The configuration
-- center is a function from keys to values; parsing a time and setting a Kafka offset are
-- parameters, and a Kafka reader or writer is what it is made from.
use sutil.Prelude.Text.{Bytes, codes, text_eq, join}
pub mod Groups
pub mod Payloads
pub mod Kafka
pub mod Messages
pub mod RoundTrip
pub mod Delayed
pub mod Acknowledge
mod Tests
use sutil.Prelude.Maps.{Dict}
use sutil.Mq.{ℤ, pos, InstanceConf, MqRoleType, reader, writer, delay_client}
use sutil.MqConfig.{Config, MqType, kafka, delay, get_config, route_group}
use sutil.MqDelay.{DelayClient, Created, created, refused, panics, new_default_delay_client}
use sutil.Prelude.{ℕ, Option, none, some, List, [], ◌∷◌, ltb, if◌then◌else◌, length, Bool, ◌==◌}

-- `wrapTopicFromContext`, with the group of the context
unfoldable pub wrap_topic_from_context : Option Bytes → Bytes → Bytes
wrap_topic_from_context none topic = topic
wrap_topic_from_context (some []) topic = topic
wrap_topic_from_context (some (c ∷ group)) topic = join (topic ∷ (c ∷ group) ∷ []) b'_'

pub record KafkaReader : Type 0 where
  pub brokers : List Bytes
  pub read_topic : Bytes
  pub group_id : Bytes
  pub partition : ℤ
  pub commit_interval : ℕ

pub record KafkaWriter : Type 0 where
  pub brokers : List Bytes
  pub written_topic : Bytes

pub data Instance : Type 0 where
  reading : KafkaReader → Instance
  writing : KafkaWriter → Instance
  delaying : DelayClient → Instance

-- an instance, an error, or a panic
pub data Made : Type 0 where
  made : Instance → Made
  no_instance : Made
  made_panics : Made

unfoldable pub new_kafka_reader : List Bytes → Bytes → Bytes → ℤ → ℕ → KafkaReader
new_kafka_reader brokers topic group_id partition commit_interval = record {
  brokers = brokers;
  read_topic = topic;
  group_id = group_id;
  partition = partition;
  commit_interval = commit_interval;
}

-- the result of `NewDefaultDelayClient`
unfoldable pub delaying_of : Created → Made
delaying_of (created client) = made (delaying client)
delaying_of refused = no_instance
delaying_of panics = made_panics

module _ (center : Bytes → Option Bytes) where
  unfoldable pub group_reader_of : Option Bytes → Bytes → Bytes → Option Config → Made
  unfolding wrap_topic_from_context new_kafka_reader
  group_reader_of group topic group_id none = no_instance
  group_reader_of group topic group_id (some config) = elim config.mq_type [
    | kafka ↦ made (
        reading (
          new_kafka_reader config.mq_addr (wrap_topic_from_context group topic) group_id (pos 0)
            config.commit_interval))
    | delay ↦ no_instance
  ]

  -- `NewGroupReader`
  unfoldable pub new_group_reader : Option Bytes → Bytes → Bytes → Made
  unfolding group_reader_of
  new_group_reader group topic group_id =
      group_reader_of group topic group_id (get_config center group topic kafka)

  unfoldable pub writer_of : Option Bytes → Bytes → Option Config → Made
  unfolding wrap_topic_from_context
  writer_of group topic none = no_instance
  writer_of group topic (some config) = elim config.mq_type [
    | kafka ↦ made (
        writing (record {
          brokers = config.mq_addr;
          written_topic = wrap_topic_from_context group topic;
        }))
    | delay ↦ no_instance
  ]

  -- `NewWriter`
  unfoldable pub new_writer : Option Bytes → Bytes → Made
  unfolding writer_of
  new_writer group topic = writer_of group topic (get_config center group topic kafka)

  module _ {Time : Type 0} (parse_time : Bytes → Option Time)
      (set_offset_at : KafkaReader → Time → Bool) where
    -- `offsetAt` parsed and set; `set_offset_at` tells that there was no error
    unfoldable pub started_at : KafkaReader → Option Time → Made
    started_at r none = no_instance
    started_at r (some t) = if set_offset_at r t then made (reading r) else no_instance

    unfoldable pub partition_reader_of : Option Bytes → Bytes → ℤ → Option Config → Made
    unfolding started_at wrap_topic_from_context new_kafka_reader
    partition_reader_of group topic partition none = no_instance
    partition_reader_of group topic partition (some config) =
        let r =
          new_kafka_reader config.mq_addr (wrap_topic_from_context group topic) [] partition 0 in
        let started = started_at r (parse_time config.offset_at) in
        elim config.mq_type [
          | kafka ↦ if length config.offset_at == 0 then no_instance else started
          | delay ↦ no_instance
        ]

    -- `NewPartitionReader`
    unfoldable pub new_partition_reader : Option Bytes → Bytes → ℤ → Made
    unfolding partition_reader_of
    new_partition_reader group topic partition =
        partition_reader_of group topic partition (get_config center group topic kafka)

    -- `newInstance`, with the group of its context
    unfoldable pub new_instance : Option Bytes → InstanceConf → Made
    unfolding new_group_reader new_partition_reader new_writer delaying_of
    new_instance group conf = elim conf.role [
      | reader ↦
          if ltb 0 (length conf.group_id)
          then new_group_reader group conf.topic conf.group_id
          else new_partition_reader group conf.topic conf.partition
      | writer ↦ new_writer group conf.topic
      | delay_client ↦ delaying_of (new_default_delay_client center group conf.topic)
    ]

-- the instance that is kept, if any
unfoldable pub kept : Made → Option Instance
kept (made i) = some i
kept no_instance = none
kept made_panics = none

-- `getReader`, `getWriter` and `getDelayClient`, behind `get`
unfoldable pub as_reader : Option Instance → Option KafkaReader
as_reader (some (reading r)) = some r
as_reader _ = none

unfoldable pub as_writer : Option Instance → Option KafkaWriter
as_writer (some (writing w)) = some w
as_writer _ = none

unfoldable pub as_delay_client : Option Instance → Option DelayClient
as_delay_client (some (delaying client)) = some client
as_delay_client _ = none

-- the configurations that the calls ask for
unfoldable pub writer_conf : Option Bytes → Bytes → InstanceConf
writer_conf group topic = record {
  group = route_group group;
  role = writer;
  topic = topic;
  group_id = [];
  partition = pos 0;
}

unfoldable pub group_reader_conf : Option Bytes → Bytes → Bytes → InstanceConf
group_reader_conf group topic group_id = record {
  group = route_group group;
  role = reader;
  topic = topic;
  group_id = group_id;
  partition = pos 0;
}

unfoldable pub partition_reader_conf : Option Bytes → Bytes → ℤ → InstanceConf
partition_reader_conf group topic partition = record {
  group = route_group group;
  role = reader;
  topic = topic;
  group_id = [];
  partition = partition;
}

unfoldable pub delay_conf : Option Bytes → Bytes → InstanceConf
delay_conf group topic = record {
  group = route_group group;
  role = delay_client;
  topic = topic;
  group_id = [];
  partition = pos 0;
}
