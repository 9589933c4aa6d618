-- ===== src/MqConfig/Tests.antt =====
-- The configuration of a topic, and the events that change it, at concrete values.
use sutil.Prelude.Text.{Bytes, codes, split, text_eq, join}
use sutil.Prelude.Maps.{Dict, lookup, store}
use sutil.Mq.{ℤ, pos, InstanceConf, reader, conf_from_string, is_affected}
use sutil.MqConfig.{
  Config, get_config, kafka, delay, build_key, parse_key, default_ttl, default_tries,
}
use sutil.MqConfig.Watch.{ChangeType, add, modify, delete, apply_change_event, affects}
use sutil.MqConfig.Events.{ConfigKey, event_of, Dotless, SomeConcerns, apply_change_event-concerns}
use sutil.Prelude.{
  ℕ, true, false, ◌≡◌, refl, Option, none, some, [], ◌∷◌, ◌-◌, List, All, inl, inr, arith,
}

abbrev items : Dict Bytes
items = store (codes "base.jobs.default.delay.brokers") (codes "a:1, b:2,") (
    store (codes "base.jobs.default.delay.ttr") (codes "60")
      (store (codes "base.jobs.default.delay.tries") (codes "65536") []))

abbrev center : Bytes → Option Bytes
center k = lookup k items

abbrev base_jobs : Bytes
base_jobs = codes "base.jobs"

abbrev jobs_config : Config
jobs_config = record {
  mq_type = delay;
  mq_addr = codes "a:1" ∷ codes "b:2" ∷ [];
  topic = base_jobs;
  time_out = 3;
  commit_interval = 1;
  offset_at = [];
  ttr = 60;
  ttl = default_ttl;
  tries = default_tries;
}

get_config-none : get_config center none base_jobs delay ≡ some jobs_config
unfolding get_config lookup split store text_eq build_key
get_config-none = refl

abbrev event : Dict ChangeType
event =
    (codes "orders.blue.kafka.brokers", add)
    ∷ (codes "orders.default.kafka.brokers", modify)
    ∷ (codes "application", delete)
    ∷ []

-- one digit
abbrev digit_of : Bytes → Option ℤ
digit_of (c ∷ []) = some (pos (c - b'0'))
digit_of _ = none

abbrev orders_reader : InstanceConf
orders_reader = record {
  group = codes "blue";
  role = reader;
  topic = codes "orders";
  group_id = codes "g1";
  partition = pos 0;
}

abbrev make : InstanceConf → Option ℕ
make c = some 9

orders_reads : conf_from_string digit_of (codes "blue-0-orders-g1-0") ≡ some orders_reader
unfolding conf_from_string split
orders_reads = refl

abbrev running : Dict ℕ
running = (codes "blue-0-orders-g1-0", 7) ∷ []

abbrev brokers_key : Bytes → ConfigKey
brokers_key group = record {
  of_group = group;
  of_topic = codes "orders";
  of_item = codes "brokers";
  of_kind = kafka;
}

abbrev key_changes : List (ConfigKey × ChangeType)
key_changes = (brokers_key (codes "blue"), add) ∷ (brokers_key (codes "default"), modify) ∷ []

key_changes-Dotless : All Dotless key_changes
key_changes-Dotless = ((ground arith, ground arith), ((ground arith, ground arith), tt))

apply_change_event-concerns_example :
    (SomeConcerns orders_reader key_changes
      → lookup
          (codes "blue-0-orders-g1-0")
          (apply_change_event make digit_of (event_of key_changes) running)
        ≡ make orders_reader)
    × (¬ SomeConcerns orders_reader key_changes
        → lookup
            (codes "blue-0-orders-g1-0")
            (apply_change_event make digit_of (event_of key_changes) running)
          ≡ some 7)
unfolding lookup text_eq
apply_change_event-concerns_example =
    apply_change_event-concerns make digit_of (codes "blue-0-orders-g1-0") orders_reader key_changes
      7 running orders_reads key_changes-Dotless refl

default_modified : SomeConcerns orders_reader key_changes
default_modified = inr (inl (λ e. cc, refl, inr refl))

event-affects : affects make orders_reader event ≡ true
unfolding affects parse_key split is_affected text_eq join
event-affects = refl

-- What is only added reloads nothing, also where it takes the place of the default.
added_is_ignored :
    affects make orders_reader ((codes "orders.blue.kafka.brokers", add) ∷ []) ≡ false
unfolding affects
added_is_ignored = refl
