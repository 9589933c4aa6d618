-- ===== src/MqConfig.antt =====
-- mq/config.go: the configuration of a topic, as the configuration center has it. The center is a
-- function from the keys of the namespace of the message queues to their values. White space and
-- digits are those of ASCII. Logging is left out.
pub mod Items
pub mod Keys
pub mod Watch
pub mod Events
mod Tests
use sutil.Prelude.Text.{Bytes, codes, split, join, contains}
use sutil.Prelude.Decimal.{parse_uint}
use sutil.Prelude.Spaces.{trim_space}
use sutil.Prelude.Maps.{Dict}
use sutil.Mq.{KeyParts}
use sutil.Prelude.{
  ℕ, ◌+◌, ◌-◌, ◌*◌, ◌^◌, ◌%◌, Bool, true, false, ◌&&◌, ◌||◌, Option, none, some, List, [], ◌∷◌, ltb,
  leb, ◌==◌, if◌then◌else◌, length, get_elem?, take, not,
}

pub data MqType : Type 0 where
  kafka : MqType
  delay : MqType

unfoldable pub type_string : MqType → Bytes
type_string kafka = codes "kafka"
type_string delay = codes "delay"

-- the times in seconds
pub record Config : Type 0 where
  pub mq_type : MqType
  pub mq_addr : List Bytes
  pub topic : Bytes
  pub time_out : ℕ
  pub commit_interval : ℕ
  pub offset_at : Bytes
  pub ttr : ℕ
  pub ttl : ℕ
  pub tries : ℕ

abbrev pub default_route_group : Bytes
default_route_group = codes "default"

abbrev pub default_ttr : ℕ
default_ttr = 3600

abbrev pub default_ttl : ℕ
default_ttl = 86400

abbrev pub default_tries : ℕ
default_tries = 1

abbrev pub or_default : Option ℕ → ℕ → ℕ
or_default (some n) d = n
or_default none d = d

-- The group of a context: what the context has, or "default".
abbrev pub route_group : Option Bytes → Bytes
route_group (some group) = group
route_group none = default_route_group

-- `buildKey`, with the group of the context
unfoldable pub build_key : Bytes → Bytes → Bytes → MqType → Bytes
unfolding type_string join
build_key group topic item kind = join (topic ∷ group ∷ type_string kind ∷ item ∷ []) b'.'

unfoldable pub key_parts : List Bytes → Option Bytes → Option KeyParts
key_parts names none = none
key_parts names (some g) = some (record { key_group = g; key_topic = join names b'.' })

-- `ParseKey`
unfoldable pub parse_key : Bytes → Option KeyParts
unfolding key_parts
parse_key key =
    let parts = split key b'.' in
    if ltb (length parts) 4
    then none
    else key_parts (take (length parts - 3) parts) (get_elem? parts (length parts - 3))

abbrev pub or_from : Option Bytes → Option Bytes → Option Bytes
or_from (some v) w = some v
or_from none w = w

-- an item that is not there reads as the empty text
abbrev pub or_empty : Option Bytes → Bytes
or_empty (some v) = v
or_empty none = []

-- the elements of `brokers`
unfoldable pub brokers_of : List Bytes → List Bytes
unfolding trim_space
brokers_of [] = []
brokers_of ([] ∷ parts) = brokers_of parts
brokers_of ((c ∷ s) ∷ parts) = trim_space (c ∷ s) ∷ brokers_of parts

module _ (center : Bytes → Option Bytes) where
  -- `getConfigItemWithFallback`
  unfoldable pub get_config_item_with_fallback : Bytes → Bytes → Bytes → MqType → Option Bytes
  get_config_item_with_fallback group topic name kind =
      or_from (center (build_key group topic name kind))
        (center (build_key default_route_group topic name kind))

  unfoldable pub number_item : Bytes → Bytes → Bytes → MqType → ℕ → ℕ → ℕ
  unfolding get_config_item_with_fallback parse_uint
  number_item group topic name kind bits default =
      or_default (parse_uint (or_empty (get_config_item_with_fallback group topic name kind)) bits)
        default
      % 2 ^ bits

  unfoldable pub config_with : Bytes → Bytes → MqType → Option Bytes → Option Config
  unfolding number_item brokers_of
  config_with group topic kind none = none
  config_with group topic kind (some brokers) = some (record {
    mq_type = kind;
    mq_addr = brokers_of (split brokers b',');
    topic = topic;
    time_out = 3;
    commit_interval = 1;
    offset_at = or_empty (get_config_item_with_fallback group topic (codes "offsetat") kind);
    ttr = number_item group topic (codes "ttr") kind 32 default_ttr;
    ttl = number_item group topic (codes "ttl") kind 32 default_ttl;
    tries = number_item group topic (codes "tries") kind 16 default_tries;
  })

  -- `GetConfig`; none where no brokers are configured
  unfoldable pub get_config : Option Bytes → Bytes → MqType → Option Config
  unfolding config_with get_config_item_with_fallback
  get_config group topic kind =
      config_with (route_group group) topic kind
        (get_config_item_with_fallback (route_group group) topic (codes "brokers") kind)

-- what `HandleChangeEvent` hands on of the changed keys of an event; none where it hands on nothing
unfoldable pub mentions_mq : Bytes → Bool
unfolding type_string
mentions_mq key = contains key (type_string kafka) || contains key (type_string delay)

module _ {Change : Type 0} where
  unfoldable pub filter_changes : Dict Change → Dict Change
  unfolding mentions_mq
  filter_changes [] = []
  filter_changes ((k, change) ∷ changes) =
      if mentions_mq k then (k, change) ∷ filter_changes changes else filter_changes changes

  -- the flag tells whether the event is in the namespace of the message queues
  unfoldable pub handle_change_event : Bool → Dict Change → Option (Dict Change)
  unfolding filter_changes
  handle_change_event ours changes = if ours then some (filter_changes changes) else none
