-- ===== src/MqConfig/Items.antt =====
-- mq/config.go: what a configuration consists of.
use sutil.Prelude.Text.{Bytes, codes}
use sutil.Prelude.Decimal.{parse_uint, parse_digits, in_bits}
use sutil.MqConfig.{
  MqType, Config, get_config, config_with, get_config_item_with_fallback, number_item, build_key,
  route_group, default_route_group, or_default, or_from, or_empty, default_ttr, default_ttl,
  default_tries,
}
use sutil.Prelude.{ℕ, ◌^◌, ◌<◌, ◌≡◌, refl, sym, Option, none, some, [], ◌∷◌, arith, ltb→lt}

module _ (center : Bytes → Option Bytes) where
  or_from_twice : (o : Option Bytes) → or_from o o ≡ o
  or_from_twice none = refl
  or_from_twice (some v) = refl

  fallback_alone :
      (group topic item : Bytes) (kind : MqType)
      → center (build_key group topic item kind) ≡ none
      → get_config_item_with_fallback center group topic item kind
        ≡ get_config_item_with_fallback center default_route_group topic item kind
  unfolding get_config_item_with_fallback
  fallback_alone group topic item kind h =
      rw (h, or_from) (sym (or_from_twice (center (build_key default_route_group topic item kind))))

  number_item-default :
      (group topic item : Bytes) (kind : MqType) (bits d : ℕ)
      → center (build_key group topic item kind) ≡ none
      → number_item center group topic item kind bits d
        ≡ number_item center default_route_group topic item kind bits d
  unfolding number_item
  number_item-default group topic item kind bits d h =
      rw (fallback_alone group topic item kind h) refl

  config_with-default :
      (group topic : Bytes) (kind : MqType) (brokers : Option Bytes)
      → ((item : Bytes) → center (build_key group topic item kind) ≡ none)
      → config_with center group topic kind brokers
        ≡ config_with center default_route_group topic kind brokers
  unfolding config_with
  config_with-default group topic kind none h = refl
  config_with-default group topic kind (some brokers) h =
      rw
        (
          fallback_alone group topic (codes "offsetat") kind (h (codes "offsetat")),
          number_item-default group topic (codes "ttr") kind 32 default_ttr (h (codes "ttr")),
          number_item-default group topic (codes "ttl") kind 32 default_ttl (h (codes "ttl")),
          number_item-default group topic (codes "tries") kind 16 default_tries (h (codes "tries")),
        )
        refl

  -- A group for which the center has nothing is configured as the default group is.
  pub get_config-default :
      (group topic : Bytes) (kind : MqType)
      → ((item : Bytes) → center (build_key group topic item kind) ≡ none)
      → get_config center (some group) topic kind ≡ get_config center none topic kind
  unfolding get_config
  get_config-default group topic kind h =
      rw (fallback_alone group topic (codes "brokers") kind (h (codes "brokers")))
        (config_with-default group topic kind _ h)

  in_bits-lt : (bits d : ℕ) (o : Option ℕ) → d < 2 ^ bits → or_default (in_bits bits o) d < 2 ^ bits
  in_bits-lt bits d none h = h
  in_bits-lt bits d (some n) h = ground (arith, ltb→lt n (2 ^ bits))

  parse_uint-lt :
      (s : Bytes) (bits d : ℕ) → d < 2 ^ bits → or_default (parse_uint s bits) d < 2 ^ bits
  unfolding parse_uint
  parse_uint-lt [] bits d h = h
  parse_uint-lt (c ∷ s) bits d h = in_bits-lt bits d (parse_digits (c ∷ s) 0) h

  -- what an item gives before the conversion to the type of its field
  unfoldable pub number_of : Bytes → Bytes → Bytes → MqType → ℕ → ℕ → ℕ
  number_of group topic item kind bits d =
      or_default
        (parse_uint (or_empty (get_config_item_with_fallback center group topic item kind)) bits) d

  number_item-number_of :
      (group topic item : Bytes) (kind : MqType) (bits d : ℕ)
      → d < 2 ^ bits
      → (number_item center group topic item kind bits d ≡ number_of group topic item kind bits d)
        × (number_of group topic item kind bits d < 2 ^ bits)
  unfolding number_item number_of
  number_item-number_of group topic item kind bits d h =
      let small =
        parse_uint-lt (or_empty (get_config_item_with_fallback center group topic item kind)) bits d
          h in
      (grind (arith, small), small)

  -- The times and the tries are the numbers that the items give, or the defaults: they fit 32 and 16
  -- bits, so the conversions cut nothing off.
  pub get_config_numbers :
      (group : Option Bytes) (topic : Bytes) (kind : MqType) (c : Config)
      → get_config center group topic kind ≡ some c
      → (c.ttr ≡ number_of (route_group group) topic (codes "ttr") kind 32 default_ttr)
        × (c.ttl ≡ number_of (route_group group) topic (codes "ttl") kind 32 default_ttl)
        × (c.tries ≡ number_of (route_group group) topic (codes "tries") kind 16 default_tries)
        × (c.ttr < 2 ^ 32)
        × (c.ttl < 2 ^ 32)
        × (c.tries < 2 ^ 16)
  unfolding get_config config_with
  get_config_numbers group topic kind c h =
      let of_ttr =
        number_item-number_of (route_group group) topic (codes "ttr") kind 32 default_ttr
          (omega arith) in
      let of_ttl =
        number_item-number_of (route_group group) topic (codes "ttl") kind 32 default_ttl
          (omega arith) in
      let of_tries =
        number_item-number_of (route_group group) topic (codes "tries") kind 16 default_tries
          (omega arith) in
      ground (arith, of_ttr, of_ttl, of_tries)
