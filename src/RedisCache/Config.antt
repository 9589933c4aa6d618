-- ===== src/RedisCache/Config.antt =====
-- cache/redis/config.go: the configuration of a namespace, as the configuration center has it. The
-- center is three functions of a key, for texts, integers and truth values; an integer is a ℤ. The
-- group is that of the context. Logging is left out.
use sutil.Prelude.Text.{Bytes, codes, contains}
use sutil.Prelude.Maps.{Dict}
use sutil.Mq.{ℤ, pos}
use sutil.RedisCache.Manager.{default_cache_group}
use sutil.RedisCache.{build_config_key, cache_type_redis}
use sutil.Prelude.{Bool, true, ◌≡◌, refl, sym, ◌↔◌, Option, none, some, [], ◌∷◌, if◌then◌else◌}

-- the timeout in seconds, which the source keeps as a duration
pub record Config : Type 0 where
  pub addr : Bytes
  pub conf_namespace : Bytes
  pub pool_size : ℤ
  pub timeout : ℤ
  pub use_wrapper : Bool

abbrev pub default_pool_size : ℤ
default_pool_size = pos 128

abbrev pub default_timeout_num_seconds : ℤ
default_timeout_num_seconds = pos 3

abbrev pub or_next {ℓ} : {A : Type ℓ} → Option A → Option A → Option A
or_next (some v) next = some v
or_next none next = next

-- `getConfigStringItemWithFallback`, and the same for integers and truth values
unfoldable pub item_with_fallback {ℓ} :
    {A : Type ℓ} → (Bytes → Option A) → Bytes → Bytes → Bytes → Option A
unfolding build_config_key
item_with_fallback center group namespace name =
    or_next (center (build_config_key group namespace name))
      (center (build_config_key default_cache_group namespace name))

abbrev pub or_value {ℓ} : {A : Type ℓ} → Option A → A → A
or_value (some v) d = v
or_value none d = d

module _ (texts : Bytes → Option Bytes) (ints : Bytes → Option ℤ)
    (bools : Bytes → Option Bool) where
  unfoldable pub config_at : Bytes → Bytes → Option Bytes → Option Config
  unfolding item_with_fallback
  config_at group namespace none = none
  config_at group namespace (some addr) = some (record {
    addr = addr;
    conf_namespace = namespace;
    pool_size =
        or_value (item_with_fallback ints group namespace (codes "poolsize")) default_pool_size;
    timeout =
        or_value (item_with_fallback ints group namespace (codes "timeout"))
          default_timeout_num_seconds;
    use_wrapper = or_value (item_with_fallback bools group namespace (codes "usewrapper")) true;
  })

  -- `GetConfig`; none where no address is configured
  unfoldable pub get_config : Bytes → Bytes → Option Config
  unfolding config_at item_with_fallback
  get_config group namespace =
      config_at group namespace (item_with_fallback texts group namespace (codes "addr"))

  or_next-none :
      {A : Type 0} (o next : Option A) → (or_next o next ≡ none) ↔ ((o ≡ none) × (next ≡ none))
  or_next-none none next = (λ h. (refl, h), λ h. h.1)
  or_next-none (some v) next = (λ h. cc, λ h. cc)

  config_at-none :
      (group namespace : Bytes) (o : Option Bytes)
      → (config_at group namespace o ≡ none) ↔ (o ≡ none)
  unfolding config_at
  config_at-none group namespace none = (λ h. refl, λ h. refl)
  config_at-none group namespace (some addr) = (λ h. cc, λ h. cc)

  -- A namespace has no configuration exactly if neither its own group nor the default group has an
  -- address for it.
  pub get_config-none :
      (group namespace : Bytes)
      → (get_config group namespace ≡ none) ↔ (
          (texts (build_config_key group namespace (codes "addr")) ≡ none)
          × (texts (build_config_key default_cache_group namespace (codes "addr")) ≡ none))
  unfolding get_config item_with_fallback
  get_config-none group namespace =
      let outer =
        config_at-none group namespace (item_with_fallback texts group namespace (codes "addr")) in
      let inner =
        or_next-none (texts (build_config_key group namespace (codes "addr")))
          (texts (build_config_key default_cache_group namespace (codes "addr"))) in
      (λ h. inner.0 (outer.0 h), λ h. outer.1 (inner.1 h))

  or_next_twice : {A : Type 0} (o : Option A) → or_next o o ≡ o
  or_next_twice none = refl
  or_next_twice (some v) = refl

  item-default :
      {A : Type 0} (center : Bytes → Option A) (group namespace name : Bytes)
      → center (build_config_key group namespace name) ≡ none
      → item_with_fallback center group namespace name
        ≡ item_with_fallback center default_cache_group namespace name
  unfolding item_with_fallback
  item-default center group namespace name h =
      rw (h, or_next)
        (sym (or_next_twice (center (build_config_key default_cache_group namespace name))))

  config_at-default :
      (group namespace : Bytes) (o : Option Bytes)
      → ((name : Bytes) → ints (build_config_key group namespace name) ≡ none)
      → ((name : Bytes) → bools (build_config_key group namespace name) ≡ none)
      → config_at group namespace o ≡ config_at default_cache_group namespace o
  unfolding config_at
  config_at-default group namespace none i b = refl
  config_at-default group namespace (some addr) i b =
      rw
        (
          item-default ints group namespace (codes "poolsize") (i (codes "poolsize")),
          item-default ints group namespace (codes "timeout") (i (codes "timeout")),
          item-default bools group namespace (codes "usewrapper") (b (codes "usewrapper")),
        )
        refl

  -- A group for which the center has nothing is configured as the default group is.
  pub get_config-fallback :
      (group namespace : Bytes)
      → ((name : Bytes) → texts (build_config_key group namespace name) ≡ none)
      → ((name : Bytes) → ints (build_config_key group namespace name) ≡ none)
      → ((name : Bytes) → bools (build_config_key group namespace name) ≡ none)
      → get_config group namespace ≡ get_config default_cache_group namespace
  unfolding get_config
  get_config-fallback group namespace t i b =
      rw (item-default texts group namespace (codes "addr") (t (codes "addr")))
        (config_at-default group namespace _ i b)

module _ {Change : Type 0} where
  -- what `HandleChangeEvent` hands on of the changed keys of an event of the namespace of the caches
  unfoldable pub redis_changes : Dict Change → Dict Change
  redis_changes [] = []
  redis_changes ((k, change) ∷ changes) =
      if contains k cache_type_redis
      then (k, change) ∷ redis_changes changes
      else redis_changes changes
