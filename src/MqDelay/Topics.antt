-- ===== src/MqDelay/Topics.antt =====
-- mq/delay.go: the client for a topic.
use sutil.Prelude.Text.{Bytes, Lacks, last_index-append, codes, split}
use sutil.MqConfig.{
  Config, get_config, config_with, brokers_of, route_group, delay, get_config_item_with_fallback,
}
use sutil.MqDelay.{
  parse_topic, new_default_delay_client, create_for, create_at, panics, created, cut_at,
  DelayClient, new_delay_client,
}
use sutil.Prelude.{
  ◌≡◌, refl, Option, some, List, [], ◌∷◌, ◌++◌, All, length, take-append_front, ◌↔◌, drop_past,
}

-- A topic is taken apart at its last dot into the namespace and the queue.
pub parse_topic-joined :
    (namespace queue : Bytes)
    → Lacks b'.' queue
    → parse_topic (namespace ++ (b'.' ∷ queue)) ≡ some (namespace, queue)
unfolding parse_topic
parse_topic-joined namespace queue h =
    rw
      (
        last_index-append namespace queue b'.' h,
        cut_at,
        take-append_front (length namespace) namespace (b'.' ∷ queue) refl,
        drop_past namespace b'.' queue,
      )
      refl

no_brokers_iff : (parts : List Bytes) → (brokers_of parts ≡ []) ↔ All (λ p. p ≡ []) parts
unfolding brokers_of
no_brokers_iff [] = (λ h. tt, λ h. refl)
no_brokers_iff ([] ∷ parts) =
    (λ h. (refl, (no_brokers_iff parts).0 h), λ h. (no_brokers_iff parts).1 h.1)
no_brokers_iff ((c ∷ s) ∷ parts) = (λ h. cc, λ h. cc)

create_at_lem :
    (addrs : List Bytes) (config : Config) (namespace queue : Bytes)
    → ((create_at addrs config (some (namespace, queue)) ≡ panics) ↔ (addrs ≡ []))
      × ((addr : Bytes) (others : List Bytes)
          → addrs ≡ addr ∷ others
          → (client : DelayClient) × (create_at addrs config (some (namespace, queue))
              ≡ created client)
            × (client.endpoint ≡ addr)
            × (client.namespace ≡ namespace)
            × (client.queue ≡ queue))
unfolding create_at new_delay_client
create_at_lem [] config namespace queue = ((λ h. refl, λ h. refl), λ addr others h. cc)
create_at_lem (a ∷ addrs) config namespace queue = (
  (λ h. cc, λ h. cc),
  λ addr others h.
      (new_delay_client a namespace queue config.ttl config.ttr config.tries, refl, cc, refl, refl),
)

module _ (center : Bytes → Option Bytes) (group : Option Bytes) (namespace queue brokers : Bytes)
    (one_queue : Lacks b'.' queue)
    (item : get_config_item_with_fallback center
        (route_group group)
        (namespace ++ (b'.' ∷ queue))
        (codes "brokers")
        delay
      ≡ some brokers) where
  -- Where the topic has a queue behind its last dot, asking for its client panics exactly if the
  -- configured brokers are no address at all: only commas, or the empty text.
  pub new_default_delay_client-panics :
      (new_default_delay_client center group (namespace ++ (b'.' ∷ queue)) ≡ panics)
      ↔ All (λ p. p ≡ []) (split brokers b',')
  unfolding new_default_delay_client create_for get_config config_with
  new_default_delay_client-panics =
      rw (item, config_with, create_for, parse_topic-joined namespace queue one_queue)
        let parts = create_at_lem (brokers_of (split brokers b',')) _ namespace queue in
          let nothing = no_brokers_iff (split brokers b',') in
          (λ p. nothing.0 (parts.0.0 p), λ all. parts.0.1 (nothing.1 all))

  -- Otherwise the client is for the first address, the namespace and the queue.
  pub new_default_delay_client-created :
      (addr : Bytes) (addrs : List Bytes)
      → brokers_of (split brokers b',') ≡ addr ∷ addrs
      → (client : DelayClient) × (new_default_delay_client center group
            (namespace ++ (b'.' ∷ queue))
          ≡ created client)
        × (client.endpoint ≡ addr)
        × (client.namespace ≡ namespace)
        × (client.queue ≡ queue)
  unfolding new_default_delay_client create_for get_config config_with
  new_default_delay_client-created addr addrs found =
      rw (item, config_with, create_for, parse_topic-joined namespace queue one_queue)
        ((create_at_lem (brokers_of (split brokers b',')) _ namespace queue).1 addr addrs found)
