-- ===== src/RedisCache/Manager.antt =====
-- cache/redis/instance.go: the clients kept under their keys. The constructor of a client is a
-- parameter, which has one or fails, and what closing one returns is an input of `close`. Each
-- operation is taken as a whole.
use sutil.Prelude.Text.{Bytes, codes, text_eq, text_eq_iff}
use sutil.Prelude.Maps.{Dict, lookup, store}
use sutil.RedisCache.{
  CacheInstanceConf, CacheKeyParts, build_instance_key, instance_conf_from_string,
}
use sutil.Prelude.{
  ◌≡◌, refl, Bool, ◌&&◌, ◌||◌, Option, none, some, [], ◌∷◌, arith, if◌then◌else◌, Option-cases,
}
use sutil.Sconf.Load.{or_else}

abbrev pub default_cache_group : Bytes
default_cache_group = codes "default"

module _ {Client : Type 0} (new_client : Bytes → Bytes → Option Client) where
  unfoldable pub new_of : CacheInstanceConf → Option Client
  new_of c = new_client c.namespace c.wrapper

  unfoldable pub keep_client : Bytes → Option Client → Dict Client → Dict Client × Option Client
  keep_client key (some i) m = (store key i m, some i)
  keep_client key none m = (m, none)

  unfoldable pub load_or_new :
      CacheInstanceConf → Option Client → Dict Client → Dict Client × Option Client
  unfolding keep_client new_of
  load_or_new c (some i) m = (m, some i)
  load_or_new c none m = keep_client (build_instance_key c) (new_of c) m

  unfoldable pub get_instance : CacheInstanceConf → Dict Client → Dict Client × Option Client
  unfolding load_or_new
  get_instance c m = load_or_new c (lookup (build_instance_key c) m) m

  unfoldable pub is_concerned : CacheKeyParts → CacheInstanceConf → Bool
  is_concerned parts c =
      (text_eq parts.key_group c.group || text_eq parts.key_group default_cache_group)
      && text_eq parts.key_namespace c.namespace

  -- what the client of a key becomes; none where it is deleted
  unfoldable pub renewed : Option CacheInstanceConf → Option CacheKeyParts → Client → Option Client
  unfolding is_concerned new_of
  renewed (some c) (some parts) i = if is_concerned parts c then new_of c else some i
  renewed _ _ i = some i

  unfoldable pub keep_client_entry : Bytes → Option Client → Dict Client → Dict Client
  keep_client_entry k (some i) m = (k, i) ∷ m
  keep_client_entry k none m = m

  unfoldable pub apply_key_change : Option CacheKeyParts → Dict Client → Dict Client
  unfolding keep_client_entry renewed
  apply_key_change parts [] = []
  apply_key_change parts ((k, i) ∷ m) =
      keep_client_entry k (renewed (instance_conf_from_string k) parts i) (apply_key_change parts m)

  unfoldable pub renewed_in : Bytes → Option CacheKeyParts → Option Client → Option Client
  unfolding renewed
  renewed_in k parts (some i) = renewed (instance_conf_from_string k) parts i
  renewed_in k parts none = none

  lookup-keep_client_entry :
      (k j : Bytes) (o : Option Client) (m : Dict Client)
      → lookup j (keep_client_entry k o m)
        ≡ (if text_eq k j then or_else o (lookup j m) else lookup j m)
  unfolding keep_client_entry lookup
  lookup-keep_client_entry k j none m = ground arith
  lookup-keep_client_entry k j (some i) m = ground arith

  -- A change acts on the client of each key by itself: a client of the changed group (or of any group,
  -- where the default group changed) and namespace is replaced by a new one or, where there is none,
  -- deleted, and every other one is kept.
  pub lookup-apply_key_change :
      (parts : Option CacheKeyParts) (k : Bytes) (m : Dict Client)
      → lookup k (apply_key_change parts m) ≡ renewed_in k parts (lookup k m)
  unfolding apply_key_change renewed_in lookup renewed
  lookup-apply_key_change parts k [] = refl
  lookup-apply_key_change parts k ((j, i) ∷ m) = ground (
    arith,
    text_eq_iff j k,
    lookup-apply_key_change parts k m,
    lookup-keep_client_entry j k (renewed (instance_conf_from_string j) parts i)
        (apply_key_change parts m),
    Option-cases (instance_conf_from_string j),
    Option-cases (lookup k m),
  )

module _ {Client : Type 0} (close_client : Client → Bool) where
  -- A client that fails to close ends the iteration and stays.
  unfoldable pub close_clients : Dict Client → Dict Client
  close_clients [] = []
  close_clients ((k, i) ∷ m) =
      let rest = close_clients m in if close_client i then rest else (k, i) ∷ m
