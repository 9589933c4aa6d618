-- ===== src/Mq.antt =====
-- mq/instance.go: the instances of a message queue client, kept under the printed form of their
-- configuration. strconv.Atoi and the verb %d are parameters; so are the constructors of the
-- instances, which have one or fail, and the parser of a configuration key. What closing an instance
-- returns is only logged. Each operation is taken as a whole, as the mutex of `get` has it.
pub mod Keys
pub mod Reload
mod Tests
use sutil.Prelude.Text.{Bytes, codes, text_eq, split, join}
use sutil.Prelude.Maps.{Dict, lookup, store, delete}
use sutil.Prelude.{ℕ, Bool, ◌&&◌, ◌||◌, Option, none, some, List, [], ◌∷◌, if◌then◌else◌, zero, suc}

-- an int of Go
pub data ℤ : Type 0 where
  pos : ℕ → ℤ
  negsuc : ℕ → ℤ

pub data MqRoleType : Type 0 where
  reader : MqRoleType
  writer : MqRoleType
  delay_client : MqRoleType

unfoldable pub role_number : MqRoleType → ℤ
role_number reader = pos 0
role_number writer = pos 1
role_number delay_client = pos 2

unfoldable pub role_from_int : ℤ → Option MqRoleType
role_from_int (pos zero) = some reader
role_from_int (pos (suc zero)) = some writer
role_from_int (pos (suc (suc zero))) = some delay_client
role_from_int _ = none

pub record InstanceConf : Type 0 where
  pub group : Bytes
  pub role : MqRoleType
  pub topic : Bytes
  pub group_id : Bytes
  pub partition : ℤ

pub record KeyParts : Type 0 where
  pub key_group : Bytes
  pub key_topic : Bytes

abbrev pub default_route_group : Bytes
default_route_group = codes "default"

unfoldable pub conf_string : (ℤ → Bytes) → InstanceConf → Bytes
unfolding role_number
conf_string itoa c =
    join (c.group ∷ itoa (role_number c.role) ∷ c.topic ∷ c.group_id ∷ itoa c.partition ∷ []) b'-'

infix 20 ◌>>=◌
abbrev ◌>>=◌ {ℓ} : {A B : Type ℓ} → Option A → (A → Option B) → Option B
some a >>= f = f a
none >>= f = none

unfoldable pub conf_of_items : (Bytes → Option ℤ) → List Bytes → Option InstanceConf
unfolding role_from_int
conf_of_items atoi (g ∷ r ∷ t ∷ i ∷ p ∷ []) = do
  it ← atoi r
  kind ← role_from_int it
  number ← atoi p
  some (record { group = g; role = kind; topic = t; group_id = i; partition = number })
conf_of_items atoi _ = none

-- none stands for every error
unfoldable pub conf_from_string : (Bytes → Option ℤ) → Bytes → Option InstanceConf
unfolding conf_of_items
conf_from_string atoi s = conf_of_items atoi (split s b'-')

module _ {Instance : Type 0} (new_instance : InstanceConf → Option Instance) where
  unfoldable pub keep_new :
      Bytes → Option Instance → Dict Instance → Dict Instance × Option Instance
  keep_new key (some i) m = (store key i m, some i)
  keep_new key none m = (m, none)

  unfoldable pub get_or_new :
      Bytes → InstanceConf → Option Instance → Dict Instance → Dict Instance × Option Instance
  unfolding keep_new
  get_or_new key c (some i) m = (m, some i)
  get_or_new key c none m = keep_new key (new_instance c) m

  unfoldable pub get : (ℤ → Bytes) → InstanceConf → Dict Instance → Dict Instance × Option Instance
  unfolding get_or_new
  get itoa c m = get_or_new (conf_string itoa c) c (lookup (conf_string itoa c) m) m

  unfoldable pub is_affected : KeyParts → InstanceConf → Bool
  is_affected parts c =
      (text_eq parts.key_group c.group || text_eq parts.key_group default_route_group)
      && text_eq parts.key_topic c.topic

  -- what the instance of a key becomes; none where it is deleted
  unfoldable pub reloaded : Option InstanceConf → Option KeyParts → Instance → Option Instance
  unfolding is_affected
  reloaded (some c) (some parts) i = if is_affected parts c then new_instance c else some i
  reloaded _ _ i = some i

  unfoldable pub keep_entry : Bytes → Option Instance → Dict Instance → Dict Instance
  keep_entry k (some i) m = (k, i) ∷ m
  keep_entry k none m = m

  unfoldable pub apply_change : (Bytes → Option ℤ) → Option KeyParts → Dict Instance → Dict Instance
  unfolding keep_entry reloaded conf_from_string
  apply_change atoi parts [] = []
  apply_change atoi parts ((k, i) ∷ m) =
      keep_entry k (reloaded (conf_from_string atoi k) parts i) (apply_change atoi parts m)

module _ {Instance : Type 0} where
  -- `rest` is what the later rounds of the iteration leave
  unfoldable pub close_entry :
      Bytes → Instance → Option InstanceConf → Dict Instance → Dict Instance → Dict Instance
  close_entry k i (some c) m rest = rest
  close_entry k i none m rest = (k, i) ∷ m

  -- An entry whose key does not parse ends the iteration.
  unfoldable pub close : (Bytes → Option ℤ) → Dict Instance → Dict Instance
  unfolding close_entry conf_from_string
  close atoi [] = []
  close atoi ((k, i) ∷ m) = close_entry k i (conf_from_string atoi k) m (close atoi m)
