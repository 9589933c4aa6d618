-- ===== src/Dbrouter/Manager.antt =====
-- dbrouter/instance.go: the manager that keeps an instance of each name and group, and closes those
-- whose configuration changed. The factory is a parameter. An instance taken out of the map is
-- closed in a goroutine of its own, which the model leaves out.
use sutil.Prelude.Text.{Bytes, text_eq}
use sutil.Prelude.Maps.{Dict, lookup, store, delete}
use sutil.Dbrouter.Parser.{default_group, test_group}
use sutil.Dbrouter.Changes.{DbConfigChange}
use sutil.Prelude.{Bool, false, ◌||◌, Option, none, some, List, [], ◌∷◌, ◌++◌, if◌then◌else◌}

module _ (Instancer : Type 0) where
  pub record InstanceManager : Type 0 where
    pub instances : Dict Instancer
    pub groups : List Bytes

unfoldable pub build_key : Bytes → Bytes → Bytes
build_key inst group = group ++ (b'-' ∷ inst)

unfoldable pub is_in_group : Bytes → List Bytes → Bool
is_in_group group [] = false
is_in_group group (g ∷ groups) = text_eq group g || is_in_group group groups

-- The group that a request is served from; none where the configuration has to name it.
unfoldable pub resolve_group : Bytes → List Bytes → Option Bytes
unfolding is_in_group
resolve_group group groups =
    if text_eq group default_group || is_in_group group groups
    then some group
    else if text_eq group test_group
    then none
    else some default_group

module _ {Instancer : Type 0} (factory : Bytes → Bytes → Option Instancer) where
  unfoldable pub keep :
      Bytes
      → Option Instancer
      → InstanceManager Instancer
      → InstanceManager Instancer × Option Instancer
  keep key none m = (m, none)
  keep key (some i) m = (record { instances = store key i m.instances; groups = m.groups }, some i)

  -- the locked part of buildInstance, with what the map held
  unfoldable pub find_or_make :
      Bytes
      → Bytes
      → Option Instancer
      → InstanceManager Instancer
      → InstanceManager Instancer × Option Instancer
  unfolding keep
  find_or_make inst group (some i) m = (m, some i)
  find_or_make inst group none m = keep (build_key inst group) (factory inst group) m

  unfoldable pub build_in :
      Bytes
      → Option Bytes
      → InstanceManager Instancer
      → InstanceManager Instancer × Option Instancer
  unfolding find_or_make
  build_in inst none m = (m, none)
  build_in inst (some group) m =
      find_or_make inst group (lookup (build_key inst group) m.instances) m

  unfoldable pub build_instance :
      Bytes → Bytes → InstanceManager Instancer → InstanceManager Instancer × Option Instancer
  unfolding build_in
  build_instance inst group m = build_in inst (resolve_group group m.groups) m

  unfoldable pub get_or_build :
      Bytes
      → Bytes
      → Option Instancer
      → InstanceManager Instancer
      → InstanceManager Instancer × Option Instancer
  unfolding build_instance
  get_or_build inst group (some i) m = (m, some i)
  get_or_build inst group none m = build_instance inst group m

  unfoldable pub get_in :
      Bytes
      → Option Bytes
      → InstanceManager Instancer
      → InstanceManager Instancer × Option Instancer
  unfolding get_or_build
  get_in inst none m = (m, none)
  get_in inst (some group) m = get_or_build inst group (lookup (build_key inst group) m.instances) m

  -- nil is none
  unfoldable pub get :
      Bytes → Bytes → InstanceManager Instancer → InstanceManager Instancer × Option Instancer
  unfolding get_in
  get inst group m = get_in inst (resolve_group group m.groups) m

module _ {Instancer : Type 0} where
  unfoldable pub close_db_instance :
      Bytes → Bytes → InstanceManager Instancer → InstanceManager Instancer
  close_db_instance ins_name group m = record {
    instances = delete (build_key ins_name group) m.instances;
    groups = m.groups;
  }

  unfoldable pub close_names :
      Bytes → List Bytes → InstanceManager Instancer → InstanceManager Instancer
  unfolding close_db_instance
  close_names group [] m = m
  close_names group (n ∷ names) m = close_names group names (close_db_instance n group m)

  unfoldable pub handle_db_ins_change :
      Dict (List Bytes) → InstanceManager Instancer → InstanceManager Instancer
  unfolding close_names
  handle_db_ins_change [] m = m
  handle_db_ins_change ((group, names) ∷ changes) m =
      handle_db_ins_change changes (close_names group names m)

  unfoldable pub handle_group_change :
      List Bytes → InstanceManager Instancer → InstanceManager Instancer
  handle_group_change groups m = record { instances = m.instances; groups = groups }

  -- one message of the channel in dbInsChangeHandler
  unfoldable pub handle_change :
      DbConfigChange → InstanceManager Instancer → InstanceManager Instancer
  unfolding handle_group_change handle_db_ins_change
  handle_change change m =
      handle_db_ins_change change.db_instance_change (handle_group_change change.db_groups m)

  unfoldable pub close_all : InstanceManager Instancer → InstanceManager Instancer
  close_all m = record { instances = []; groups = m.groups }
