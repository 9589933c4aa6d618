-- ===== src/Dbrouter/Changes.antt =====
-- The changes between two configurations (dbrouter/parser.go) and the manager that closes the
-- instances they name (dbrouter/instance.go). The factory is a parameter: it has an instance or fails.
use sutil.Prelude.Text.{Bytes, text_eq}
use sutil.Prelude.Maps.{Dict, lookup}
use sutil.Dbrouter.Parser.{DbInsInfo, DbIns, Parser}
use sutil.Prelude.{Bool, true, false, not, ◌&&◌, Option, none, some, List, [], ◌∷◌, if◌then◌else◌}

unfoldable pub compare_string_list : List Bytes → List Bytes → Bool
compare_string_list [] [] = true
compare_string_list (x ∷ xs) (y ∷ ys) = text_eq x y && compare_string_list xs ys
compare_string_list _ _ = false

unfoldable pub compare_db_info : DbInsInfo → DbInsInfo → Bool
unfolding compare_string_list
compare_db_info a b =
    text_eq a.db_name b.db_name
    && text_eq a.access.user b.access.user
    && text_eq a.access.passwd b.access.passwd
    && compare_string_list a.access.addrs b.access.addrs

unfoldable pub is_changed : DbInsInfo → Option DbInsInfo → Bool
is_changed info (some other) = not (compare_db_info info other)
is_changed info none = true

unfoldable pub compare_db_instances : Dict DbInsInfo → Dict DbInsInfo → List Bytes
unfolding is_changed
compare_db_instances [] other = []
compare_db_instances ((k, info) ∷ origin) other =
    if is_changed info (lookup k other)
    then k ∷ compare_db_instances origin other
    else compare_db_instances origin other

-- a missing group is compared with the empty map
unfoldable pub compare_group : Dict DbInsInfo → Option (Dict DbInsInfo) → List Bytes
unfolding compare_db_instances
compare_group origin (some other) = compare_db_instances origin other
compare_group origin none = compare_db_instances origin []

unfoldable pub add_changes : Bytes → List Bytes → Dict (List Bytes) → Dict (List Bytes)
add_changes group [] changes = changes
add_changes group (n ∷ names) changes = (group, n ∷ names) ∷ changes

unfoldable pub changed_groups : DbIns → DbIns → Dict (List Bytes)
unfolding compare_group add_changes
changed_groups [] other = []
changed_groups ((g, origin) ∷ db_ins) other =
    add_changes g (compare_group origin (lookup g other)) (changed_groups db_ins other)

pub record DbConfigChange : Type 0 where
  pub db_instance_change : Dict (List Bytes)
  pub db_groups : List Bytes

unfoldable pub keys : DbIns → List Bytes
keys [] = []
keys ((g, m) ∷ db_ins) = g ∷ keys db_ins

unfoldable pub compare_parsers : Parser → Parser → DbConfigChange
unfolding changed_groups keys
compare_parsers origin other = record {
  db_instance_change = changed_groups origin.db_ins other.db_ins;
  db_groups = keys other.db_ins;
}
