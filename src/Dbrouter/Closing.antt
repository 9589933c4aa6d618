-- ===== src/Dbrouter/Closing.antt =====
-- Which instances a change of the configuration closes.
use sutil.Prelude.Text.{Bytes, text_eq, text_eq_iff, Lacks, last_index-append}
use sutil.Prelude.Maps.{Dict, lookup, lookup-delete}
use sutil.Dbrouter.Parser.{DbInsInfo, DbIns, Parser}
use sutil.Dbrouter.Changes.{
  is_changed, compare_string_list, compare_db_info, compare_db_instances, compare_group,
  add_changes, changed_groups, compare_parsers, DbConfigChange,
}
use sutil.Dbrouter.Manager.{
  InstanceManager, build_key, close_db_instance, close_names, handle_db_ins_change,
  handle_group_change, handle_change, is_in_group,
}
use sutil.Prelude.{
  ◌≡◌, Bool, false, ◌&&◌, ◌||◌, List, [], ◌∷◌, refl, none, ◌++◌, arith, if◌then◌else◌, length, All,
  true, Option, some, ◌≢◌, ◌⊎◌,
}

append_cut : (g h x y : Bytes) → length g ≡ length h → g ++ x ≡ h ++ y → (g ≡ h) × (x ≡ y)
append_cut [] [] x y l e = (refl, e)
append_cut [] (d ∷ h) x y l e = ground arith
append_cut (c ∷ g) [] x y l e = ground arith
append_cut (c ∷ g) (d ∷ h) x y l e = ground (arith, append_cut g h x y)

-- Two keys of instances whose names hold no dash are equal only for the same group and name, also
-- where the groups hold dashes.
pub build_key-injective :
    (a g b h : Bytes)
    → Lacks b'-' a
    → Lacks b'-' b
    → build_key a g ≡ build_key b h
    → (a ≡ b) × (g ≡ h)
unfolding build_key
build_key-injective a g b h la lb e =
    let sizes : length g ≡ length h =
      ground (arith, last_index-append g a b'-' la, last_index-append h b b'-' lb) in
    let (same_group, same_rest) = append_cut g h (b'-' ∷ a) (b'-' ∷ b) sizes e in
    (ground arith, same_group)

-- the names that a list of changes holds for a group
unfoldable pub named : Bytes → Bytes → Dict (List Bytes) → Bool
unfolding is_in_group
named inst group [] = false
named inst group ((g, names) ∷ changes) =
    (text_eq g group && is_in_group inst names) || named inst group changes

abbrev pub DashFree : Dict (List Bytes) → Type 0
DashFree changes = All (λ c. All (Lacks b'-') c.1) changes

module _ {Instancer : Type 0} where
  lookup-close_db_instance :
      (n g inst group : Bytes) (m : InstanceManager Instancer)
      → Lacks b'-' n
      → Lacks b'-' inst
      → lookup (build_key inst group) (close_db_instance n g m).instances ≡ (
          if text_eq g group && text_eq inst n
          then none
          else lookup (build_key inst group) m.instances)
  unfolding close_db_instance
  lookup-close_db_instance n g inst group m ln li = ground (
    arith,
    lookup-delete (build_key n g) (build_key inst group) m.instances,
    text_eq_iff (build_key n g) (build_key inst group),
    text_eq_iff g group,
    text_eq_iff inst n,
    build_key-injective n g inst group ln li,
  )

  lookup-close_names :
      (names : List Bytes) (g inst group : Bytes) (m : InstanceManager Instancer)
      → All (Lacks b'-') names
      → Lacks b'-' inst
      → lookup (build_key inst group) (close_names g names m).instances ≡ (
          if text_eq g group && is_in_group inst names
          then none
          else lookup (build_key inst group) m.instances)
  unfolding close_names is_in_group
  lookup-close_names [] g inst group m ln li = ground arith
  lookup-close_names (n ∷ names) g inst group m (ln, lns) li = ground (
    arith,
    lookup-close_names names g inst group (close_db_instance n g m) lns li,
    lookup-close_db_instance n g inst group m ln li,
  )

  lookup-handle_db_ins_change :
      (changes : Dict (List Bytes)) (inst group : Bytes) (m : InstanceManager Instancer)
      → DashFree changes
      → Lacks b'-' inst
      → lookup (build_key inst group) (handle_db_ins_change changes m).instances
        ≡ (if named inst group changes then none else lookup (build_key inst group) m.instances)
  unfolding handle_db_ins_change named
  lookup-handle_db_ins_change [] inst group m lc li = ground arith
  lookup-handle_db_ins_change ((g, names) ∷ changes) inst group m (ln, lc) li = ground (
    arith,
    lookup-handle_db_ins_change changes inst group (close_names g names m) lc li,
    lookup-close_names names g inst group m ln li,
  )

  -- A change closes the instances that it names and keeps all others, where the names hold no dash.
  pub lookup-handle_change :
      (change : DbConfigChange) (inst group : Bytes) (m : InstanceManager Instancer)
      → DashFree change.db_instance_change
      → Lacks b'-' inst
      → lookup (build_key inst group) (handle_change change m).instances ≡ (
          if named inst group change.db_instance_change
          then none
          else lookup (build_key inst group) m.instances)
  unfolding handle_change handle_group_change
  lookup-handle_change change inst group m lc li =
      lookup-handle_db_ins_change change.db_instance_change inst group
        (handle_group_change change.db_groups m) lc li

-- the database name, the user, the password or the addresses of two configurations are not the same
abbrev pub Differs : DbInsInfo → DbInsInfo → Type 0
Differs a b =
    (a.db_name ≢ b.db_name)
    ⊎ (a.access.user ≢ b.access.user)
    ⊎ (a.access.passwd ≢ b.access.passwd)
    ⊎ (a.access.addrs ≢ b.access.addrs)

-- the configuration of the same name, if there is one, differs
abbrev pub GoneOrDiffers : DbInsInfo → Option DbInsInfo → Type 0
GoneOrDiffers info none = Unit {0}
GoneOrDiffers info (some other) = Differs info other

-- the instance's configuration in a group that may be gone itself
abbrev pub found_in : Bytes → Option (Dict DbInsInfo) → Option DbInsInfo
found_in inst none = none
found_in inst (some group) = lookup inst group

compare_string_list_eq : (xs ys : List Bytes) → compare_string_list xs ys ≡ true → xs ≡ ys
unfolding compare_string_list
compare_string_list_eq [] [] h = refl
compare_string_list_eq [] (y ∷ ys) h = absurd (ground (arith, h))
compare_string_list_eq (x ∷ xs) [] h = absurd (ground (arith, h))
compare_string_list_eq (x ∷ xs) (y ∷ ys) h =
    ground (arith, h, text_eq_iff x y, compare_string_list_eq xs ys)

compare_db_info-Differs : (a b : DbInsInfo) → Differs a b → compare_db_info a b ≡ false
unfolding compare_db_info
compare_db_info-Differs a b h = ground (
  arith,
  h,
  text_eq_iff a.db_name b.db_name,
  text_eq_iff a.access.user b.access.user,
  text_eq_iff a.access.passwd b.access.passwd,
  compare_string_list_eq a.access.addrs b.access.addrs,
)

is_changed-GoneOrDiffers :
    (info : DbInsInfo) (o : Option DbInsInfo) → GoneOrDiffers info o → is_changed info o ≡ true
unfolding is_changed
is_changed-GoneOrDiffers info none h = refl
is_changed-GoneOrDiffers info (some other) h = rw (compare_db_info-Differs info other h) refl

is_in_group-compare_db_instances :
    (origin other : Dict DbInsInfo) (inst : Bytes) (info : DbInsInfo)
    → lookup inst origin ≡ some info
    → is_changed info (lookup inst other) ≡ true
    → is_in_group inst (compare_db_instances origin other) ≡ true
unfolding compare_db_instances lookup is_in_group
is_in_group-compare_db_instances [] other inst info h c = ground arith
is_in_group-compare_db_instances ((k, i) ∷ origin) other inst info h c = ground (
  arith,
  text_eq_iff k inst,
  text_eq_iff inst k,
  is_in_group-compare_db_instances origin other inst info,
)

is_in_group-compare_group :
    (origin : Dict DbInsInfo) (other : Option (Dict DbInsInfo)) (inst : Bytes) (info : DbInsInfo)
    → lookup inst origin ≡ some info
    → GoneOrDiffers info (found_in inst other)
    → is_in_group inst (compare_group origin other) ≡ true
unfolding compare_group lookup
is_in_group-compare_group origin none inst info h c =
    is_in_group-compare_db_instances origin [] inst info h (is_changed-GoneOrDiffers info none tt)
is_in_group-compare_group origin (some other) inst info h c =
    is_in_group-compare_db_instances origin other inst info h
      (is_changed-GoneOrDiffers info (lookup inst other) c)

named-add_changes :
    (g : Bytes) (names : List Bytes) (changes : Dict (List Bytes)) (inst group : Bytes)
    → named inst group (add_changes g names changes)
      ≡ (text_eq g group && is_in_group inst names) || named inst group changes
unfolding named add_changes is_in_group
named-add_changes g [] changes inst group = ground arith
named-add_changes g (n ∷ names) changes inst group = refl

named-changed_groups :
    (db_ins other : DbIns) (inst group : Bytes) (origin : Dict DbInsInfo) (info : DbInsInfo)
    → lookup group db_ins ≡ some origin
    → lookup inst origin ≡ some info
    → GoneOrDiffers info (found_in inst (lookup group other))
    → named inst group (changed_groups db_ins other) ≡ true
unfolding changed_groups lookup
named-changed_groups [] other inst group origin info g h c = ground arith
named-changed_groups ((k, m) ∷ db_ins) other inst group origin info g h c = ground (
  arith,
  text_eq_iff k group,
  named-add_changes k (compare_group m (lookup k other)) (changed_groups db_ins other) inst group,
  is_in_group-compare_group m (lookup k other) inst info,
  named-changed_groups db_ins other inst group origin info,
)

module _ {Instancer : Type 0} where
  -- An instance whose configuration is gone after a reload, or has another database name, user,
  -- password or list of addresses, is no longer kept once the change that compareParsers computes is
  -- handled, where its name and the changed names hold no dash.
  pub compare_parsers-handle_change :
      (p q : Parser) (inst group : Bytes) (origin : Dict DbInsInfo) (info : DbInsInfo)
      (m : InstanceManager Instancer)
      → DashFree (changed_groups p.db_ins q.db_ins)
      → Lacks b'-' inst
      → lookup group p.db_ins ≡ some origin
      → lookup inst origin ≡ some info
      → GoneOrDiffers info (found_in inst (lookup group q.db_ins))
      → lookup (build_key inst group) (handle_change (compare_parsers p q) m).instances ≡ none
  unfolding compare_parsers
  compare_parsers-handle_change p q inst group origin info m free li g h c = ground (
    arith,
    lookup-handle_change (compare_parsers p q) inst group m free li,
    named-changed_groups p.db_ins q.db_ins inst group origin info g h c,
  )
