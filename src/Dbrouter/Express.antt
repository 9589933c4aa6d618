-- ===== src/Dbrouter/Express.antt =====
-- dbrouter/express.go: the rules that route a table of a cluster to a database instance. A compiled
-- regular expression is its method FindString, and regexp.CompilePOSIX is a parameter.
use sutil.Prelude.Text.{Bytes, codes, text_eq}
use sutil.Prelude.Maps.{Dict, lookup, store}
use sutil.Prelude.{Bool, false, Option, none, some, [], ◌∷◌, if◌then◌else◌}

pub record LookupCfg : Type 0 where
  pub db_instance : Bytes
  pub match_type : Bytes
  pub express : Bytes

pub record DbExpress : Type 0 where
  pub lookup_cfg : LookupCfg
  pub reg : Option (Bytes → Bytes)

pub record ClsEntry : Type 0 where
  pub full : Dict DbExpress
  pub regex : Dict DbExpress

pub data AddError : Type 0 where
  dup_full : AddError
  dup_regex : AddError
  bad_regex : AddError
  not_supported : AddError

abbrev pub DbCluster : Type 0
DbCluster = Dict ClsEntry

unfoldable pub entry_or_new : Option ClsEntry → ClsEntry
entry_or_new (some e) = e
entry_or_new none = record { full = []; regex = [] }

unfoldable pub add_full : LookupCfg → ClsEntry → Option DbExpress → ClsEntry × Option AddError
add_full l e (some d) = (e, some dup_full)
add_full l e none = (
  record { full = store l.express (record { lookup_cfg = l; reg = none }) e.full; regex = e.regex },
  none,
)

unfoldable pub compiled : LookupCfg → ClsEntry → Option (Bytes → Bytes) → ClsEntry × Option AddError
compiled l e none = (e, some bad_regex)
compiled l e (some f) = (
  record {
    full = e.full;
    regex = store l.express (record { lookup_cfg = l; reg = some f }) e.regex;
  },
  none,
)

unfoldable pub add_regex :
    (Bytes → Option (Bytes → Bytes))
    → LookupCfg
    → ClsEntry
    → Option DbExpress
    → ClsEntry × Option AddError
unfolding compiled
add_regex compile_posix l e (some d) = (e, some dup_regex)
add_regex compile_posix l e none = compiled l e (compile_posix l.express)

unfoldable pub add_entry :
    (Bytes → Option (Bytes → Bytes)) → LookupCfg → ClsEntry → ClsEntry × Option AddError
unfolding add_full add_regex
add_entry compile_posix l e =
    if text_eq l.match_type (codes "full")
    then add_full l e (lookup l.express e.full)
    else if text_eq l.match_type (codes "regex")
    then add_regex compile_posix l e (lookup l.express e.regex)
    else (e, some not_supported)

-- The entry of a new cluster is made before the rule is looked at, so a refused rule leaves an
-- empty one.
unfoldable pub add_instance :
    (Bytes → Option (Bytes → Bytes)) → Bytes → LookupCfg → DbCluster → DbCluster × Option AddError
unfolding add_entry entry_or_new
add_instance compile_posix cluster l m =
    let (e, err) = add_entry compile_posix l (entry_or_new (lookup cluster m)) in
    (store cluster e m, err)

-- The pattern has to take the whole table name. A rule of the map `regex` always has a pattern.
unfoldable pub full_match : Option (Bytes → Bytes) → Bytes → Bool
full_match none table = false
full_match (some find_string) table = text_eq table (find_string table)

unfoldable pub match_regex : Bytes → Dict DbExpress → Option LookupCfg
unfolding full_match
match_regex table [] = none
match_regex table ((k, d) ∷ regex) =
    if full_match d.reg table then some d.lookup_cfg else match_regex table regex

unfoldable pub full_or_regex : Bytes → Dict DbExpress → Option DbExpress → Option LookupCfg
unfolding match_regex
full_or_regex table regex (some d) = some d.lookup_cfg
full_or_regex table regex none = match_regex table regex

unfoldable pub lookup_in : Bytes → Option ClsEntry → Option LookupCfg
unfolding full_or_regex
lookup_in table none = none
lookup_in table (some e) = full_or_regex table e.regex (lookup table e.full)

unfoldable pub get_lookup : Bytes → Bytes → DbCluster → Option LookupCfg
unfolding lookup_in
get_lookup cluster table m = lookup_in table (lookup cluster m)

unfoldable pub instance_of : Option LookupCfg → Bytes
instance_of (some l) = l.db_instance
instance_of none = []

unfoldable pub get_instance : Bytes → Bytes → DbCluster → Bytes
unfolding get_lookup instance_of
get_instance cluster table m = instance_of (get_lookup cluster table m)
