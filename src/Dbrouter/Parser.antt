-- ===== src/Dbrouter/Parser.antt =====
-- dbrouter/parser.go: the routing configuration. json.Unmarshal is a parameter, at the two types it
-- is called with; a level is an int32 that is only copied, kept here as its bits.
use sutil.Prelude.Text.{Bytes, codes, text_eq}
use sutil.Prelude.Maps.{Dict, lookup, store}
use sutil.Dbrouter.Express.{LookupCfg, AddError, DbCluster, add_instance}
use sutil.Prelude.{
  ℕ, Bool, true, false, not, ◌&&◌, ◌||◌, Option, none, some, List, [], ◌∷◌, leb, ◌==◌,
  if◌then◌else◌, length,
}

pub data NameError : Type 0 where
  is_empty : NameError
  first_not_alpha : NameError
  bad_char : NameError

unfoldable pub is_alpha : ℕ → Bool
is_alpha c = (leb b'a' c && leb c b'z') || (leb b'A' c && leb c b'Z')

unfoldable pub is_name_char : ℕ → Bool
unfolding is_alpha
is_name_char c = is_alpha c || (leb b'0' c && leb c b'9') || c == b'_'

unfoldable pub check_chars : Bytes → Option NameError
unfolding is_name_char
check_chars [] = none
check_chars (c ∷ s) = if is_name_char c then check_chars s else some bad_char

-- none is the nil error
unfoldable pub check_varname : Bytes → Option NameError
unfolding check_chars is_alpha
check_varname [] = some is_empty
check_varname (f ∷ s) = if is_alpha f then check_chars (f ∷ s) else some first_not_alpha

abbrev pub default_group : Bytes
default_group = []

abbrev pub test_group : Bytes
test_group = codes "test"

pub record ItemDbInsCfg : Type 0 where
  pub item_dbcfg : Bytes
  pub item_group : Bytes

pub record DbInsCfg : Type 0 where
  pub dbtype : Bytes
  pub dbname : Bytes
  pub dbcfg : Bytes
  pub level : ℕ
  pub ins : List ItemDbInsCfg

pub record Access : Type 0 where
  pub addrs : List Bytes
  pub user : Bytes
  pub passwd : Bytes

pub record DbInsInfo : Type 0 where
  pub instance_name : Bytes
  pub db_type : Bytes
  pub db_name : Bytes
  pub db_level : ℕ
  pub access : Access

-- none is the nil pointer that a JSON null gives
pub record RouteConfig : Type 0 where
  pub cluster : Dict (List (Option LookupCfg))
  pub instances : Dict (Option DbInsCfg)

abbrev pub DbIns : Type 0
DbIns = Dict (Dict DbInsInfo)

pub record Parser : Type 0 where
  pub db_cls : DbCluster
  pub db_ins : DbIns

abbrev pub no_info : DbInsInfo
no_info = record {
  instance_name = [];
  db_type = [];
  db_name = [];
  db_level = 0;
  access = record { addrs = []; user = []; passwd = [] };
}

unfoldable pub info_or_none : Option DbInsInfo → DbInsInfo
info_or_none (some i) = i
info_or_none none = no_info

-- In the second branch `infoMap` is the nil map that the failed lookup left.
unfoldable pub config_in : Bytes → Bytes → Option (Dict DbInsInfo) → DbInsInfo
unfolding info_or_none
config_in inst group (some info_map) = info_or_none (lookup inst info_map)
config_in inst group none =
    if not (text_eq group test_group) then info_or_none (lookup default_group []) else no_info

unfoldable pub get_config : Bytes → Bytes → Parser → DbInsInfo
unfolding config_in
get_config inst group p = config_in inst group (lookup group p.db_ins)

-- the end of parseDbIns, with what json.Unmarshal returned
unfoldable pub filled : DbInsCfg → Bytes → Option Access → Option DbInsInfo
filled db inst none = none
filled db inst (some a) = some (record {
  instance_name = inst;
  db_type = db.dbtype;
  db_name = db.dbname;
  db_level = db.level;
  access = a;
})

unfoldable pub is_nil : Option NameError → Bool
is_nil none = true
is_nil (some e) = false

-- none stands for any error: the callers log it and go on
unfoldable pub parse_db_ins : (Bytes → Option Access) → DbInsCfg → Bytes → Bytes → Option DbInsInfo
unfolding is_nil filled
parse_db_ins unmarshal db inst cfg =
    if is_nil (check_varname db.dbtype) && is_nil (check_varname db.dbname) && not (length cfg == 0)
    then filled db inst (unmarshal cfg)
    else none

unfoldable pub map_or_new : Option (Dict DbInsInfo) → Dict DbInsInfo
map_or_new (some m) = m
map_or_new none = []

-- r.dbIns[group][ins] = info, with the inner map made when it is missing
unfoldable pub put_info : Bytes → Bytes → Option DbInsInfo → DbIns → DbIns
unfolding map_or_new
put_info group inst none db_ins = db_ins
put_info group inst (some info) db_ins =
    store group (store inst info (map_or_new (lookup group db_ins))) db_ins

unfoldable pub put_items :
    (Bytes → Option Access) → DbInsCfg → Bytes → List ItemDbInsCfg → DbIns → DbIns
unfolding put_info parse_db_ins
put_items unmarshal db inst [] db_ins = db_ins
put_items unmarshal db inst (i ∷ items) db_ins =
    put_items unmarshal db inst items
      (put_info i.item_group inst (parse_db_ins unmarshal db inst i.item_dbcfg) db_ins)

unfoldable pub put_instance : (Bytes → Option Access) → Bytes → DbInsCfg → DbIns → DbIns
unfolding put_items put_info parse_db_ins
put_instance unmarshal inst db db_ins =
    put_items unmarshal db inst db.ins
      (put_info default_group inst (parse_db_ins unmarshal db inst db.dbcfg) db_ins)

-- the number of instances of a group of the map
unfoldable pub group_size : Bytes → DbIns → ℕ
unfolding map_or_new
group_size group db_ins = length (map_or_new (lookup group db_ins))

unfoldable pub sizes_agree : ℕ → DbIns → Bool
sizes_agree n [] = true
sizes_agree n ((g, m) ∷ db_ins) = length m == n && sizes_agree n db_ins

pub data NewError : Type 0 where
  unmarshal_error : NewError
  rule_error : AddError → NewError
  lack_of_group : Bytes → NewError

pub data Loaded {ℓ} (A : Type ℓ) : Type ℓ where
  loaded : A → Loaded A
  failed : NewError → Loaded A
  panicked : Loaded A

-- One round of the loop over `cfg.Instances` and the rounds behind it. A nil instance panics, where it
-- is not skipped for its name.
unfoldable pub load_instances :
    (Bytes → Option Access) → Dict (Option DbInsCfg) → DbIns → Loaded DbIns
unfolding put_instance sizes_agree group_size is_nil
load_instances unmarshal [] db_ins = loaded db_ins
load_instances unmarshal ((inst, none) ∷ inss) db_ins =
    let skipped = load_instances unmarshal inss db_ins in
    if is_nil (check_varname inst) then panicked else skipped
load_instances unmarshal ((inst, some db) ∷ inss) db_ins =
    let db_ins_put = put_instance unmarshal inst db db_ins in
    let skipped = load_instances unmarshal inss db_ins in
    let rest = load_instances unmarshal inss db_ins_put in
    if is_nil (check_varname inst)
    then if sizes_agree (group_size default_group db_ins_put) db_ins_put
      then rest
      else failed (lack_of_group inst)
    else skipped

unfoldable pub rule_is_ok : LookupCfg → Bool
unfolding is_nil
rule_is_ok v =
    not (length v.express == 0)
    && is_nil (check_varname v.match_type)
    && is_nil (check_varname v.db_instance)

unfoldable pub or_rule_error : Option AddError → Loaded DbCluster → Loaded DbCluster
or_rule_error none rest = rest
or_rule_error (some e) rest = failed (rule_error e)

-- the inner loop over the rules of one cluster; a nil rule panics
unfoldable pub load_rules :
    (Bytes → Option (Bytes → Bytes))
    → Bytes
    → List (Option LookupCfg)
    → DbCluster
    → Loaded DbCluster
unfolding rule_is_ok or_rule_error
load_rules compile_posix c [] m = loaded m
load_rules compile_posix c (none ∷ ins) m = panicked
load_rules compile_posix c (some v ∷ ins) m =
    let (added, err) = add_instance compile_posix c v m in
    let skipped = load_rules compile_posix c ins m in
    let rest = load_rules compile_posix c ins added in
    if rule_is_ok v then or_rule_error err rest else skipped

unfoldable pub and_then {ℓ} : {A B : Type ℓ} → Loaded A → (A → Loaded B) → Loaded B
and_then (loaded a) rest = rest a
and_then (failed e) rest = failed e
and_then panicked rest = panicked

-- the loop over `cfg.Cluster`
unfoldable pub load_clusters :
    (Bytes → Option (Bytes → Bytes)) → Dict (List (Option LookupCfg)) → DbCluster → Loaded DbCluster
unfolding and_then load_rules
load_clusters compile_posix [] m = loaded m
load_clusters compile_posix ((c, ins) ∷ cls) m =
    let skipped = load_clusters compile_posix cls m in
    let rest = and_then (load_rules compile_posix c ins m) (load_clusters compile_posix cls) in
    if is_nil (check_varname c) && not (length ins == 0) then rest else skipped

unfoldable pub load_parser :
    (Bytes → Option (Bytes → Bytes)) → (Bytes → Option Access) → RouteConfig → Loaded Parser
unfolding and_then load_clusters load_instances
load_parser compile_posix unmarshal cfg =
    and_then (load_clusters compile_posix cfg.cluster []) (λ m.
      and_then (load_instances unmarshal cfg.instances [])
        (λ db_ins. loaded (record { db_cls = m; db_ins = db_ins })))

unfoldable pub or_unmarshal_error :
    Option RouteConfig → (RouteConfig → Loaded Parser) → Loaded Parser
or_unmarshal_error none load = failed unmarshal_error
or_unmarshal_error (some cfg) load = load cfg

unfoldable pub new_parser :
    (Bytes → Option (Bytes → Bytes))
    → (Bytes → Option RouteConfig)
    → (Bytes → Option Access)
    → Bytes
    → Loaded Parser
unfolding or_unmarshal_error load_parser
new_parser compile_posix unmarshal_config unmarshal jscfg =
    or_unmarshal_error (unmarshal_config jscfg) (load_parser compile_posix unmarshal)
