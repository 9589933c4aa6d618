-- ===== src/Dbrouter/Loading.antt =====
-- What a loaded configuration guarantees.
use std.Path.{subst}
use sutil.Prelude.Text.{Bytes, text_eq_iff, Lacks}
use sutil.Prelude.Maps.{Dict, lookup, has, lookup-absent}
use sutil.Dbrouter.Groups.{
  map_at, Grown, Agree, Agree-step, Grown-put_instance, default-put_instance,
}
use sutil.Dbrouter.Parser.{
  DbIns, Parser, DbInsCfg, Access, parse_db_ins, map_or_new, put_instance, group_size, sizes_agree,
  load_instances, check_varname, is_nil, default_group, loaded, RouteConfig, new_parser,
  load_parser, and_then, get_config, NameError, or_unmarshal_error, is_name_char, check_chars,
  config_in, is_alpha, info_or_none, no_info,
}
use sutil.Prelude.{
  ◌≡◌, ◌≢◌, false, Option, none, [], ◌∷◌, arith, All, refl, ◌⊎◌, inl, inr, true, some, ℕ,
}

-- the keys of the list differ
unfoldable pub Unique : Dict (Option DbInsCfg) → Type 0
Unique [] = Unit
Unique ((k, v) ∷ m) = (has k m ≡ false) × Unique m

-- no group of `s` has one of the instances
abbrev Fresh : Dict (Option DbInsCfg) → DbIns → Type 0
Fresh inss s = All (λ e. (g : Bytes) → has e.0 (map_at g s) ≡ false) inss

abbrev pub DefaultParses : (Bytes → Option Access) → Bytes → Option DbInsCfg → Type 0
DefaultParses unmarshal inst none = Unit {0}
DefaultParses unmarshal inst (some db) =
    check_varname inst ≡ none → parse_db_ins unmarshal db inst db.dbcfg ≢ none

-- each instance that is there and not skipped for its name has a default configuration that parses
abbrev pub DefaultsParse : (Bytes → Option Access) → Dict (Option DbInsCfg) → Type 0
DefaultsParse unmarshal inss = All (λ e. DefaultParses unmarshal e.0 e.1) inss

Fresh-Grown :
    (inst : Bytes) (inss : Dict (Option DbInsCfg)) (s t : DbIns)
    → has inst inss ≡ false
    → Grown inst s t
    → Fresh inss s
    → Fresh inss t
unfolding has
Fresh-Grown inst [] s t h grown f = tt
Fresh-Grown inst ((k, db) ∷ inss) s t h grown (f, fs) = (
  (λ g. ground (arith, grown g k, f g, text_eq_iff inst k, text_eq_iff k inst)),
  Fresh-Grown inst inss s t (ground arith) grown fs,
)

nil-cases : (e : Option NameError) → (e ≡ none) ⊎ (is_nil e ≡ false)
unfolding is_nil
nil-cases none = inl refl
nil-cases (some e) = inr refl

load_instances-Agree :
    (unmarshal : Bytes → Option Access) (inss : Dict (Option DbInsCfg)) (s t : DbIns)
    → Unique inss
    → DefaultsParse unmarshal inss
    → Fresh inss s
    → Agree s
    → load_instances unmarshal inss s ≡ loaded t
    → Agree t
unfolding load_instances is_nil Unique
load_instances-Agree unmarshal [] s t u d f a h =
    let e : s ≡ t = ground (arith, h) in subst Agree e a
load_instances-Agree unmarshal ((inst, none) ∷ inss) s t (new, u) (_, d) (f, fs) a h =
    elim (nil-cases (check_varname inst)) [
      | inl e ↦ absurd (ground (arith, h, e))
      | inr e ↦ load_instances-Agree unmarshal inss s t u d fs a (ground (arith, h, e))
    ]
load_instances-Agree unmarshal ((inst, some db) ∷ inss) s t (new, u) (parses, d) (f, fs) a h =
    elim (nil-cases (check_varname inst)) [
      | inl e ↦
          let put = put_instance unmarshal inst db s in
          let grown : Grown inst s put = Grown-put_instance unmarshal inst db s in
          let there : has inst (map_at default_group put) ≡ true =
            default-put_instance unmarshal inst db s (parses e) in
          let sizes : sizes_agree (group_size default_group put) put ≡ true =
            ground (arith, h, e) in
          load_instances-Agree unmarshal inss put t u d (Fresh-Grown inst inss s put new grown fs)
            (Agree-step inst s put a grown f there sizes) (ground (arith, h, e, sizes))
      | inr e ↦ load_instances-Agree unmarshal inss s t u d fs a (ground (arith, h, e))
    ]

all-Fresh : (inss : Dict (Option DbInsCfg)) → Fresh inss []
unfolding map_at map_or_new has
all-Fresh [] = tt
all-Fresh (e ∷ inss) = ((λ g. refl), all-Fresh inss)

Agree-nil : Agree []
unfolding has
Agree-nil g k h = ground arith

-- Where every instance that is not skipped for its name has a default configuration that parses,
-- all groups of a configuration that NewParser accepts have the same instances as the default group.
pub new_parser-Agree :
    (compile_posix : Bytes → Option (Bytes → Bytes)) (unmarshal_config : Bytes → Option RouteConfig)
    (unmarshal : Bytes → Option Access) (jscfg : Bytes) (cfg : RouteConfig) (p : Parser)
    → unmarshal_config jscfg ≡ some cfg
    → Unique cfg.instances
    → DefaultsParse unmarshal cfg.instances
    → new_parser compile_posix unmarshal_config unmarshal jscfg ≡ loaded p
    → Agree p.db_ins
unfolding new_parser load_parser and_then or_unmarshal_error
new_parser-Agree compile_posix unmarshal_config unmarshal jscfg cfg p c u d h =
    load_instances-Agree unmarshal cfg.instances [] p.db_ins u d (all-Fresh cfg.instances) Agree-nil
      (ground (arith, h, c))

name_has_no_dash : (c : ℕ) → is_name_char c ≡ true → c ≢ b'-'
unfolding is_name_char is_alpha
name_has_no_dash c h e = ground arith

check_chars-Lacks : (s : Bytes) → check_chars s ≡ none → Lacks b'-' s
unfolding check_chars
check_chars-Lacks [] h = tt
check_chars-Lacks (c ∷ s) h =
    (ground (arith, name_has_no_dash c), check_chars-Lacks s (ground arith))

-- A name that is accepted holds no dash, so that the keys built from names can be told apart.
pub check_varname-Lacks : (s : Bytes) → check_varname s ≡ none → Lacks b'-' s
unfolding check_varname
check_varname-Lacks [] h = tt
check_varname-Lacks (c ∷ s) h = check_chars-Lacks (c ∷ s) (ground arith)

-- The fallback of GetConfig to the default group is never taken: a group without instances has the
-- empty configuration, whatever the default group has.
pub get_config-absent :
    (inst group : Bytes) (p : Parser)
    → has group p.db_ins ≡ false
    → get_config inst group p ≡ no_info
unfolding get_config config_in info_or_none lookup
get_config-absent inst group p h = ground (arith, lookup-absent group p.db_ins)
