-- ===== src/Dbrouter/Tests.antt =====
-- The router at concrete configurations.
use sutil.Prelude.Text.{Bytes, codes, text_eq, Lacks}
use sutil.Prelude.Maps.{lookup, has, store}
use sutil.Dbrouter.Express.{LookupCfg, add_instance, get_lookup}
use sutil.Dbrouter.Parser.{
  RouteConfig, DbInsCfg, Access, Parser, DbInsInfo, loaded, new_parser, check_varname, parse_db_ins,
}
use sutil.Dbrouter.Routing.{get_lookup-full}
use sutil.Dbrouter.Groups.{Agree}
use sutil.Dbrouter.Loading.{new_parser-Agree, Unique, DefaultsParse}
use sutil.Dbrouter.Changes.{DbConfigChange, compare_parsers, changed_groups}
use sutil.Dbrouter.Manager.{InstanceManager, build_key, handle_change}
use sutil.Dbrouter.Closing.{lookup-handle_change, compare_parsers-handle_change, named, DashFree}
use sutil.Prelude.{ℕ, ◌≡◌, refl, ◌&&◌, Option, none, some, [], ◌∷◌, arith, if◌then◌else◌, true}
use Prim.Native.String.{String}
use sutil.Dbrouter.Router.{
  Instancer, Mode, Router, sql, GotSession, session_nil, rejected_by_breaker,
}
use sutil.Breaker.{Breaker, key_of}
use sutil.Dbrouter.Rejecting.{
  RouterCall, Rejects, breaker_key, after_all, sql_call, route, after_all-rejected,
}

-- a pattern that stands for itself
abbrev literal : Bytes → Option (Bytes → Bytes)
literal e = some (λ table. e)

abbrev rule : String → LookupCfg
rule kind = record { db_instance = codes "orders"; match_type = codes kind; express = codes "t" }

get_lookup-full_example :
    get_lookup (codes "c") (codes "t") (add_instance literal (codes "c") (rule "full") []).0 ≡ (
      if text_eq (codes "c") (codes "c") && text_eq (codes "t") (codes "t")
      then some (rule "full")
      else get_lookup (codes "c") (codes "t") [])
unfolding text_eq lookup
get_lookup-full_example =
    get_lookup-full literal (codes "c") (codes "c") (codes "t") (rule "full") [] refl
      (unfold add_instance in refl)

abbrev db_a : DbInsCfg
db_a = record {
  dbtype = codes "mysql";
  dbname = codes "shop";
  dbcfg = codes "x";
  level = 0;
  ins = record { item_dbcfg = codes "y"; item_group = codes "test" } ∷ [];
}

abbrev one_instance : RouteConfig
one_instance = record { cluster = []; instances = (codes "orders", some db_a) ∷ [] }

abbrev decode_config : Bytes → Option RouteConfig
decode_config text = some one_instance

abbrev decode : Bytes → Option Access
decode cfg = some (record { addrs = cfg ∷ []; user = []; passwd = [] })

abbrev info_with : String → DbInsInfo
info_with cfg = record {
  instance_name = codes "orders";
  db_type = codes "mysql";
  db_name = codes "shop";
  db_level = 0;
  access = record { addrs = codes cfg ∷ []; user = []; passwd = [] };
}

abbrev two_groups : Parser
two_groups = record {
  db_cls = [];
  db_ins =
      ([], (codes "orders", info_with "x") ∷ [])
      ∷ (codes "test", (codes "orders", info_with "y") ∷ [])
      ∷ [];
}

two_groups_loaded : new_parser literal decode_config decode [] ≡ loaded two_groups
unfolding new_parser check_varname store text_eq lookup
two_groups_loaded = refl

parsed : parse_db_ins decode db_a (codes "orders") (codes "x") ≡ some (info_with "x")
unfolding parse_db_ins check_varname
parsed = refl

db_a_parses : DefaultsParse decode one_instance.instances
db_a_parses = ((λ h. λ e. ground (arith, parsed, e)), tt)

one_Unique : Unique one_instance.instances
unfolding Unique has
one_Unique = (refl, tt)

new_parser-Agree_example : Agree two_groups.db_ins
new_parser-Agree_example =
    new_parser-Agree literal decode_config decode [] one_instance two_groups refl one_Unique
      db_a_parses two_groups_loaded

orders_Lacks : Lacks b'-' (codes "orders")
orders_Lacks = ground arith

abbrev kept_orders : InstanceManager ℕ
kept_orders = record {
  instances = (build_key (codes "orders") (codes "test"), 7) ∷ [];
  groups = [] ∷ codes "test" ∷ [];
}

abbrev orders_gone : DbConfigChange
orders_gone = record {
  db_instance_change = (codes "test", codes "orders" ∷ []) ∷ [];
  db_groups = [] ∷ [];
}

lookup-handle_change_example :
    lookup
      (build_key (codes "orders") (codes "test"))
      (handle_change orders_gone kept_orders).instances
    ≡ (if named (codes "orders") (codes "test") orders_gone.db_instance_change
        then none
        else lookup (build_key (codes "orders") (codes "test")) kept_orders.instances)
lookup-handle_change_example =
    lookup-handle_change orders_gone (codes "orders") (codes "test") kept_orders
      ((orders_Lacks, tt), tt) orders_Lacks

abbrev no_config : Parser
no_config = record { db_cls = []; db_ins = [] }

changes_DashFree : DashFree (changed_groups two_groups.db_ins no_config.db_ins)
unfolding changed_groups lookup
changes_DashFree = ((orders_Lacks, tt), ((orders_Lacks, tt), tt))

compare_parsers-handle_change_example :
    lookup
      (build_key (codes "orders") (codes "test"))
      (handle_change (compare_parsers two_groups no_config) kept_orders).instances
    ≡ none
unfolding text_eq lookup
compare_parsers-handle_change_example =
    compare_parsers-handle_change two_groups no_config (codes "orders") (codes "test")
      ((codes "orders", info_with "y") ∷ []) (info_with "y") kept_orders changes_DashFree
      orders_Lacks (unfold lookup in refl) (unfold lookup in refl) (unfold lookup in tt)

-- an open database that answers every query, and a breaker that rejects
abbrev open_sql : Bytes → Bytes → Option (Instancer ℕ ℕ)
open_sql inst group = some (sql 1)

abbrev no_session : Mode → ℕ → GotSession ℕ
no_session consistency m = session_nil

abbrev tripped : Breaker
tripped = record { rejected = true; rejected_start = 100; count = 11 }

abbrev tripped_router : Router ℕ ℕ
tripped_router = record {
  instances = record { instances = []; groups = [] };
  report = [];
  breakers = (codes "c_t", tripped) ∷ [];
}

abbrev times_out : RouterCall ℕ ℕ ℕ
times_out =
    sql_call (codes "default") (codes "c") (codes "u" ∷ []) 5000
      (λ db tables. some (codes "timeout"))

abbrev on_tripped : RouterCall ℕ ℕ ℕ
on_tripped = sql_call (codes "default") (codes "c") (codes "t" ∷ []) 5000 (λ db tables. none)

tripped_Rejects : Rejects (codes "c_t") tripped_router.breakers
unfolding lookup text_eq
tripped_Rejects = (tripped, refl, refl)

on_tripped_key : breaker_key on_tripped ≡ some (codes "c_t")
unfolding breaker_key key_of
on_tripped_key = refl

after_all-rejected_example :
    let after =
      after_all open_sql
        (λ s. s)
        (λ s. s)
        no_session
        []
        (times_out ∷ times_out ∷ [])
        tripped_router in
    route open_sql (λ s. s) (λ s. s) no_session [] on_tripped after ≡ (after, rejected_by_breaker)
after_all-rejected_example =
    after_all-rejected open_sql (λ s. s) (λ s. s) no_session [] (codes "c_t")
      (times_out ∷ times_out ∷ []) on_tripped tripped_router tripped_Rejects on_tripped_key
