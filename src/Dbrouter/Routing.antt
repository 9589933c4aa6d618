-- ===== src/Dbrouter/Routing.antt =====
-- What a rule does to the routing of every table.
use sutil.Prelude.Text.{Bytes, codes, text_eq, text_eq_iff}
use sutil.Prelude.Maps.{Dict, lookup, store, lookup-store}
use sutil.Dbrouter.Express.{
  LookupCfg, DbExpress, ClsEntry, AddError, DbCluster, add_instance, add_entry, get_lookup,
  lookup_in, entry_or_new, match_regex, full_or_regex, add_full, add_regex, compiled, full_match,
}
use sutil.Prelude.{◌≡◌, refl, Option, none, some, arith, if◌then◌else◌, ◌&&◌, [], ◌∷◌}
use sutil.Sconf.Load.{or_else}

module _ (compile_posix : Bytes → Option (Bytes → Bytes)) where
  lookup_in-new :
      (table : Bytes) (o : Option ClsEntry)
      → lookup_in table (some (entry_or_new o)) ≡ lookup_in table o
  unfolding lookup_in entry_or_new full_or_regex match_regex lookup
  lookup_in-new table none = refl
  lookup_in-new table (some e) = refl

  -- what `get_lookup` finds once the entry of a cluster is replaced
  get_lookup-store :
      (c j table : Bytes) (e : ClsEntry) (m : DbCluster)
      → get_lookup j table (store c e m)
        ≡ (if text_eq c j then lookup_in table (some e) else get_lookup j table m)
  unfolding get_lookup
  get_lookup-store c j table e m = ground (arith, lookup-store c j e m)

  add_entry-refused :
      (l : LookupCfg) (e : ClsEntry) (err : AddError)
      → (add_entry compile_posix l e).1 ≡ some err
      → (add_entry compile_posix l e).0 ≡ e
  unfolding add_entry add_full add_regex compiled
  add_entry-refused l e err h = ground arith

  -- A rule that is refused changes the routing of no table of any cluster.
  pub get_lookup-refused :
      (cluster j table : Bytes) (l : LookupCfg) (m : DbCluster) (err : AddError)
      → (add_instance compile_posix cluster l m).1 ≡ some err
      → get_lookup j table (add_instance compile_posix cluster l m).0 ≡ get_lookup j table m
  unfolding add_instance get_lookup
  get_lookup-refused cluster j table l m err h = ground (
    arith,
    lookup-store cluster j (entry_or_new (lookup cluster m)) m,
    add_entry-refused l (entry_or_new (lookup cluster m)) err,
    lookup_in-new table (lookup cluster m),
    text_eq_iff cluster j,
  )

  match_regex-store :
      (table k : Bytes) (d : DbExpress) (regex : Dict DbExpress)
      → lookup k regex ≡ none
      → match_regex table (store k d regex)
        ≡ or_else
            (match_regex table regex)
            (if full_match d.reg table then some d.lookup_cfg else none)
  unfolding match_regex lookup store
  match_regex-store table k d [] h = refl
  match_regex-store table k d ((j, w) ∷ regex) h = ground (arith, match_regex-store table k d regex)

  add_entry-full :
      (table : Bytes) (l : LookupCfg) (e : ClsEntry)
      → l.match_type ≡ codes "full"
      → (add_entry compile_posix l e).1 ≡ none
      → lookup_in table (some (add_entry compile_posix l e).0)
        ≡ (if text_eq l.express table then some l else lookup_in table (some e))
  unfolding add_entry add_full lookup_in full_or_regex
  add_entry-full table l e full h = ground (
    arith,
    text_eq_iff l.match_type (codes "full"),
    lookup-store l.express table (record { lookup_cfg = l; reg = none }) e.full,
  )

  -- A rule of the kind `full` that is taken routes its table, of its cluster, to its instance; every
  -- other table is routed as before.
  pub get_lookup-full :
      (cluster j table : Bytes) (l : LookupCfg) (m : DbCluster)
      → l.match_type ≡ codes "full"
      → (add_instance compile_posix cluster l m).1 ≡ none
      → get_lookup j table (add_instance compile_posix cluster l m).0
        ≡ (if text_eq cluster j && text_eq l.express table then some l else get_lookup j table m)
  unfolding add_instance get_lookup
  get_lookup-full cluster j table l m full h = ground (
    arith,
    get_lookup-store cluster j table (add_entry compile_posix l (entry_or_new (lookup cluster m))).0
        m,
    add_entry-full table l (entry_or_new (lookup cluster m)),
    text_eq_iff cluster j,
    lookup_in-new table (lookup cluster m),
  )

  add_entry-regex :
      (table : Bytes) (l : LookupCfg) (e : ClsEntry) (f : Bytes → Bytes)
      → l.match_type ≡ codes "regex"
      → compile_posix l.express ≡ some f
      → (add_entry compile_posix l e).1 ≡ none
      → lookup_in table (some (add_entry compile_posix l e).0)
        ≡ or_else (lookup_in table (some e)) (if text_eq table (f table) then some l else none)
  unfolding add_entry add_regex compiled lookup_in full_or_regex full_match text_eq
  add_entry-regex table l e f regex g h = ground (
    arith,
    text_eq_iff l.match_type (codes "regex"),
    text_eq_iff l.match_type (codes "full"),
    match_regex-store table l.express (record { lookup_cfg = l; reg = some f }) e.regex,
  )

  -- A rule of the kind `regex` that is taken routes the tables of its cluster that its pattern
  -- matches as a whole and that no earlier rule routes, and no other table.
  pub get_lookup-regex :
      (cluster j table : Bytes) (l : LookupCfg) (m : DbCluster) (f : Bytes → Bytes)
      → l.match_type ≡ codes "regex"
      → compile_posix l.express ≡ some f
      → (add_instance compile_posix cluster l m).1 ≡ none
      → get_lookup j table (add_instance compile_posix cluster l m).0
        ≡ or_else
            (get_lookup j table m)
            (if text_eq cluster j && text_eq table (f table) then some l else none)
  unfolding add_instance get_lookup
  get_lookup-regex cluster j table l m f regex g h = ground (
    arith,
    get_lookup-store cluster j table (add_entry compile_posix l (entry_or_new (lookup cluster m))).0
        m,
    add_entry-regex table l (entry_or_new (lookup cluster m)) f,
    text_eq_iff cluster j,
    lookup_in-new table (lookup cluster m),
  )
