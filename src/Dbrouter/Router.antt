-- ===== src/Dbrouter/Router.antt =====
-- dbrouter/dbrouter.go: the router, which puts the rules, the instances, the breakers and the
-- counts of queries together. Opening a database is a parameter, and so is what its handles are; a
-- query is a function from the handle and the tables to its error, if any, and the time it takes is
-- an input.
use sutil.Prelude.{ℕ, Option, none, some, List, [], ◌∷◌, if◌then◌else◌}
use sutil.Dbrouter.Manager.{InstanceManager, get}
use sutil.Dbrouter.Express.{DbCluster, get_instance}
use sutil.Breaker.{Breaker, entry, stat_breaker}
use sutil.Stat.{QueryStat, inc_query}
use sutil.Prelude.Text.{Bytes}
use sutil.Prelude.Maps.{Dict}

pub data Instancer (Sql : Type 0) (Mongo : Type 0) : Type 0 where
  sql : Sql → Instancer Sql Mongo
  mongo : Mongo → Instancer Sql Mongo

pub data Mode : Type 0 where
  eventual : Mode
  monotonic : Mode
  strong : Mode

-- `getSession`: a session, which may be nil, or an error
pub data GotSession (Session : Type 0) : Type 0 where
  session : Session → GotSession Session
  session_nil : GotSession Session
  session_error : GotSession Session

pub record Router (Sql : Type 0) (Mongo : Type 0) : Type 0 where
  pub instances : InstanceManager (Instancer Sql Mongo)
  pub report : Dict QueryStat
  pub breakers : Dict Breaker

-- what a call comes to; behind the query, its error
pub data Outcome : Type 0 where
  tables_empty : Outcome
  rejected_by_breaker : Outcome
  not_prepared : Outcome
  queried : Option Bytes → Outcome

unfoldable pub session_of : {Session : Type 0} → GotSession Session → Option Session
session_of (session s) = some s
session_of session_nil = none
session_of session_error = none

module _ {Sql Mongo Handle : Type 0} where
  -- the instance of a table, by its type
  unfoldable pub sql_handle : (Sql → Handle) → Option (Instancer Sql Mongo) → Option Handle
  sql_handle handle_of (some (sql s)) = some (handle_of s)
  sql_handle handle_of _ = none

  unfoldable pub mongo_handle :
      (Mongo → GotSession Handle) → Option (Instancer Sql Mongo) → Option Handle
  unfolding session_of
  mongo_handle handle_of (some (mongo m)) = session_of (handle_of m)
  mongo_handle handle_of _ = none

module _ {Sql Mongo : Type 0} (factory : Bytes → Bytes → Option (Instancer Sql Mongo)) where
  -- the instance that the rules name, from the manager
  unfoldable pub prepare :
      DbCluster
      → Bytes
      → Bytes
      → Bytes
      → Router Sql Mongo
      → Router Sql Mongo × Option (Instancer Sql Mongo)
  prepare rules group cluster table m =
      let (instances, i) = get factory (get_instance cluster table rules) group m.instances in
      (record m { instances = instances }, i)

  -- the query with its counts, and the breaker behind it
  unfoldable pub queried_with :
      Bytes → Bytes → ℕ → Option Bytes → Router Sql Mongo → Router Sql Mongo × Outcome
  queried_with cluster table elapse err m = (
    record m {
      report = inc_query cluster table elapse m.report;
      breakers = stat_breaker cluster table err m.breakers;
    },
    queried err,
  )

  unfoldable pub query_on :
      {Handle : Type 0}
      → Bytes
      → Bytes
      → ℕ
      → (Handle → Option Bytes)
      → Option Handle
      → Router Sql Mongo
      → Router Sql Mongo × Outcome
  unfolding queried_with
  query_on cluster table elapse query none m = (m, not_prepared)
  query_on cluster table elapse query (some h) m = queried_with cluster table elapse (query h) m

  -- `SqlExec`, with its `sqlPrepare`; the table of the breaker and of the rules is the first one
  unfoldable pub exec_first :
      {Handle : Type 0}
      → (Sql → Handle)
      → DbCluster
      → Bytes
      → Bytes
      → Bytes
      → ℕ
      → (Handle → Option Bytes)
      → Router Sql Mongo
      → Router Sql Mongo × Outcome
  unfolding prepare query_on sql_handle entry
  exec_first handle_of rules group cluster table elapse query m =
      let (prepared, i) = prepare rules group cluster table m in
      let ran = query_on cluster table elapse query (sql_handle handle_of i) prepared in
      if entry cluster table m.breakers then ran else (m, rejected_by_breaker)

  unfoldable pub sql_exec :
      {Db : Type 0}
      → (Sql → Db)
      → DbCluster
      → Bytes
      → Bytes
      → List Bytes
      → ℕ
      → (Db → List Bytes → Option Bytes)
      → Router Sql Mongo
      → Router Sql Mongo × Outcome
  unfolding exec_first
  sql_exec get_db rules group cluster [] elapse query m = (m, tables_empty)
  sql_exec get_db rules group cluster (table ∷ tables) elapse query m =
      exec_first get_db rules group cluster table elapse (λ db. query db (table ∷ tables)) m

  -- `OrmExec`, with its `ormPrepare`
  unfoldable pub orm_exec :
      {GormDb : Type 0}
      → (Sql → GormDb)
      → DbCluster
      → Bytes
      → Bytes
      → List Bytes
      → ℕ
      → (GormDb → List Bytes → Option Bytes)
      → Router Sql Mongo
      → Router Sql Mongo × Outcome
  unfolding exec_first
  orm_exec get_gorm_db rules group cluster [] elapse query m = (m, tables_empty)
  orm_exec get_gorm_db rules group cluster (table ∷ tables) elapse query m =
      exec_first get_gorm_db rules group cluster table elapse (λ db. query db (table ∷ tables)) m

  -- `mongoExec`, with its `mongoPrepare`; the query gets the session's collection of the table
  unfoldable pub mongo_exec :
      {Session : Type 0}
      → (Mode → Mongo → GotSession Session)
      → DbCluster
      → Bytes
      → Mode
      → Bytes
      → Bytes
      → ℕ
      → (Session → Bytes → Option Bytes)
      → Router Sql Mongo
      → Router Sql Mongo × Outcome
  unfolding prepare query_on mongo_handle entry
  mongo_exec get_session rules group consistency cluster table elapse query m =
      let (prepared, i) = prepare rules group cluster table m in
      let ran =
        query_on cluster table elapse (λ s. query s table)
          (mongo_handle (get_session consistency) i) prepared in
      if entry cluster table m.breakers then ran else (m, rejected_by_breaker)
