-- ===== src/Dbrouter/Rejecting.antt =====
-- dbrouter/dbrouter.go over dbrouter/breaker.go: the calls of a router on a table whose breaker
-- rejects.
use sutil.Prelude.{
  ℕ, Bool, Option, none, some, List, [], ◌∷◌, ◌≡◌, true, refl, ◌∙◌, inl, inr, false, arith,
  Bool-cases, if◌then◌else◌,
}
use sutil.Breaker.{
  Breaker, entry, stat_breaker, key_of, add_count, breaker_or_new, counts, lets_pass,
}
use sutil.Prelude.Text.{Bytes, text_eq, text_eq_iff}
use sutil.Prelude.Maps.{Dict, lookup, lookup-store}
use sutil.Dbrouter.Router.{
  Mode, Instancer, GotSession, sql_exec, Router, orm_exec, Outcome, mongo_exec, query_on,
  exec_first, queried_with, prepare, rejected_by_breaker,
}
use sutil.Dbrouter.Express.{DbCluster}

-- the calls of a router, each with the group of its context and the time that its query takes
pub data RouterCall (Db : Type 0) (GormDb : Type 0) (Session : Type 0) : Type 0 where
  sql_call :
      Bytes
      → Bytes
      → List Bytes
      → ℕ
      → (Db → List Bytes → Option Bytes)
      → RouterCall Db GormDb Session
  orm_call :
      Bytes
      → Bytes
      → List Bytes
      → ℕ
      → (GormDb → List Bytes → Option Bytes)
      → RouterCall Db GormDb Session
  mongo_call :
      Bytes
      → Mode
      → Bytes
      → Bytes
      → ℕ
      → (Session → Bytes → Option Bytes)
      → RouterCall Db GormDb Session

module _ {Sql Mongo Db GormDb Session : Type 0}
    (factory : Bytes → Bytes → Option (Instancer Sql Mongo)) (get_db : Sql → Db)
    (get_gorm_db : Sql → GormDb) (get_session : Mode → Mongo → GotSession Session)
    (rules : DbCluster) where
  unfoldable pub route :
      RouterCall Db GormDb Session → Router Sql Mongo → Router Sql Mongo × Outcome
  unfolding sql_exec orm_exec mongo_exec
  route (sql_call group cluster tables elapse query) =
      sql_exec factory get_db rules group cluster tables elapse query
  route (orm_call group cluster tables elapse query) =
      orm_exec factory get_gorm_db rules group cluster tables elapse query
  route (mongo_call group consistency cluster table elapse query) =
      mongo_exec factory get_session rules group consistency cluster table elapse query

  -- the router behind calls in turn
  unfoldable pub after_all :
      List (RouterCall Db GormDb Session) → Router Sql Mongo → Router Sql Mongo
  unfolding route
  after_all [] m = m
  after_all (x ∷ calls) m = let (after, _) = route x m in after_all calls after

abbrev pub on_first : Bytes → List Bytes → Option Bytes
on_first cluster [] = none
on_first cluster (table ∷ tables) = some (key_of cluster table)

-- the breaker's key of a call
unfoldable pub breaker_key :
    {Db GormDb Session : Type 0} → RouterCall Db GormDb Session → Option Bytes
breaker_key (sql_call group cluster tables elapse query) = on_first cluster tables
breaker_key (orm_call group cluster tables elapse query) = on_first cluster tables
breaker_key (mongo_call group consistency cluster table elapse query) = some (key_of cluster table)

abbrev pub Rejects : Bytes → Dict Breaker → Type 0
Rejects key bm = (b : Breaker) × (lookup key bm ≡ some b) × (b.rejected ≡ true)

stat_breaker-Rejects :
    (key cluster table : Bytes) (err : Option Bytes) (bm : Dict Breaker)
    → Rejects key bm
    → Rejects key (stat_breaker cluster table err bm)
unfolding stat_breaker add_count breaker_or_new
stat_breaker-Rejects key cluster table none bm h = h
stat_breaker-Rejects key cluster table (some e) bm (b, l, r) = elim (Bool-cases (counts e)) [
  | inl q ↦ rw q (elim (Bool-cases (text_eq (key_of cluster table) key)) [
    | inl k ↦ (
      add_count b,
      ground (
        arith,
        lookup-store (key_of cluster table) key
            (add_count (breaker_or_new (lookup (key_of cluster table) bm))) bm,
        k,
        l,
        text_eq_iff (key_of cluster table) key,
      ),
      r,
    )
    | inr k ↦ (
      b,
      lookup-store (key_of cluster table) key
            (add_count (breaker_or_new (lookup (key_of cluster table) bm))) bm
          ∙ rw k l,
      r,
    )
  ])
  | inr q ↦ rw q (b, l, r)
]

entry_of :
    (key cluster table : Bytes) (bm : Dict Breaker)
    → Rejects key bm
    → key_of cluster table ≡ key
    → entry cluster table bm ≡ false
unfolding entry lets_pass
entry_of key cluster table bm (b, l, r) k = rw (k, l, r) refl

module _ {Sql Mongo Db GormDb Session : Type 0}
    (factory : Bytes → Bytes → Option (Instancer Sql Mongo)) (get_db : Sql → Db)
    (get_gorm_db : Sql → GormDb) (get_session : Mode → Mongo → GotSession Session)
    (rules : DbCluster) where
  query_on-Rejects :
      {Handle : Type 0} (key cluster table : Bytes) (elapse : ℕ) (query : Handle → Option Bytes)
      (h : Option Handle) (m : Router Sql Mongo)
      → Rejects key m.breakers
      → Rejects key (query_on factory cluster table elapse query h m).0.breakers
  unfolding query_on queried_with
  query_on-Rejects key cluster table elapse query none m r = r
  query_on-Rejects key cluster table elapse query (some h) m r =
      stat_breaker-Rejects key cluster table (query h) m.breakers r

  guarded-Rejects :
      (key : Bytes) (passes : Bool) (ran : Router Sql Mongo × Outcome) (m : Router Sql Mongo)
      → Rejects key ran.0.breakers
      → Rejects key m.breakers
      → Rejects key (if passes then ran else (m, rejected_by_breaker)).0.breakers
  guarded-Rejects key true ran m q r = q
  guarded-Rejects key false ran m q r = r

  exec_first-Rejects :
      {Handle : Type 0} (key : Bytes) (handle_of : Sql → Handle) (group cluster table : Bytes)
      (elapse : ℕ) (query : Handle → Option Bytes) (m : Router Sql Mongo)
      → Rejects key m.breakers
      → Rejects key
          (exec_first factory handle_of rules group cluster table elapse query m).0.breakers
  unfolding exec_first prepare
  exec_first-Rejects key handle_of group cluster table elapse query m r =
      guarded-Rejects key (entry cluster table m.breakers) _ m
        (query_on-Rejects key cluster table elapse query _
          (prepare factory rules group cluster table m).0 r)
        r

  mongo_exec-Rejects :
      (key group : Bytes) (consistency : Mode) (cluster table : Bytes) (elapse : ℕ)
      (query : Session → Bytes → Option Bytes) (m : Router Sql Mongo)
      → Rejects key m.breakers
      → Rejects key
          (mongo_exec factory get_session rules group consistency cluster table elapse query
            m).0.breakers
  unfolding mongo_exec prepare
  mongo_exec-Rejects key group consistency cluster table elapse query m r =
      guarded-Rejects key (entry cluster table m.breakers) _ m
        (query_on-Rejects key cluster table elapse (λ s. query s table) _
          (prepare factory rules group cluster table m).0 r)
        r

  route-Rejects :
      (key : Bytes) (x : RouterCall Db GormDb Session) (m : Router Sql Mongo)
      → Rejects key m.breakers
      → Rejects key (route factory get_db get_gorm_db get_session rules x m).0.breakers
  unfolding route sql_exec orm_exec
  route-Rejects key (sql_call group cluster [] elapse query) m r = r
  route-Rejects key (sql_call group cluster (table ∷ tables) elapse query) m r =
      exec_first-Rejects key get_db group cluster table elapse (λ db. query db (table ∷ tables)) m r
  route-Rejects key (orm_call group cluster [] elapse query) m r = r
  route-Rejects key (orm_call group cluster (table ∷ tables) elapse query) m r =
      exec_first-Rejects key get_gorm_db group cluster table elapse
        (λ db. query db (table ∷ tables)) m r
  route-Rejects key (mongo_call group consistency cluster table elapse query) m r =
      mongo_exec-Rejects key group consistency cluster table elapse query m r

  after_all-Rejects :
      (key : Bytes) (calls : List (RouterCall Db GormDb Session)) (m : Router Sql Mongo)
      → Rejects key m.breakers
      → Rejects key (after_all factory get_db get_gorm_db get_session rules calls m).breakers
  unfolding after_all
  after_all-Rejects key [] m r = r
  after_all-Rejects key (x ∷ calls) m r =
      after_all-Rejects key calls (route factory get_db get_gorm_db get_session rules x m).0
        (route-Rejects key x m r)

  route_rejected :
      (key : Bytes) (x : RouterCall Db GormDb Session) (m : Router Sql Mongo)
      → Rejects key m.breakers
      → breaker_key x ≡ some key
      → route factory get_db get_gorm_db get_session rules x m ≡ (m, rejected_by_breaker)
  unfolding route sql_exec orm_exec mongo_exec exec_first breaker_key
  route_rejected key (sql_call group cluster [] elapse query) m r k = absurd (ground (arith, k))
  route_rejected key (sql_call group cluster (table ∷ tables) elapse query) m r k =
      rw (entry_of key cluster table m.breakers r (ground (arith, k))) refl
  route_rejected key (orm_call group cluster [] elapse query) m r k = absurd (ground (arith, k))
  route_rejected key (orm_call group cluster (table ∷ tables) elapse query) m r k =
      rw (entry_of key cluster table m.breakers r (ground (arith, k))) refl
  route_rejected key (mongo_call group consistency cluster table elapse query) m r k =
      rw (entry_of key cluster table m.breakers r (ground (arith, k))) refl

  -- Once the breaker of a table rejects, every later call of the router on that table, through SQL,
  -- the ORM or Mongo, is refused without a query and without a change of the router, whatever calls
  -- on this and other tables come between, as long as no ticker of the breaker fires.
  pub after_all-rejected :
      (key : Bytes) (calls : List (RouterCall Db GormDb Session)) (x : RouterCall Db GormDb Session)
      (m : Router Sql Mongo)
      → Rejects key m.breakers
      → breaker_key x ≡ some key
      → let after = after_all factory get_db get_gorm_db get_session rules calls m in
        route factory get_db get_gorm_db get_session rules x after ≡ (after, rejected_by_breaker)
  after_all-rejected key calls x m r k =
      route_rejected key x (after_all factory get_db get_gorm_db get_session rules calls m)
        (after_all-Rejects key calls m r) k
