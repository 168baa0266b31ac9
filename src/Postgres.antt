-- ===== src/Postgres.antt =====
-- How the repositories reach Postgres through pgx: statements on the primary pool, queries on the
-- pool that `Reader` picks, and transactions. A statement's own meaning is given where it is issued.
pub mod Answered
use mini_twitter.Common.{ℕ, suc, Result, ok, err, Error, St}
use mini_twitter.Schema.{Uuid, Time, Tables}
use mini_twitter.Db.{Pool, primary, replica, Db, reader}

-- What becomes of one round trip to the server: it is done and answered; it is refused, so nothing
-- changes; or it is done and the answer is lost, so the caller sees an error.
pub data Verdict : Type 0 where
  answered : Verdict
  refused : Error → Verdict
  lost : Error → Verdict

-- What the program cannot choose: the fate of each round trip, and what the server generates in it,
-- gen_random_uuid() and NOW().
pub record Server : Type 0 where
  pub verdict : ℕ → Verdict
  pub new_id : ℕ → Uuid
  pub now : ℕ → Time

-- `db` is the state of pkg/db; each replica holds a copy of the tables, which may lag behind.
pub record Cluster : Type 0 where
  pub db : Db
  pub tables : Tables
  pub copy : ℕ → Tables
  pub trips : ℕ

abbrev pub settle : {A S : Type 0} → Verdict → (Result A × S) → S → Result A × S
settle answered after before = after
settle (refused e) after before = (err e, before)
settle (lost e) (r, s) before = (err e, s)

-- `Primary.Exec`, or `Primary.QueryRow`: one statement, committed on its own.
abbrev pub exec : {A : Type 0} → Server → St Tables A → St Cluster A
exec server stmt c =
    let (r, t) = stmt c.tables in
    settle (server.verdict c.trips) (r, record c { tables = t; trips = suc c.trips })
      (record c { trips = suc c.trips })

-- The tables that a pool shows.
abbrev pub shown : Pool → Cluster → Tables
shown primary c = c.tables
shown (replica i) c = c.copy i

-- `Reader().Query`: a query on the pool that `Reader` picks.
abbrev pub query : {A : Type 0} → Server → (Tables → Result A) → St Cluster A
query server select c =
    let (pool, db') = reader c.db in
    settle (server.verdict c.trips)
      (select (shown pool c), record c { db = db'; trips = suc c.trips })
      (record c { db = db'; trips = suc c.trips })

-- `Primary.Query`: a query on the primary pool.
abbrev pub query_primary : {A : Type 0} → Server → (Tables → Result A) → St Cluster A
query_primary server select c =
    settle (server.verdict c.trips) (select c.tables, record c { trips = suc c.trips })
      (record c { trips = suc c.trips })

-- An open transaction: what it has done so far, and what is committed.
pub record Tx : Type 0 where
  pub work : Tables
  pub committed : Tables
  pub trips : ℕ

-- `tx.Exec`.
abbrev pub tx_exec : {A : Type 0} → Server → St Tables A → St Tx A
tx_exec server stmt x =
    let (r, t) = stmt x.work in
    settle (server.verdict x.trips) (r, record x { work = t; trips = suc x.trips })
      (record x { trips = suc x.trips })

-- `tx.Commit`.
abbrev pub commit : Server → St Tx (Unit {0})
commit server x =
    settle (server.verdict x.trips) (ok tt, record x { committed = x.work; trips = suc x.trips })
      (record x { trips = suc x.trips })

-- What follows `Begin`: the body and the deferred `tx.Rollback`, which drops what is not committed.
abbrev pub in_transaction :
    {A : Type 0} → St Tx A → Result (Unit {0}) → Cluster → Result A × Cluster
in_transaction body (ok _) c =
    let (r, x) = body (record { work = c.tables; committed = c.tables; trips = c.trips }) in
    (r, record c { tables = x.committed; trips = x.trips })
in_transaction body (err e) c = (err e, c)

-- `Primary.Begin` and the transaction that it opens.
abbrev pub transaction : {A : Type 0} → Server → St Tx A → St Cluster A
transaction server body c =
    let (r, c') =
      settle {A = Unit} (server.verdict c.trips) (ok tt, record c { trips = suc c.trips })
        (record c { trips = suc c.trips }) in
    in_transaction body r c'
