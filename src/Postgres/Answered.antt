-- ===== src/Postgres/Answered.antt =====
-- A server that answers every round trip, and replicas that have caught up.
use mini_twitter.Common.{ℕ, suc, ◌≡◌, refl, ap, Result, St}
use mini_twitter.Schema.{Tables}
use mini_twitter.Db.{Pool, primary, replica, reader}
use mini_twitter.Postgres.{Server, Cluster, answered, exec, query, shown}

abbrev pub IsUp : Server → Type 0
IsUp server = (n : ℕ) → server.verdict n ≡ answered

abbrev pub IsCurrent : Cluster → Type 0
IsCurrent c = (i : ℕ) → c.copy i ≡ c.tables

pub shown-IsCurrent : (c : Cluster) (p : Pool) → IsCurrent c → shown p c ≡ c.tables
shown-IsCurrent c primary v = refl
shown-IsCurrent c (replica i) v = v i

-- Every replica catches up.
abbrev pub caught_up : Cluster → Cluster
caught_up c = record c { copy = λ i. c.tables }

-- After a query: the round trip is counted, and the next pool is another one.
abbrev pub queried : Cluster → Cluster
queried c = record c { db = (reader c.db).1; trips = suc c.trips }

pub query_answered :
    {A : Type 0} (server : Server) (sel : Tables → Result A) (c : Cluster)
    → IsUp server
    → IsCurrent c
    → query server sel c ≡ (sel c.tables, queried c)
query_answered server sel c up v =
    rw (up c.trips) (ap (λ t. (sel t, queried c)) (shown-IsCurrent c (reader c.db).0 v))

-- A statement of its own.
pub exec_answered :
    {A : Type 0} (server : Server) (stmt : St Tables A) (c : Cluster) {r : Result A} {t : Tables}
    → IsUp server
    → stmt c.tables ≡ (r, t)
    → exec server stmt c ≡ (r, record c { tables = t; trips = suc c.trips })
exec_answered server stmt c up e =
    rw (up c.trips) (ap (λ x. (x.0, record c { tables = x.1; trips = suc c.trips })) e)
