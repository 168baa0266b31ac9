-- ===== src/Lib.antt =====
-- A model of the mini-twitter backend: three services behind a gateway, over Postgres and Redis, with
-- the theorems that make them correct.
--
-- The parts and how they meet. The gateway (internal/gateway) counts the requests of an address in
-- Redis and forwards them. The user service (internal/user) keeps accounts and follows in Postgres. The
-- tweet service (internal/tweet) keeps tweets and likes in Postgres; in Redis mode a new tweet becomes a
-- job for the fan-out worker, which asks the user service for the followers of the author page by page
-- and pushes the id of the tweet onto their timeline lists in Redis, and likes are counted in Redis and
-- in a pending table until the aggregator flushes them. The timeline service (internal/timeline)
-- reads the list in Redis, or else the follows and tweets in Postgres, and gets the tweets themselves
-- from the batch endpoint of the tweet service. All three check tokens by pkg/auth and reach Postgres
-- through pkg/db, which sends reads to replicas that are marked healthy.
--
-- The files.
--   Common             numbers, lists, integers, results and sorting that the parts share
--   Db                 pkg/db/postgres.go: Reader as `reader`, the health checker as `check_health`,
--                      New as `open_db`, Close as `close_db`
--   Config             pkg/config/config.go: the settings with their tags, and Load
--   Schema, Postgres   the tables of pkg/db/migrations, and the ways to reach them: one statement, one
--                      query on the pool of Reader, one transaction
--   User               Statements holds the SQL, Repository the methods of repository.go, Service and
--                      Handler those of service.go and handler.go, one function for each, by the
--                      method's name in lower case; the other children prove, Graph and
--                      Sequences about any sequence of follows, Profile about what is read back
--   Cache              pkg/cache/redis.go: the keys; Cache.Redis is the interface of Redis
--   Tweet              as User, with Fanout for fanout.go and Aggregator for likeaggregator.go. Under
--                      Fanout, Ending has the end of the loop; Pool is the pool of workers as a step relation: Account and Balance
--                      keep the account of what is pushed and owed, Delivered and Followers draw it
--                      up for an idle pool, Draining and Progress bound the turns and find the next
--                      one, Alone compares one worker with `fanout`, Stopped is about the end of the
--                      context. Eventual has the likes that go through Redis, in its child Turns the
--                      runs of service and aggregator together; Strong has sequences of likes that do
--                      not; Deletion is about who may delete, Partial about a like that is half done
--   Timeline           as User; Home composes it with the batch endpoint of the tweet service; Pages,
--                      Cursor and Paging prove how pages are ordered and follow each other; Found
--                      and Bounds bound what a page may hold
--   Http, Auth         the responses of the handlers; pkg/auth: `sign`, `parse`, `middleware`
--   Gateway            internal/gateway/middleware.go: `limit_request`; Routes holds the routes of the
--                      gateway and of the services, Mounts where cmd/*/main.go mount them and a
--                      request's way through the gateway; Quota proves
--   Startup            cmd/*/main.go: `main_user`, `main_tweet`, `main_timeline` and `main_gateway` as
--                      logs of actions, with New of pkg/cache/redis.go and NewHandler of the gateway;
--                      Order and Mains prove
--   Tests              stand-ins for the parameters, and the theorems at concrete inputs
--
-- How it is modelled. A method is a function from the state to a result and the state afterwards; what
-- was written before an error stays written. Each round trip to Postgres is answered, refused or done
-- with its answer lost, as a `Server` says, which also gives the ids and times that Postgres
-- generates. A replica holds a copy of the tables that may lag behind. Redis, google/uuid,
-- golang-jwt, bcrypt, strconv and the network between the services are parameters; Cache.Redis, Auth and
-- User.Service state what is asked of them. A uint64 wraps at 2^64; other Go integers and the INT
-- columns are taken as unbounded, and times are not before 1970. The body of a request is what the
-- JSON decoder yields; which fields of a struct JSON prints is left out, and so are nil and empty
-- slices, which are one list here. Strings are bytes where the code looks inside them. Column lengths are
-- checked where a text of any length can reach the column.
--
-- The workers. A step of the pool is a call of Enqueue, a job taken from the channel, the fetch of one
-- page, the pipeline for one page, the end of the context, or the return of a worker. Steps of
-- different workers come in any order, also between the fetch and the pipeline of a page; the commands of
-- one pipeline are one step. Once the context has ended, a fetch is an error, which ends the job, and a
-- pipeline is an error before it is sent, which is only logged; a call that is under way at that moment
-- counts as made before it or after it. A channel without a buffer hands a job to a worker that waits;
-- the service alone, which does not know the workers, drops it. In the theorems on whole runs the
-- follows do not change meanwhile.
--
-- Tokens. A token may lack an expiry and a beginning, and golang-jwt checks only those that are there.
--
-- Order. Postgres leaves the order of tweets of one created_at open. The statements take the order of the
-- table for them, in every query the same one, so two queries never differ in it here; the theorem on
-- consecutive pages asks for distinct times.
--
-- Fuel. The loop of the fan-out runs on fuel, one unit for each page; fuel times the page size of 500
-- above the number of followers is enough, and the theorems on it say so. Every other loop is
-- structural, and the pool of workers needs no fuel: its turns are bounded by a theorem.
--
-- Not modelled: the expiry of keys in Redis; what the end of the context does to a flush that is
-- under way; negative sizes of the pool in the settings; the settings of connection pools; the reverse
-- proxies of the gateway, and how chi matches a path; what envconfig makes of the text of a variable;
-- pkg/logger, which only builds a zerolog logger; the chi middlewares RequestID and Recoverer; the
-- deadline of Shutdown; terraform, scripts and experiments.
pub mod Common
pub mod Db
pub mod Schema
pub mod Postgres
pub mod User
pub mod Cache
pub mod Tweet
pub mod Timeline
pub mod Http
pub mod Auth
pub mod Gateway
pub mod Config
pub mod Startup
pub mod Tests
