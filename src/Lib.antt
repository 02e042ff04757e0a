-- ===== src/Lib.antt =====
-- The farm server: the authoritative core of a farming game.
--
-- Players plant, water, harvest and steal crops, and trade seeds and crops for coins. A farm actor
-- (server/internal/farm/actor) runs the commands of one farm one after the other and keeps a hot
-- copy of the farm. The committer (server/internal/farm/infrastructure/committer_mysql.go) is the
-- only writer: it runs each command in one MySQL transaction, which checks the command under the
-- farm's row lock, applies it to the snapshot, moves items and coins, and writes snapshot, receipt
-- and outbox event together. The task service pays rewards from the same wallets, and ids and
-- routes place every player on one shard.
--
-- The events of a shard leave its outbox through the relay of workersvr, which sends them to the
-- message bus; consumers project them, among them the one that credits a theft to a thief on
-- another shard, and the saga that makes players of two shards friends. Mails carry attachments
-- into the same wallets and inventory. A gateway shows each farm to its viewers and listens to the
-- channels of the farms that it shows. The pet scanner sends the command that harvests for a pet.
--
-- In front of the actors, controllers in etcd give each bucket of farms to one instance under a new
-- epoch, a read cache answers for farms and assets, a coalescer joins purchases and sales of one
-- window, and Redis keeps login sessions, their tokens and the connection of each player.
--
-- The files, with the code that each models:
--   Base          shared names, Boolean tests, maps and tables
--   Errors        server/pkg/errcode/errcode.go, and in Errors/Retry the loop `Value` of
--                 server/pkg/mysqlretry/retry.go, with `max_attempts` attempts
--   Farm          server/internal/farm/domain/farm.go and application/commit.go; Farm/Crops is
--                 infrastructure/crop_config.go, Farm/Growth lazy growth and watering, Farm/Apply
--                 `applyCmd`; the modules below Farm/Apply prove what it keeps
--   Store         the tables of migrations/mysql, Store/Tx a transaction over them, Store/Json
--                 `marshalSnapshot` and `unmarshalSnapshot`
--   Commit        committer_mysql.go: Commit/Rows and Commit/Assets its SQL helpers, Commit/Events the
--                 outbox event, Commit/FarmTx `commitFarmCommandOnce`, Commit/EconomyTx
--                 `commitEconomicTx`, Commit/Command `CommitFarmCommand`, Commit/Fence
--                 `AdvanceRouteEpoch`, Commit/History sequences of commands and
--                 claims
--   Actor         server/internal/farm/actor/runtime.go: `preValidate` and
--                 `applyPatchToSnapshot`, with Actor/Coherence on the hot copy; Actor/Scheduler is
--                 `accept`, `tryDispatch`, `complete` and `evictIdle`, and Actor/Scheduler/Reach
--                 the scheduler and its workers as a step relation; Actor/Execute is what a worker
--                 does, over ports that Actor/Memory (committer_mem.go) can fill
--   Task          server/internal/task/infrastructure/mysql_task_service.go
--   Shard         server/pkg/shard/id.go and router.go
--   Relay         server/internal/farm/infrastructure/outbox_relay.go; Relay/Workers is its
--                 statements and the committer's insert as steps, Relay/Safety what they keep,
--                 Relay/Refinement a scan as such steps, Relay/Claims and Relay/Drain what a scan
--                 takes and publishes
--   Consumer      event_consumer.go: `ProcessOnce` and the loop `run`, with Consumer/Delivery on
--                 offsets and Consumer/Backoff on `retryDelay`; Consumer/Steal is
--                 cross_shard_steal_projector.go, and Consumer/Steal/Once that it credits once
--   Mail          server/internal/mail/infrastructure/mysql_mail_service.go with the triggers of
--                 migrations/mysql/202608110001_mailbox_state.up.sql
--   Pet           server/internal/worker/pet_scanner.go; Pet/Lease is the worker that comes late;
--                 Pet/Ownership is server/internal/pet/infrastructure/mysql_pet_service.go, Pet/Switch
--                 its transactions with their retry, Pet/Purchase, Pet/Schedule and Pet/Rest what they
--                 promise beside the scanner and the committer
--   Social        server/internal/social/infrastructure/friend_edge_saga.go and
--                 friend_edge_compensator.go; Social/Shards is the saga over all shards as steps
--   Gateway       server/internal/gateway/ws/hub.go, and `Subscriber` of
--                 server/internal/farm/realtime/bus.go
--   Routing       server/internal/farm/routing/etcd.go: Routing/Epochs the controllers as steps over
--                 the keys of a bucket, Routing/Resolver the cache of gatesvr
--   ReadCache     server/internal/gateway/http/read_cache.go; ReadCache/Fresh is readers and writers
--                 as steps
--   Coalescer     server/internal/gateway/http/economy_coalescer.go; Coalescer/Charge is the quantity
--                 of a bucket, Coalescer/Window its requests and flushes as steps
--   Sessions      server/pkg/redisstore: refresh_store.go with `RefreshSession` and `Logout` of
--                 server/internal/account/infrastructure/mysql_account_service.go, Sessions/Spent on
--                 used tokens; Sessions/Owner is session_store.go with the start of `ServeHTTP` of
--                 server/internal/gateway/ws/handler.go, Sessions/Connection conn_store.go
--   Account       mysql_account_service.go and password.go of
--                 server/internal/account/infrastructure: the rows of an account, Account/Login the
--                 three ways to log in, Account/Calls and Account/Guests what each call keeps,
--                 Account/Device, Account/NewFarm and Account/Passwords what they promise
--   Tests         the theorems at concrete inputs
--
-- State and operations. `Db` holds the tables; a transaction is a function `Tx A` from the tables
-- to a result with new tables, or to an error, and `atomically` keeps the old tables after an
-- error. The rows of a key that the schema makes unique fail with MySQL's error 1062. Queries for
-- an earlier settlement run before the row locks are taken, so `commit_farm_seen` and
-- `commit_economic_seen` take the tables which that query saw as an argument of their own: any
-- other transaction may have committed in between. What befalls a transaction is a `Fault`: it fails
-- and changes nothing, or its answer is lost after the server has committed; `interrupted` runs a
-- transaction under one, so an error may hide a commit. The hooks of the hub run within its calls,
-- and an expiry in Redis is a step of its own.
--
-- Bounds. Numbers are natural numbers, with the range checks of the code and of the columns written
-- out; time is a number of nanoseconds from the least instant of Go's `time.Time`. Wrap-around is
-- written out where the code shifts or doubles (`id_value`, `past_half`). The retry runs on its
-- number of attempts. The attempts on one message of the bus run on fuel, for which the configured
-- `max_tries` is enough (`Consumer.Delivery.try_from-some`); nothing else needs fuel.
--
-- Parameters. `Env` holds the options of the committer and the functions from outside: MySQL's
-- UNHEX, `strconv.Itoa` and `strconv.ParseInt`, and `strings.TrimSpace`. The one law used is
-- `ReadsBack`: a number that was written is read back. The relay takes the publisher's answers and
-- the failures of statements as arguments, the consumer what its projector does, and the
-- projector of thefts `NormalizeV7` and what becomes of its transaction. `Ports` are the committer,
-- loader and fencer that an actor is given, `Texts` the functions on texts and Argon2 that accounts
-- use, and the answers of Redis and etcd that may fail are arguments of the steps.
--
-- Not modelled: metrics, logging, wiring, RPC and HTTP glue, the projectors for tasks, mails and
-- catalogue, the catalogue and economy-read services, the shutdown of the actor runtime, access
-- tokens and the lookups and facades of accounts, invitations and the lists of friends, the
-- listings of tasks and mails, and the frames and queues of the gateway. The surrogate ids and
-- time stamps of rows that no decision reads are left out.
pub mod Base
pub mod Errors
pub mod Farm
pub mod Store
pub mod Commit
pub mod Actor
pub mod Task
pub mod Shard
pub mod Relay
pub mod Consumer
pub mod Mail
pub mod Gateway
pub mod Social
pub mod Pet
pub mod Routing
pub mod ReadCache
pub mod Coalescer
pub mod Account
pub mod Sessions
pub mod Tests
