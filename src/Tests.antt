-- ===== src/Tests.antt =====
-- The theorems at concrete inputs: the data in `Unary` and `Data`, the theorems of the committer in
-- `Commits`, runs of the scheduler in `Actors`, relay and consumer in `Outbox`, mails and gateway in
-- `Services`, friendship in `Friends`, the pet scanner in `Pets`, routes, caches and
-- sessions in `Access`, accounts in `Logins`, the others in `Parts`, single runs in `Runs`.
pub mod Unary
pub mod Data
pub mod Commits
pub mod Parts
pub mod Actors
pub mod Outbox
pub mod Services
pub mod Friends
pub mod Pets
pub mod Access
pub mod Sessions
pub mod Logins
pub mod Runs
