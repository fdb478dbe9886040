-- ===== src/Chain.antt =====
-- api/app/chain: the mirror of the blockchain in the ledger, and the amounts of the token.
pub mod Units
pub mod Events
pub mod Watcher
pub mod Settlement
pub mod Reconcile
mod Tests
