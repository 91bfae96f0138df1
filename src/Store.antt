-- ===== src/Store.antt =====
-- class Store of selfhost_models/scheduler_store.py. Each method is an action on the `World`: the
-- database and the files beside it.
pub mod Base
pub mod Control
pub mod Budget
pub mod Queue
pub mod Grants
pub mod Dispatch
pub mod Artifacts
pub mod Submission
pub mod Receipts
pub mod Collection
pub mod Fencing
pub mod Steps
pub mod Invariant
