-- ===== src/Store.antt =====
-- core/src/db/task_store.ts: the durable task queue. `Table` has the rows and the statements, `Ops`
-- the operations on one task, `Recovery` those that take tasks back, `Create` the insertion.
pub mod Table
pub mod Ops
pub mod Recovery
pub mod Create
pub mod Acyclic
pub mod Rows
pub mod Effects
pub mod Invariant
pub mod Preserved
pub mod Reclaim
pub mod System
pub mod Insert
pub mod Terminal
pub mod Assignment
pub mod Stolen
pub mod Dependencies
pub mod Recovered
pub mod Moves
pub mod Life
pub mod Reports
mod Examples
