-- ===== src/Graph.antt =====
-- The depth-first search for cycles that core/src/db/task_store.ts (`validateDagCycle`) and
-- core/src/dag_engine.ts (`detectCycles`) both contain. A node's parents are its dependencies.
pub mod Reach
pub mod Search
pub mod Complete
pub mod Sound
pub mod Fuel
