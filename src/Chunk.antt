-- ===== src/Chunk.antt =====
-- core/src/chunk_engine.ts: workloads are cut into chunks and put together again. `Matrix` and
-- `Image` have the two engines of row-wise chunks, `Rows` what both share.
pub mod Buffer
pub mod Matrix
pub mod Image
pub mod Video
mod Examples
