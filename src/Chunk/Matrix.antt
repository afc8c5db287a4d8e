-- ===== src/Chunk/Matrix.antt =====
-- core/src/chunk_engine.ts, `MatrixChunkEngine`: a product A[M x K] * B[K x N] of 4-byte numbers is cut
-- by rows of A. Sizes are natural numbers; a size that the code refuses for being 0 or less is 0. Left
-- out are `dtype`, which is a constant, and the optional `workerId` and `executionTimeMs` of a result,
-- which nothing reads.
pub mod Assembly
pub mod Partition
pub mod Answers
pub mod RoundTrip
use swarm_x.Common.{
  ◌++◌, ℕ, zero, suc, ◌+◌, ◌-◌, ◌*◌, ◌/◌, ◌%◌, min, Bool, true, false, not, ◌&&◌, ◌||◌, List, [],
  ◌∷◌, ◌==◌, ltb, if◌then◌else◌, length, includes, Result, ok, err, ◌>>=◌, ◌>>◌, throw_if, Option,
  none, some,
}
use swarm_x.Common.Sorting.{sort_by}
use swarm_x.Task.{Ident}
use swarm_x.Chunk.Buffer.{Buffer, subarray, copy_into}

pub record MatrixChunkMetadata : Type 0 where
  pub parent_workload_id : Ident
  pub chunk_index : ℕ
  pub total_chunks : ℕ
  pub row_start : ℕ
  pub row_end : ℕ
  pub row_count : ℕ
  pub m : ℕ
  pub k : ℕ
  pub n : ℕ
  pub input_bytes : ℕ
  pub output_bytes : ℕ

pub record MatrixChunkSpec : Type 0 where
  pub metadata : MatrixChunkMetadata
  pub payload : Buffer

pub record MatrixChunkResult : Type 0 where
  pub parent_workload_id : Ident
  pub chunk_index : ℕ
  pub total_chunks : ℕ
  pub row_start : ℕ
  pub row_end : ℕ
  pub row_count : ℕ
  pub m : ℕ
  pub k : ℕ
  pub n : ℕ
  pub output_buffer : Buffer

pub data MatrixError : Type 0 where
  invalid_dimensions invalid_total_chunks invalid_a_length invalid_b_length : MatrixError
  no_results : MatrixError
  incomplete_set : (expected received : ℕ) → MatrixError
  mismatched_parent dimension_mismatch duplicate_index missing_index :
      (chunk_index : ℕ) → MatrixError
  overlapping_rows gap_in_rows inconsistent_row_count incorrect_output_length :
      (chunk_index : ℕ) → MatrixError
  incomplete_coverage : (covered : ℕ) → MatrixError

-- `baseRows + (i < remainder ? 1 : 0)`: the earliest chunks have one row more.
abbrev pub chunk_rows : ℕ → ℕ → ℕ → ℕ
chunk_rows base_rows remainder i = base_rows + (if ltb i remainder then 1 else 0)

module _ (parent : Ident) (m k n actual_chunks : ℕ) (a_buffer b_buffer : Buffer) where
  -- The body of the loop of `partitionMatrixMultiply`, for chunk `i` of the given rows.
  abbrev pub matrix_chunk : ℕ → ℕ → ℕ → MatrixChunkSpec
  matrix_chunk i row_start row_count =
      let payload =
        subarray a_buffer (row_start * k * 4) (row_start * k * 4 + row_count * k * 4) ++ b_buffer in
      record {
        metadata = record {
          parent_workload_id = parent;
          chunk_index = i;
          total_chunks = actual_chunks;
          row_start = row_start;
          row_end = row_start + row_count;
          row_count = row_count;
          m = m;
          k = k;
          n = n;
          input_bytes = length payload;
          output_bytes = row_count * n * 4;
        };
        payload = payload;
      }

  -- The loop, by the rounds that are left: `i` and `currentRow` go on.
  unfoldable pub matrix_chunks : ℕ → ℕ → ℕ → List MatrixChunkSpec
  matrix_chunks zero i current_row = []
  matrix_chunks (suc rounds) i current_row =
      let row_count = chunk_rows (m / actual_chunks) (m % actual_chunks) i in
      matrix_chunk i current_row row_count ∷ matrix_chunks rounds (suc i) (current_row + row_count)

unfoldable pub partition_matrix_multiply :
    Ident
    → (m k n total_chunks : ℕ) → (a_buffer b_buffer : Buffer)
    → Result MatrixError (List MatrixChunkSpec)
unfolding matrix_chunks
partition_matrix_multiply parent m k n total_chunks a_buffer b_buffer = do
  throw_if (m == 0 || k == 0 || n == 0) invalid_dimensions
  throw_if (total_chunks == 0) invalid_total_chunks
  throw_if (not (length a_buffer == m * k * 4)) invalid_a_length
  throw_if (not (length b_buffer == k * n * 4)) invalid_b_length
  let actual_chunks = min total_chunks m
  ok (matrix_chunks parent m k n actual_chunks a_buffer b_buffer actual_chunks 0 0)

-- `chunk.outputBuffer.copy(finalBuffer, destOffset)` for each chunk of a product with `n` columns.
unfoldable pub copy_chunks : ℕ → List MatrixChunkResult → Buffer → Buffer
copy_chunks n [] buffer = buffer
copy_chunks n (chunk ∷ chunks) buffer =
    copy_chunks n chunks (copy_into chunk.output_buffer buffer (chunk.row_start * n * 4))

module _ (parent : Ident) (m k n : ℕ) where
  -- The tests of one round of the validation loop; it returns the next `expectedNextRow`. Where the
  -- code compares `rowCount` with `rowEnd - rowStart`, the sum is compared here: no number is negative.
  abbrev pub check_chunk : ℕ → List ℕ → ℕ → MatrixChunkResult → Result MatrixError ℕ
  check_chunk i seen_indices expected_next_row chunk = do
    throw_if (not (chunk.parent_workload_id == parent)) (mismatched_parent chunk.chunk_index)
    throw_if (not (chunk.m == m) || not (chunk.k == k) || not (chunk.n == n))
        (dimension_mismatch chunk.chunk_index)
    throw_if (includes seen_indices chunk.chunk_index) (duplicate_index chunk.chunk_index)
    throw_if (not (chunk.chunk_index == i)) (missing_index chunk.chunk_index)
    throw_if (ltb chunk.row_start expected_next_row) (overlapping_rows chunk.chunk_index)
    throw_if (ltb expected_next_row chunk.row_start) (gap_in_rows chunk.chunk_index)
    throw_if (not (chunk.row_end == chunk.row_start + chunk.row_count))
        (inconsistent_row_count chunk.chunk_index)
    throw_if (not (length chunk.output_buffer == chunk.row_count * n * 4))
        (incorrect_output_length chunk.chunk_index)
    ok chunk.row_end

  unfoldable pub check_chunks : ℕ → List ℕ → ℕ → List MatrixChunkResult → Result MatrixError ℕ
  check_chunks i seen_indices expected_next_row [] = ok expected_next_row
  check_chunks i seen_indices expected_next_row (chunk ∷ chunks) =
      check_chunk i seen_indices expected_next_row chunk >>= λ next_row.
      check_chunks (suc i) (chunk.chunk_index ∷ seen_indices) next_row chunks

  -- `memory` is what `Buffer.allocUnsafe(M * N * 4)` finds in the bytes that it hands out.
  unfoldable pub assemble_matrix_chunks :
      List MatrixChunkResult → Buffer → Result MatrixError Buffer
  unfolding check_chunks copy_chunks
  assemble_matrix_chunks [] memory = err no_results
  assemble_matrix_chunks (first ∷ rest) memory = do
    let results = first ∷ rest
    throw_if (not (length results == first.total_chunks))
        (incomplete_set first.total_chunks (length results))
    let sorted = sort_by (λ (chunk : MatrixChunkResult). chunk.chunk_index) results
    covered ← check_chunks 0 [] 0 sorted
    throw_if (not (covered == m)) (incomplete_coverage covered)
    ok (copy_chunks n sorted memory)
