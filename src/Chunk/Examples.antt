-- ===== src/Chunk/Examples.antt =====
-- Tests of the matrix chunks on a product of three rows in two chunks, and each theorem about them
-- applied there.
use swarm_x.Common.{◌*◌, ◌/◌, ◌≡◌, refl, List, [], ◌∷◌, ◌++◌, min, ok, All}
use mathlib.Core.List.Perm
use swarm_x.Chunk.Buffer.{Buffer, rows_slice}
use swarm_x.Chunk.Matrix.{
  MatrixChunkSpec, MatrixChunkResult, partition_matrix_multiply, assemble_matrix_chunks,
}
use swarm_x.Chunk.Matrix.Partition.{Tiles, slices, partition_matrix_multiply-Tiles}
use swarm_x.Chunk.Matrix.Answers.{answer}
use swarm_x.Chunk.Matrix.RoundTrip.{assemble-partition}

abbrev a_bytes : Buffer
a_bytes = 10 ∷ 11 ∷ 12 ∷ 13 ∷ 20 ∷ 21 ∷ 22 ∷ 23 ∷ 30 ∷ 31 ∷ 32 ∷ 33 ∷ []

abbrev b_bytes : Buffer
b_bytes = 1 ∷ 2 ∷ 3 ∷ 4 ∷ []

abbrev product : Buffer
product = 50 ∷ 51 ∷ 52 ∷ 53 ∷ 60 ∷ 61 ∷ 62 ∷ 63 ∷ 70 ∷ 71 ∷ 72 ∷ 73 ∷ []

abbrev memory : Buffer
memory = 9 ∷ 9 ∷ 9 ∷ 9 ∷ 9 ∷ 9 ∷ 9 ∷ 9 ∷ 9 ∷ 9 ∷ 9 ∷ 9 ∷ []

-- Rows 0 and 1, and row 2.
abbrev first_chunk : MatrixChunkSpec
first_chunk = record {
  metadata = record {
    parent_workload_id = 5;
    chunk_index = 0;
    total_chunks = 2;
    row_start = 0;
    row_end = 2;
    row_count = 2;
    m = 3;
    k = 1;
    n = 1;
    input_bytes = 12;
    output_bytes = 8;
  };
  payload = 10 ∷ 11 ∷ 12 ∷ 13 ∷ 20 ∷ 21 ∷ 22 ∷ 23 ∷ 1 ∷ 2 ∷ 3 ∷ 4 ∷ [];
}

abbrev second_chunk : MatrixChunkSpec
second_chunk = record {
  metadata = record {
    parent_workload_id = 5;
    chunk_index = 1;
    total_chunks = 2;
    row_start = 2;
    row_end = 3;
    row_count = 1;
    m = 3;
    k = 1;
    n = 1;
    input_bytes = 8;
    output_bytes = 4;
  };
  payload = 30 ∷ 31 ∷ 32 ∷ 33 ∷ 1 ∷ 2 ∷ 3 ∷ 4 ∷ [];
}

abbrev both : List MatrixChunkSpec
both = first_chunk ∷ second_chunk ∷ []

-- The answer for the second chunk comes first.
abbrev arrived : List MatrixChunkResult
arrived = answer 1 product second_chunk ∷ answer 1 product first_chunk ∷ []

partition_matrix_multiply-Tiles_example :
    Tiles (3 / min 2 3) 0 both 3
    × All
        (λ chunk.
          chunk.payload
          ≡ rows_slice (1 * 4) a_bytes chunk.metadata.row_start chunk.metadata.row_count ++ b_bytes)
        both
    × (slices (1 * 4) a_bytes both ≡ a_bytes)
unfolding partition_matrix_multiply
partition_matrix_multiply-Tiles_example =
    partition_matrix_multiply-Tiles 5 3 1 1 2 a_bytes b_bytes both refl

assemble-partition_example : assemble_matrix_chunks 5 3 1 1 arrived memory ≡ ok product
unfolding partition_matrix_multiply
assemble-partition_example =
    assemble-partition 5 3 1 1 2 a_bytes b_bytes product memory both arrived refl refl refl
      (Perm.swap _ _ _)
