-- ===== src/Chunk/Image/Examples.antt =====
-- Tests of the image slices on three rows in two parts, and each theorem about them applied there.
use swarm_x.Common.{◌≡◌, refl, List, [], ◌∷◌, arith, ok}
use mathlib.Core.List.Perm
use swarm_x.Chunk.Buffer.{Buffer}
use swarm_x.Chunk.Image.{
  ImageChunkSpec, ImageChunkResult, partition_image_filter, assemble_image_chunks,
}
use swarm_x.Chunk.Image.Answers.{image_answer}
use swarm_x.Chunk.Image.RoundTrip.{assemble_image_chunks-partition_image_filter}

abbrev image : Buffer
image = 10 ∷ 20 ∷ 30 ∷ []

abbrev memory : Buffer
memory = 9 ∷ 9 ∷ 9 ∷ []

-- Rows 0 and 1 with row 2 below, and row 2 with row 1 above.
abbrev upper : ImageChunkSpec
upper = record {
  metadata = record {
    parent_workload_id = 5;
    chunk_index = 0;
    total_chunks = 2;
    out_row_start = 0;
    out_row_end = 2;
    out_row_count = 2;
    in_row_start = 0;
    in_row_end = 3;
    in_row_count = 3;
    top_halo = 0;
    bottom_halo = 1;
    width = 1;
    height = 3;
    channels = 1;
    radius = 1;
    mode = 4;
  };
  payload = 10 ∷ 20 ∷ 30 ∷ [];
}

abbrev lower : ImageChunkSpec
lower = record {
  metadata = record {
    parent_workload_id = 5;
    chunk_index = 1;
    total_chunks = 2;
    out_row_start = 2;
    out_row_end = 3;
    out_row_count = 1;
    in_row_start = 1;
    in_row_end = 3;
    in_row_count = 2;
    top_halo = 1;
    bottom_halo = 0;
    width = 1;
    height = 3;
    channels = 1;
    radius = 1;
    mode = 4;
  };
  payload = 20 ∷ 30 ∷ [];
}

-- The filter that changes nothing.
abbrev keep : ImageChunkSpec → Buffer
keep chunk = chunk.payload

abbrev arrived : List ImageChunkResult
arrived = image_answer keep lower ∷ image_answer keep upper ∷ []

assemble_image_chunks-partition_image_filter_example :
    assemble_image_chunks 5 1 3 1 arrived memory ≡ ok image
unfolding partition_image_filter
assemble_image_chunks-partition_image_filter_example =
    assemble_image_chunks-partition_image_filter 5 1 3 1 4 1 2 image image memory keep
      (upper ∷ lower ∷ []) arrived (omega arith) refl refl refl
      (record { size_ok = refl; rows_ok = refl }, (record { size_ok = refl; rows_ok = refl }, tt))
      (Perm.swap _ _ _)
