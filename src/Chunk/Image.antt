-- ===== src/Chunk/Image.antt =====
-- core/src/chunk_engine.ts, `ImageChunkEngine`: an image is cut into slices of rows, and each slice
-- gets the rows around it that a filter of the given radius reads. Sizes are natural numbers; a size
-- that the code refuses for being 0 or less is 0. What a result carries besides is left out: the
-- optional `workerId` and `executionTimeMs`, which nothing reads.
pub mod Partition
pub mod Answers
pub mod RoundTrip
mod Examples
use swarm_x.Common.{
  ℕ, zero, suc, ◌+◌, ◌-◌, ◌*◌, ◌/◌, ◌%◌, min, Bool, not, ◌||◌, List, [], ◌∷◌, ◌==◌, length, Result,
  ok, err, ◌>>=◌, ◌>>◌, throw_if,
}
use swarm_x.Common.Sorting.{sort_by}
use swarm_x.Task.{Ident, Text}
use swarm_x.Chunk.Buffer.{Buffer, subarray, copy_into}
use swarm_x.Chunk.Matrix.{chunk_rows}

pub record ImageChunkMetadata : Type 0 where
  pub parent_workload_id : Ident
  pub chunk_index : ℕ
  pub total_chunks : ℕ
  pub out_row_start : ℕ
  pub out_row_end : ℕ
  pub out_row_count : ℕ
  pub in_row_start : ℕ
  pub in_row_end : ℕ
  pub in_row_count : ℕ
  pub top_halo : ℕ
  pub bottom_halo : ℕ
  pub width : ℕ
  pub height : ℕ
  pub channels : ℕ
  pub radius : ℕ
  pub mode : Text

pub record ImageChunkSpec : Type 0 where
  pub metadata : ImageChunkMetadata
  pub payload : Buffer

pub record ImageChunkResult : Type 0 where
  pub parent_workload_id : Ident
  pub chunk_index : ℕ
  pub total_chunks : ℕ
  pub out_row_start : ℕ
  pub out_row_end : ℕ
  pub out_row_count : ℕ
  pub in_row_start : ℕ
  pub in_row_end : ℕ
  pub in_row_count : ℕ
  pub top_halo : ℕ
  pub bottom_halo : ℕ
  pub width : ℕ
  pub height : ℕ
  pub channels : ℕ
  pub radius : ℕ
  pub output_buffer : Buffer

pub data ImageError : Type 0 where
  invalid_image invalid_image_length no_image_results : ImageError
  mismatched_image missing_image_chunk row_mismatch incorrect_image_length :
      (chunk_index : ℕ) → ImageError
  incomplete_image : (covered : ℕ) → ImageError

module _ (parent : Ident) (width height channels : ℕ) (mode : Text) (radius actual_chunks : ℕ)
    (image_buffer : Buffer) where
  -- The body of the loop of `partitionImageFilter`. Subtraction stops at 0, as `Math.max(0, …)` does.
  abbrev pub image_chunk : ℕ → ℕ → ℕ → ImageChunkSpec
  image_chunk i out_row_start out_row_count =
      let out_row_end = out_row_start + out_row_count in
      let in_row_start = out_row_start - radius in
      let in_row_end = min height (out_row_end + radius) in
      let bytes_per_row = width * channels in
      record {
        metadata = record {
          parent_workload_id = parent;
          chunk_index = i;
          total_chunks = actual_chunks;
          out_row_start = out_row_start;
          out_row_end = out_row_end;
          out_row_count = out_row_count;
          in_row_start = in_row_start;
          in_row_end = in_row_end;
          in_row_count = in_row_end - in_row_start;
          top_halo = out_row_start - in_row_start;
          bottom_halo = in_row_end - out_row_end;
          width = width;
          height = height;
          channels = channels;
          radius = radius;
          mode = mode;
        };
        payload = subarray image_buffer (in_row_start * bytes_per_row) (in_row_end * bytes_per_row);
      }

  -- The loop, by the rounds that are left.
  unfoldable pub image_chunks : ℕ → ℕ → ℕ → List ImageChunkSpec
  image_chunks zero i current_out_row = []
  image_chunks (suc rounds) i current_out_row =
      let out_row_count = chunk_rows (height / actual_chunks) (height % actual_chunks) i in
      image_chunk i current_out_row out_row_count
      ∷ image_chunks rounds (suc i) (current_out_row + out_row_count)

unfoldable pub partition_image_filter :
    Ident
    → (width height channels : ℕ) → (mode : Text) → (radius total_chunks : ℕ)
    → (image_buffer : Buffer) → Result ImageError (List ImageChunkSpec)
unfolding image_chunks
partition_image_filter parent width height channels mode radius total_chunks image_buffer = do
  throw_if (width == 0 || height == 0 || channels == 0) invalid_image
  throw_if (not (length image_buffer == width * height * channels)) invalid_image_length
  let actual_chunks = min total_chunks height
  ok (
      image_chunks parent width height channels mode radius actual_chunks image_buffer actual_chunks
        0 0)

module _ (parent : Ident) (width height channels : ℕ) where
  -- One round of the loop: what it checks, then the valid rows are copied. The state of the loop is
  -- `expectedNextRow` and the content of the final buffer.
  abbrev pub place_chunk : ℕ → ℕ → Buffer → ImageChunkResult → Result ImageError (ℕ × Buffer)
  place_chunk i expected_next_row final_buffer chunk = do
    let bytes_per_row = width * channels
    throw_if (not (chunk.parent_workload_id == parent)) (mismatched_image chunk.chunk_index)
    throw_if (not (chunk.chunk_index == i)) (missing_image_chunk chunk.chunk_index)
    throw_if (not (chunk.out_row_start == expected_next_row)) (row_mismatch chunk.chunk_index)
    throw_if (not (length chunk.output_buffer == chunk.in_row_count * bytes_per_row))
        (incorrect_image_length chunk.chunk_index)
    let valid_start = chunk.top_halo * bytes_per_row
    let valid_rows =
        subarray chunk.output_buffer valid_start (valid_start + chunk.out_row_count * bytes_per_row)
    ok (chunk.out_row_end, copy_into valid_rows final_buffer (chunk.out_row_start * bytes_per_row))

  unfoldable pub place_chunks :
      ℕ → ℕ → Buffer → List ImageChunkResult → Result ImageError (ℕ × Buffer)
  place_chunks i expected_next_row final_buffer [] = ok (expected_next_row, final_buffer)
  place_chunks i expected_next_row final_buffer (chunk ∷ chunks) =
      place_chunk i expected_next_row final_buffer chunk >>= λ (next_row, buffer).
      place_chunks (suc i) next_row buffer chunks

  -- `memory` is what `Buffer.allocUnsafe` finds in the bytes that it hands out.
  unfoldable pub assemble_image_chunks : List ImageChunkResult → Buffer → Result ImageError Buffer
  unfolding place_chunks
  assemble_image_chunks [] memory = err no_image_results
  assemble_image_chunks (first ∷ rest) memory = do
    let sorted = sort_by (λ (chunk : ImageChunkResult). chunk.chunk_index) (first ∷ rest)
    (covered, final_buffer) ← place_chunks 0 0 memory sorted
    throw_if (not (covered == height)) (incomplete_image covered)
    ok final_buffer
