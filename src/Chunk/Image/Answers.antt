-- ===== src/Chunk/Image/Answers.antt =====
-- What workers answer for the slices of an image is put in place row behind row.
use swarm_x.Common.{
  ℕ, zero, suc, ◌+◌, ◌*◌, ◌≤◌, ◌≡◌, refl, ap, ◌∙◌, List, [], ◌∷◌, ◌++◌, arith, length, take, drop,
  map, All, ok, ◌>>=◌, length-take, length-drop,
}
use native.Mathlib.Nat.{mul-le-mul_right}
use swarm_x.Common.Sorting.{Counts}
use swarm_x.Task.{Ident, Text}
use swarm_x.Chunk.Buffer.{
  take-take-drop, Buffer, subarray, copy_into, rows_slice, copy_into-append, drop-drop,
}
use swarm_x.Chunk.Image.{ImageChunkSpec, ImageChunkResult, image_chunks, place_chunk, place_chunks}
use swarm_x.Chunk.Image.Partition.{Slices}

-- What a worker sends back for a slice, where `work` says what it makes of the payload.
abbrev pub image_answer : (ImageChunkSpec → Buffer) → ImageChunkSpec → ImageChunkResult
image_answer work chunk = record {
  parent_workload_id = chunk.metadata.parent_workload_id;
  chunk_index = chunk.metadata.chunk_index;
  total_chunks = chunk.metadata.total_chunks;
  out_row_start = chunk.metadata.out_row_start;
  out_row_end = chunk.metadata.out_row_end;
  out_row_count = chunk.metadata.out_row_count;
  in_row_start = chunk.metadata.in_row_start;
  in_row_end = chunk.metadata.in_row_end;
  in_row_count = chunk.metadata.in_row_count;
  top_halo = chunk.metadata.top_halo;
  bottom_halo = chunk.metadata.bottom_halo;
  width = chunk.metadata.width;
  height = chunk.metadata.height;
  channels = chunk.metadata.channels;
  radius = chunk.metadata.radius;
  output_buffer = work chunk;
}

-- The worker gives as many rows as it got, and those between the halos are the slice's rows of the
-- filtered image `c`, whose rows have `stride` bytes.
pub record WorksOn (work : ImageChunkSpec → Buffer) (stride : ℕ) (c : Buffer)
    (chunk : ImageChunkSpec) : Type 0 where
  pub size_ok : length (work chunk) ≡ chunk.metadata.in_row_count * stride
  pub rows_ok :
      subarray
        (work chunk)
        (chunk.metadata.top_halo * stride)
        (chunk.metadata.top_halo * stride + chunk.metadata.out_row_count * stride)
      ≡ rows_slice stride c chunk.metadata.out_row_start chunk.metadata.out_row_count

-- The final buffer when the rows before `row` are in place.
abbrev pub filled_to : ℕ → Buffer → Buffer → ℕ → Buffer
filled_to stride c memory row = take (row * stride) c ++ drop (row * stride) memory

-- The next rows are put in place.
copy_into-rows :
    (stride : ℕ) (c memory : Buffer) (row count rows : ℕ)
    → length c ≡ rows * stride
    → length memory ≡ rows * stride
    → row + count ≤ rows
    → copy_into (rows_slice stride c row count) (filled_to stride c memory row) (row * stride)
      ≡ filled_to stride c memory (row + count)
copy_into-rows stride c memory row count rows size_c size_memory below =
    let room = mul-le-mul_right stride below in
    let size : length (rows_slice stride c row count) ≡ count * stride = omega (
      arith,
      length-take {0} (count * stride) (drop (row * stride) c),
      length-drop {0} (row * stride) c,
    ) in
    copy_into-append (take (row * stride) c) (rows_slice stride c row count)
      (drop (row * stride) memory) (row * stride) (omega (arith, length-take {0} (row * stride) c))
      (omega (arith, length-drop {0} (row * stride) memory))
    ∙ ap (λ r. r ++ drop (length (rows_slice stride c row count)) (drop (row * stride) memory))
        (take-take-drop (row * stride) (count * stride) c)
    ∙ ap (λ d. take (row * stride + count * stride) c ++ drop d (drop (row * stride) memory)) size
    ∙ ap (λ r. take (row * stride + count * stride) c ++ r)
        (drop-drop (count * stride) (row * stride) memory)
    ∙ ap (λ k. take k c ++ drop k memory) (omega arith)

abbrev pub index_of : ImageChunkResult → ℕ
index_of chunk = chunk.chunk_index

module _ (parent : Ident) (width height channels : ℕ) (mode : Text) (radius actual : ℕ)
    (image : Buffer) (work : ImageChunkSpec → Buffer) where
  pub image_chunks-parent :
      (rounds i row : ℕ)
      → All
          (λ chunk. chunk.metadata.parent_workload_id ≡ parent)
          (image_chunks parent width height channels mode radius actual image rounds i row)
  unfolding image_chunks
  image_chunks-parent zero i row = tt
  image_chunks-parent (suc rounds) i row = (refl, image_chunks-parent rounds (suc i) _)

  pub image_chunks-Counts :
      (rounds i row : ℕ)
      → Counts index_of i (
          map
            (image_answer work)
            (image_chunks parent width height channels mode radius actual image rounds i row))
  unfolding image_chunks
  image_chunks-Counts zero i row = tt
  image_chunks-Counts (suc rounds) i row = (refl, image_chunks-Counts rounds (suc i) _)

Slices-le :
    (height radius stride base_rows : ℕ) (image : Buffer) (row : ℕ) (chunks : List ImageChunkSpec)
    (last : ℕ)
    → Slices height radius stride base_rows image row chunks last
    → row ≤ last
Slices-le height radius stride base_rows image row [] last h = omega arith
Slices-le height radius stride base_rows image row (chunk ∷ chunks) last (_, h) = omega (
  arith,
  Slices-le height radius stride base_rows image (row + chunk.metadata.out_row_count) chunks last h,
)

-- A result that passes the tests of the loop.
place_chunk_passes :
    (parent : Ident) (width height channels i row : ℕ) (buffer : Buffer) (chunk : ImageChunkResult)
    → chunk.parent_workload_id ≡ parent
    → chunk.chunk_index ≡ i
    → chunk.out_row_start ≡ row
    → length chunk.output_buffer ≡ chunk.in_row_count * (width * channels)
    → place_chunk parent width height channels i row buffer chunk
      ≡ ok (
        chunk.out_row_end,
        copy_into
            (subarray chunk.output_buffer
              (chunk.top_halo * (width * channels))
              (chunk.top_halo * (width * channels) + chunk.out_row_count * (width * channels)))
            buffer
            (chunk.out_row_start * (width * channels)),
      )
place_chunk_passes parent width height channels i row buffer chunk mine index start size =
    ground arith

module _ (parent : Ident) (width height channels radius base_rows : ℕ) (image : Buffer)
    (work : ImageChunkSpec → Buffer) (c memory : Buffer)
    (size_c : length c ≡ height * (width * channels))
    (size_memory : length memory ≡ height * (width * channels)) where
  -- Answers for slices that lie row behind row are put in place one after the other.
  pub place_chunks-answers :
      (i row : ℕ) (chunks : List ImageChunkSpec) (last : ℕ)
      → Slices height radius (width * channels) base_rows image row chunks last
      → last ≤ height
      → All (λ chunk. chunk.metadata.parent_workload_id ≡ parent) chunks
      → Counts index_of i (map (image_answer work) chunks)
      → All (WorksOn work (width * channels) c) chunks
      → place_chunks parent width height channels i row
          (filled_to (width * channels) c memory row)
          (map (image_answer work) chunks)
        ≡ ok (last, filled_to (width * channels) c memory last)
  unfolding place_chunks
  place_chunks-answers i row [] last h bound mine counts works =
      ap (λ r. ok (r, filled_to (width * channels) c memory r)) h
  place_chunks-answers i row (chunk ∷ chunks) last (good, h) bound (own, mine) (index, counts)
        (right, works) =
      let stride = width * channels in
      let count = chunk.metadata.out_row_count in
      let below = Slices-le height radius stride base_rows image (row + count) chunks last h in
      let placed : copy_into (rows_slice stride c row count) (filled_to stride c memory row)
            (row * stride)
          ≡ filled_to stride c memory (row + count) =
        copy_into-rows stride c memory row count height size_c size_memory (omega arith) in
      let buffer = filled_to stride c memory row in
      let end = chunk.metadata.out_row_end in
      let passed =
        place_chunk_passes parent width height channels i row buffer (image_answer work chunk) own
          index good.starts right.size_ok
        ∙ ap (λ rows. ok (end, copy_into rows buffer (chunk.metadata.out_row_start * stride)))
            right.rows_ok
        ∙ ap (λ r. ok (end, copy_into (rows_slice stride c r count) buffer (r * stride)))
            good.starts
        ∙ ap (λ b. ok (end, b)) placed
        ∙ ap (λ e. ok (e, filled_to stride c memory (row + count))) good.ends in
      ap
        (λ r. r >>= λ (next_row, buffer).
          place_chunks parent width height channels (suc i) next_row buffer
            (map (image_answer work) chunks))
        passed
      ∙ place_chunks-answers (suc i) (row + count) chunks last h bound mine counts works
