-- ===== src/Chunk/Image/Partition.antt =====
-- The slices of `partitionImageFilter` cover the rows of the image once, in order, with their halos.
use swarm_x.Common.{
  ℕ, zero, suc, ◌+◌, ◌-◌, ◌*◌, ◌/◌, ◌%◌, ◌≤◌, ◌<◌, ◌≡◌, refl, sym, subst, ap, ◌∙◌, List, [], ◌∷◌,
  arith, length, take, drop, min, ok,
}
use native.Mathlib.Nat.{mul-sub, mul-le-mul_left}
use swarm_x.Task.{Ident, Text}
use swarm_x.Chunk.Buffer.{Buffer, subarray, rows_slice}
use swarm_x.Chunk.Matrix.{chunk_rows}
use swarm_x.Chunk.Matrix.Partition.{rows_before, rows_before-suc, rows_before_all, base_rows_pos}
use swarm_x.Chunk.Image.{ImageChunkSpec, image_chunks, partition_image_filter}

-- A slice for rows from `row` on, that is read from `radius` rows around them, as far as there are any.
pub record SliceOk (height radius stride base_rows : ℕ) (image : Buffer) (row : ℕ)
    (chunk : ImageChunkSpec) : Type 0 where
  pub starts : chunk.metadata.out_row_start ≡ row
  pub ends : chunk.metadata.out_row_end ≡ row + chunk.metadata.out_row_count
  pub even :
      (base_rows ≤ chunk.metadata.out_row_count) × (chunk.metadata.out_row_count ≤ base_rows + 1)
  pub not_empty : 0 < chunk.metadata.out_row_count
  pub in_starts : chunk.metadata.in_row_start ≡ row - radius
  pub in_ends : chunk.metadata.in_row_end ≡ min height (chunk.metadata.out_row_end + radius)
  pub in_count :
      chunk.metadata.in_row_start + chunk.metadata.in_row_count ≡ chunk.metadata.in_row_end
  pub top : chunk.metadata.in_row_start + chunk.metadata.top_halo ≡ row
  pub bottom : chunk.metadata.out_row_end + chunk.metadata.bottom_halo ≡ chunk.metadata.in_row_end
  pub content :
      chunk.payload
      ≡ rows_slice stride image chunk.metadata.in_row_start chunk.metadata.in_row_count

abbrev pub Slices : ℕ → ℕ → ℕ → ℕ → Buffer → ℕ → List ImageChunkSpec → ℕ → Type 0
Slices height radius stride base_rows image row [] last = row ≡ last
Slices height radius stride base_rows image row (chunk ∷ chunks) last =
    SliceOk height radius stride base_rows image row chunk
    × Slices height radius stride base_rows image (row + chunk.metadata.out_row_count) chunks last

sub_rows : (stride start end : ℕ) → end * stride - start * stride ≡ (end - start) * stride
sub_rows stride start end = omega (arith, mul-sub stride end start)

subarray-rows :
    (image : Buffer) (stride start end : ℕ)
    → subarray image (start * stride) (end * stride) ≡ rows_slice stride image start (end - start)
subarray-rows image stride start end =
    ap (λ size. take size (drop (start * stride) image)) (sub_rows stride start end)

rows_before_le :
    (base_rows remainder i j : ℕ)
    → i ≤ j
    → rows_before base_rows remainder i ≤ rows_before base_rows remainder j
rows_before_le base_rows remainder i j h =
    let more = mul-le-mul_left base_rows h in omega (arith, more)

module _ (parent : Ident) (width height channels : ℕ) (mode : Text) (radius actual : ℕ)
    (image : Buffer) where
  image_chunks-Slices :
      (rounds i row : ℕ)
      → 0 < height / actual
      → row ≡ rows_before (height / actual) (height % actual) i
      → rows_before (height / actual) (height % actual) (i + rounds) ≡ height
      → Slices height radius
          (width * channels)
          (height / actual)
          image
          row
          (image_chunks parent width height channels mode radius actual image rounds i row)
          height
  unfolding image_chunks
  image_chunks-Slices zero i row pos here all = ground (arith, here, all)
  image_chunks-Slices (suc rounds) i row pos here all =
      let base_rows = height / actual in
      let remainder = height % actual in
      let next : row + chunk_rows base_rows remainder i ≡ rows_before base_rows remainder (suc i) =
        ap (λ r. r + chunk_rows base_rows remainder i) here
        ∙ rows_before-suc base_rows remainder i in
      let below = rows_before_le base_rows remainder (suc i) (i + suc rounds) (omega arith) in
      (
        record {
          starts = refl;
          ends = refl;
          even = (ground arith, ground arith);
          not_empty = ground arith;
          in_starts = refl;
          in_ends = refl;
          in_count = ground (arith, next, below, all);
          top = omega arith;
          bottom = ground (arith, next, below, all);
          content = subarray-rows image (width * channels) _ _;
        },
        image_chunks-Slices rounds (suc i) _ pos next
            (ap (rows_before base_rows remainder) (omega arith) ∙ all),
      )

pub partition-eq-ok :
    (parent : Ident) (width height channels : ℕ) (mode : Text) (radius total_chunks : ℕ)
    (image : Buffer) (chunks : List ImageChunkSpec)
    → partition_image_filter parent width height channels mode radius total_chunks image ≡ ok chunks
    → (0 < height)
      × (length image ≡ width * height * channels)
      × (chunks
          ≡ image_chunks parent width height channels mode radius
              (min total_chunks height)
              image
              (min total_chunks height)
              0
              0)
unfolding partition_image_filter
partition-eq-ok parent width height channels mode radius total_chunks image chunks e =
    (ground arith, ground arith, ground arith)

-- When the partition into at least one part succeeds, its slices lie row behind row from 0 to the
-- height, each has at least one row, and any two differ by at most one row. The payload of a slice is
-- the rows of the image from `radius` above its first to `radius` below its last, cut at the edges of
-- the image, and the two halos say how many these are.
pub partition_image_filter-Slices :
    (parent : Ident) (width height channels : ℕ) (mode : Text) (radius total_chunks : ℕ)
    (image : Buffer) (chunks : List ImageChunkSpec)
    → 0 < total_chunks
    → partition_image_filter parent width height channels mode radius total_chunks image ≡ ok chunks
    → Slices height radius
        (width * channels)
        (height / min total_chunks height)
        image
        0
        chunks
        height
partition_image_filter-Slices parent width height channels mode radius total_chunks image chunks
      some_chunks e =
    let actual = min total_chunks height in
    let (some_rows, size, is) =
      partition-eq-ok parent width height channels mode radius total_chunks image chunks e in
    subst (λ l. Slices height radius (width * channels) (height / actual) image 0 l height) (sym is)
      (image_chunks-Slices parent width height channels mode radius actual image actual 0 0
        (base_rows_pos height total_chunks some_rows some_chunks) (omega arith)
        (ap (rows_before (height / actual) (height % actual)) (omega arith)
          ∙ rows_before_all height actual (omega arith)))
