-- ===== src/Chunk/Matrix/Partition.antt =====
-- The chunks of `partitionMatrixMultiply` cover the rows of A once, in order, and evenly.
use swarm_x.Common.{
  ℕ, zero, suc, ◌+◌, ◌*◌, ◌/◌, ◌%◌, ◌≤◌, ◌<◌, ◌≡◌, refl, sym, subst, ap, ◌∙◌, List, [], ◌∷◌, ◌++◌,
  append_assoc, append-nil, arith, length, take, drop, min, ok, All,
}
use native.Mathlib.Nat.{div-add-mod, mod-lt}
use swarm_x.Task.{Ident}
use swarm_x.Chunk.Buffer.{Buffer, subarray, drop-all, rows_slice, rows_slice-append}
use swarm_x.Chunk.Matrix.{MatrixChunkSpec, matrix_chunks, chunk_rows, partition_matrix_multiply}

-- Rows before chunk `i`.
abbrev pub rows_before : ℕ → ℕ → ℕ → ℕ
rows_before base_rows remainder i = base_rows * i + min i remainder

-- All rows are given out after as many chunks as divide them.
pub rows_before_all :
    (rows chunks : ℕ) → 0 < chunks → rows_before (rows / chunks) (rows % chunks) chunks ≡ rows
rows_before_all rows chunks pos = grind (arith, div-add-mod, mod-lt)

pub rows_before-suc :
    (base_rows remainder i : ℕ)
    → rows_before base_rows remainder i + chunk_rows base_rows remainder i
      ≡ rows_before base_rows remainder (suc i)
rows_before-suc base_rows remainder i = ground arith

-- The chunks lie row behind row, none is empty, and each has `base_rows` rows or one more.
abbrev pub Tiles : ℕ → ℕ → List MatrixChunkSpec → ℕ → Type 0
Tiles base_rows row [] last = row ≡ last
Tiles base_rows row (chunk ∷ chunks) last =
    (chunk.metadata.row_start ≡ row)
    × (chunk.metadata.row_end ≡ row + chunk.metadata.row_count)
    × (0 < chunk.metadata.row_count)
    × (base_rows ≤ chunk.metadata.row_count)
    × (chunk.metadata.row_count ≤ base_rows + 1)
    × Tiles base_rows (row + chunk.metadata.row_count) chunks last

-- The bytes that the loop takes are those of its rows.
subarray-rows :
    (a : Buffer) (k row count : ℕ)
    → subarray a (row * k * 4) (row * k * 4 + count * k * 4) ≡ rows_slice (k * 4) a row count
subarray-rows a k row count =
    ap (λ size. take size (drop (row * k * 4) a)) (omega arith)
    ∙ ap (λ offset. take (count * (k * 4)) (drop offset a)) (omega arith)

module _ (parent : Ident) (m k n actual : ℕ) (a b : Buffer) where
  matrix_chunks-Tiles :
      (rounds i : ℕ)
      → 0 < m / actual
      → Tiles
          (m / actual)
          (rows_before (m / actual) (m % actual) i)
          (matrix_chunks parent m k n actual a b rounds i (rows_before (m / actual) (m % actual) i))
          (rows_before (m / actual) (m % actual) (i + rounds))
  unfolding matrix_chunks
  matrix_chunks-Tiles zero i pos = omega arith
  matrix_chunks-Tiles (suc rounds) i pos =
      let base_rows = m / actual in
      let remainder = m % actual in
      (
        refl,
        refl,
        ground arith,
        ground arith,
        ground arith,
        subst
            (λ row.
              Tiles base_rows row (matrix_chunks parent m k n actual a b rounds (suc i) row)
                (rows_before base_rows remainder (i + suc rounds)))
            (sym (rows_before-suc base_rows remainder i))
            (subst
              (λ j.
                Tiles base_rows (rows_before base_rows remainder (suc i))
                  (matrix_chunks parent m k n actual a b rounds (suc i)
                    (rows_before base_rows remainder (suc i)))
                  (rows_before base_rows remainder j))
              (omega arith) (matrix_chunks-Tiles rounds (suc i) pos)),
      )

  matrix_chunks_all :
      0 < actual
      → 0 < m / actual
      → Tiles (m / actual) 0 (matrix_chunks parent m k n actual a b actual 0 0) m
  matrix_chunks_all some_chunks pos =
      let start : rows_before (m / actual) (m % actual) 0 ≡ 0 = omega arith in
      let end : rows_before (m / actual) (m % actual) (0 + actual) ≡ m =
        ap (rows_before (m / actual) (m % actual)) (omega arith)
        ∙ rows_before_all m actual some_chunks in
      subst (λ row. Tiles (m / actual) row (matrix_chunks parent m k n actual a b actual 0 row) m)
        start
        (subst
          (Tiles (m / actual) (rows_before (m / actual) (m % actual) 0) (
            matrix_chunks parent m k n actual a b actual 0
              (rows_before (m / actual) (m % actual) 0)))
          end (matrix_chunks-Tiles actual 0 pos))

  -- Each payload is the bytes of the chunk's rows of A, and then B.
  matrix_chunks-payload :
      (rounds i row : ℕ)
      → All
          (λ chunk.
            chunk.payload
            ≡ rows_slice (k * 4) a chunk.metadata.row_start chunk.metadata.row_count ++ b)
          (matrix_chunks parent m k n actual a b rounds i row)
  unfolding matrix_chunks
  matrix_chunks-payload zero i row = tt
  matrix_chunks-payload (suc rounds) i row = (
    ap (λ slice. slice ++ b) (subarray-rows a k row (chunk_rows (m / actual) (m % actual) i)),
    matrix_chunks-payload rounds (suc i) _,
  )

-- The rows of some buffer, for the chunks one after the other.
abbrev pub slices : ℕ → Buffer → List MatrixChunkSpec → Buffer
slices stride buffer [] = []
slices stride buffer (chunk ∷ chunks) =
    rows_slice stride buffer chunk.metadata.row_start chunk.metadata.row_count
    ++ slices stride buffer chunks

slices-append :
    (stride : ℕ) (buffer : Buffer) (base_rows row : ℕ) (chunks : List MatrixChunkSpec) (last : ℕ)
    → Tiles base_rows row chunks last
    → slices stride buffer chunks ++ drop (last * stride) buffer ≡ drop (row * stride) buffer
slices-append stride buffer base_rows row [] last h = ap (λ r. drop (r * stride) buffer) (sym h)
slices-append stride buffer base_rows row (chunk ∷ chunks) last
      (start, end, some_rows, low, high, h) =
    let count = chunk.metadata.row_count in
    append_assoc (rows_slice stride buffer chunk.metadata.row_start count)
      (slices stride buffer chunks) (drop (last * stride) buffer)
    ∙ ap (λ r. rows_slice stride buffer chunk.metadata.row_start count ++ r)
        (slices-append stride buffer base_rows (row + count) chunks last h)
    ∙ ap (λ r. rows_slice stride buffer r count ++ drop ((row + count) * stride) buffer) start
    ∙ rows_slice-append stride buffer row count

-- Chunks that tile all rows of a buffer hold its bytes, in order.
pub slices-all :
    (stride : ℕ) (buffer : Buffer) (base_rows : ℕ) (chunks : List MatrixChunkSpec) (rows : ℕ)
    → Tiles base_rows 0 chunks rows
    → length buffer ≡ rows * stride
    → slices stride buffer chunks ≡ buffer
slices-all stride buffer base_rows chunks rows h size =
    let start : 0 * stride ≡ 0 = omega arith in
    sym (append-nil (slices stride buffer chunks))
    ∙ ap (λ r. slices stride buffer chunks ++ r)
        (sym (drop-all (rows * stride) buffer (omega arith)))
    ∙ slices-append stride buffer base_rows 0 chunks rows h
    ∙ ap (λ o. drop o buffer) start

-- What the guards of the partition leave.
pub partition-eq-ok :
    (parent : Ident) (m k n total_chunks : ℕ) (a b : Buffer) (chunks : List MatrixChunkSpec)
    → partition_matrix_multiply parent m k n total_chunks a b ≡ ok chunks
    → (0 < m)
      × (0 < total_chunks)
      × (length a ≡ m * k * 4)
      × (chunks ≡ matrix_chunks parent m k n (min total_chunks m) a b (min total_chunks m) 0 0)
unfolding partition_matrix_multiply
partition-eq-ok parent m k n total_chunks a b chunks e =
    (ground arith, ground arith, ground arith, ground arith)

pub base_rows_pos : (m total_chunks : ℕ) → 0 < m → 0 < total_chunks → 0 < m / min total_chunks m
base_rows_pos m total_chunks h g = grind arith

-- When the partition succeeds, its chunks lie row behind row from 0 to M, each has at least one row,
-- and any two differ by at most one row; each payload is the rows of A that the chunk names and then
-- B; and the rows of A, one chunk after the other, are A.
pub partition_matrix_multiply-Tiles :
    (parent : Ident) (m k n total_chunks : ℕ) (a b : Buffer) (chunks : List MatrixChunkSpec)
    → partition_matrix_multiply parent m k n total_chunks a b ≡ ok chunks
    → let base_rows = m / min total_chunks m in
      Tiles base_rows 0 chunks m
      × All
          (λ chunk.
            chunk.payload
            ≡ rows_slice (k * 4) a chunk.metadata.row_start chunk.metadata.row_count ++ b)
          chunks
      × (slices (k * 4) a chunks ≡ a)
unfolding partition_matrix_multiply
partition_matrix_multiply-Tiles parent m k n total_chunks a b chunks e =
    let actual = min total_chunks m in
    let (some_rows, some_chunks, size, is) =
      partition-eq-ok parent m k n total_chunks a b chunks e in
    let pos = base_rows_pos m total_chunks some_rows some_chunks in
    let tiles : Tiles (m / actual) 0 chunks m =
      subst (λ l. Tiles (m / actual) 0 l m) (sym is)
        (matrix_chunks_all parent m k n actual a b (omega arith) pos) in
    (
      tiles,
      subst
          (All (λ chunk.
            chunk.payload
            ≡ rows_slice (k * 4) a chunk.metadata.row_start chunk.metadata.row_count ++ b))
          (sym is) (matrix_chunks-payload parent m k n actual a b actual 0 0),
      slices-all (k * 4) a (m / actual) chunks m tiles (omega arith),
    )
