-- ===== src/Chunk/Matrix/Answers.antt =====
-- What workers answer for the chunks of a partition passes every test of the assembly.
use swarm_x.Common.{
  ℕ, zero, suc, ◌+◌, ◌*◌, ◌≤◌, ◌≡◌, refl, ap, ◌∙◌, List, [], ◌∷◌, ◌++◌, arith, length, map, drop,
  ok, ◌>>=◌, All, includes, false, length-take, length-drop,
}
use mathlib.Core.List.{Perm}
use mathlib.Core.List.Perm
use native.Mathlib.Nat.{mul-le-mul_right}
use swarm_x.Common.Sorting.{sort_by, Counts}
use swarm_x.Common.Sorting.Unique.{sort_by-of_perm, sort_by-Counts, Counts-Nodup}
use swarm_x.Task.{Ident}
use swarm_x.Chunk.Buffer.{Buffer, rows_slice}
use swarm_x.Chunk.Matrix.{
  MatrixChunkSpec, MatrixChunkResult, matrix_chunks, check_chunk, check_chunks,
}
use swarm_x.Chunk.Matrix.Assembly.{index_of, outputs, Fits}
use swarm_x.Chunk.Matrix.Partition.{Tiles, slices}

-- What a worker sends back for a chunk, where the product is the buffer `c` of rows of `n` numbers.
abbrev pub answer : ℕ → Buffer → MatrixChunkSpec → MatrixChunkResult
answer n c chunk = record {
  parent_workload_id = chunk.metadata.parent_workload_id;
  chunk_index = chunk.metadata.chunk_index;
  total_chunks = chunk.metadata.total_chunks;
  row_start = chunk.metadata.row_start;
  row_end = chunk.metadata.row_end;
  row_count = chunk.metadata.row_count;
  m = chunk.metadata.m;
  k = chunk.metadata.k;
  n = chunk.metadata.n;
  output_buffer = rows_slice (n * 4) c chunk.metadata.row_start chunk.metadata.row_count;
}

pub Tiles-le :
    (base_rows row : ℕ) (chunks : List MatrixChunkSpec) (last : ℕ)
    → Tiles base_rows row chunks last
    → row ≤ last
Tiles-le base_rows row [] last h = omega arith
Tiles-le base_rows row (chunk ∷ chunks) last (_, _, _, _, _, h) =
    omega (arith, Tiles-le base_rows (row + chunk.metadata.row_count) chunks last h)

length-rows_slice :
    (stride : ℕ) (b : Buffer) (row_start row_count rows : ℕ)
    → length b ≡ rows * stride
    → row_start + row_count ≤ rows
    → length (rows_slice stride b row_start row_count) ≡ row_count * stride
length-rows_slice stride b row_start row_count rows size fits =
    let room : (row_start + row_count) * stride ≤ rows * stride = mul-le-mul_right stride fits in
    omega (
      arith,
      length-take {0} (row_count * stride) (drop (row_start * stride) b),
      length-drop {0} (row_start * stride) b,
    )

pub outputs-answer :
    (n : ℕ) (c : Buffer) (chunks : List MatrixChunkSpec)
    → outputs (map (answer n c) chunks) ≡ slices (n * 4) c chunks
outputs-answer n c [] = refl
outputs-answer n c (chunk ∷ chunks) =
    ap (λ r. rows_slice (n * 4) c chunk.metadata.row_start chunk.metadata.row_count ++ r)
      (outputs-answer n c chunks)

module _ (parent : Ident) (m k n actual : ℕ) where
  -- A result that belongs to the workload.
  pub record Belongs (chunk : MatrixChunkResult) : Type 0 where
    pub parent_ok : chunk.parent_workload_id ≡ parent
    pub m_ok : chunk.m ≡ m
    pub k_ok : chunk.k ≡ k
    pub n_ok : chunk.n ≡ n
    pub total_ok : chunk.total_chunks ≡ actual

  pub matrix_chunks-Belongs :
      (a b c : Buffer) (rounds i row : ℕ)
      → All Belongs (map (answer n c) (matrix_chunks parent m k n actual a b rounds i row))
  unfolding matrix_chunks
  matrix_chunks-Belongs a b c zero i row = tt
  matrix_chunks-Belongs a b c (suc rounds) i row = (
    record { parent_ok = refl; m_ok = refl; k_ok = refl; n_ok = refl; total_ok = refl },
    matrix_chunks-Belongs a b c rounds (suc i) _,
  )

  pub matrix_chunks-Counts :
      (a b c : Buffer) (rounds i row : ℕ)
      → Counts index_of i (map (answer n c) (matrix_chunks parent m k n actual a b rounds i row))
  unfolding matrix_chunks
  matrix_chunks-Counts a b c zero i row = tt
  matrix_chunks-Counts a b c (suc rounds) i row =
      (refl, matrix_chunks-Counts a b c rounds (suc i) _)

  pub length-matrix_chunks :
      (a b c : Buffer) (rounds i row : ℕ)
      → length (map (answer n c) (matrix_chunks parent m k n actual a b rounds i row)) ≡ rounds
  unfolding matrix_chunks
  length-matrix_chunks a b c zero i row = refl
  length-matrix_chunks a b c (suc rounds) i row =
      ap suc (length-matrix_chunks a b c rounds (suc i) _)

  -- Results that belong to the workload, count up and fit pass all tests.
  pub check_chunks_pass :
      (chunks : List MatrixChunkResult) (i : ℕ) (seen : List ℕ) (row last : ℕ)
      → All Belongs chunks
      → Counts index_of i chunks
      → Fits n row chunks last
      → ((j : ℕ) → i ≤ j → includes seen j ≡ false)
      → check_chunks parent m k n i seen row chunks ≡ ok last
  unfolding check_chunks
  check_chunks_pass [] i seen row last good counts fits fresh = ground arith
  check_chunks_pass (chunk ∷ chunks) i seen row last (mine, good) (index, counts)
        (start, end, size, fits) fresh =
      let passed : check_chunk parent m k n i seen row chunk ≡ ok (row + chunk.row_count) =
        ground (arith, fresh chunk.chunk_index) in
      let rest =
        check_chunks_pass chunks (suc i) (chunk.chunk_index ∷ seen) (row + chunk.row_count) last
          good counts fits (λ j later. ground (arith, fresh j)) in
      ap
        (λ r.
          r >>= λ next. check_chunks parent m k n (suc i) (chunk.chunk_index ∷ seen) next chunks)
        passed
      ∙ rest

  -- The chunks of the partition, answered from one product, fit.
  pub answers-Fits :
      (c : Buffer) (base_rows row : ℕ) (chunks : List MatrixChunkSpec) (last : ℕ)
      → length c ≡ m * (n * 4)
      → last ≤ m
      → Tiles base_rows row chunks last
      → Fits n row (map (answer n c) chunks) last
  answers-Fits c base_rows row [] last size bound h = h
  answers-Fits c base_rows row (chunk ∷ chunks) last size bound (start, end, _, _, _, h) =
      let count = chunk.metadata.row_count in
      let below = Tiles-le base_rows (row + count) chunks last h in
      (
        start,
        end,
        length-rows_slice (n * 4) c chunk.metadata.row_start count m size (omega arith)
            ∙ omega arith,
        answers-Fits c base_rows (row + count) chunks last size bound h,
      )

  -- Whatever the order of arrival, the sorted results are the answers in the order of the chunks.
  pub sort_by-results :
      (a b c : Buffer) (results : List MatrixChunkResult)
      → Perm results (map (answer n c) (matrix_chunks parent m k n actual a b actual 0 0))
      → sort_by index_of results
        ≡ map (answer n c) (matrix_chunks parent m k n actual a b actual 0 0)
  sort_by-results a b c results p =
      let answers = map (answer n c) (matrix_chunks parent m k n actual a b actual 0 0) in
      let counts = matrix_chunks-Counts a b c actual 0 0 in
      sort_by-of_perm index_of (hlevel) p
        (Perm.nodup (Perm.map index_of (Perm.symm p)) (Counts-Nodup index_of 0 answers counts))
      ∙ sort_by-Counts index_of 0 answers counts
