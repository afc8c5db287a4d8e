-- ===== src/Chunk/Matrix/Assembly.antt =====
-- What `assembleMatrixChunks` returns when it returns a buffer.
use swarm_x.Common.{
  ℕ, suc, ◌+◌, ◌*◌, ◌≤◌, ◌≡◌, refl, sym, subst, ap, ◌∙◌, List, [], ◌∷◌, ◌++◌, arith, length, drop,
  ok, ◌>>=◌, >>=-eq-ok, ◌>>◌, length-append, length-drop, append_assoc, ◌==◌, not, throw_if,
}
use swarm_x.Common.Sorting.{sort_by, Counts}
use swarm_x.Task.{Ident}
use swarm_x.Chunk.Buffer.{Buffer, copy_into-append}
use swarm_x.Chunk.Matrix.{
  incomplete_set, incomplete_coverage, MatrixChunkResult, check_chunk, check_chunks, copy_chunks,
  assemble_matrix_chunks,
}

-- The outputs one after the other.
abbrev pub outputs : List MatrixChunkResult → Buffer
outputs [] = []
outputs (chunk ∷ chunks) = chunk.output_buffer ++ outputs chunks

-- The chunks of a product with `n` columns lie row behind row, from one row to another.
abbrev pub Fits : ℕ → ℕ → List MatrixChunkResult → ℕ → Type 0
Fits n row [] last = row ≡ last
Fits n row (chunk ∷ chunks) last =
    (chunk.row_start ≡ row)
    × (chunk.row_end ≡ row + chunk.row_count)
    × (length chunk.output_buffer ≡ chunk.row_count * n * 4)
    × Fits n (row + chunk.row_count) chunks last

abbrev pub index_of : MatrixChunkResult → ℕ
index_of chunk = chunk.chunk_index

eq_nil {ℓ} : {A : Type ℓ} (xs : List A) → length xs ≡ 0 → xs ≡ []
eq_nil [] h = refl
eq_nil (x ∷ xs) h = absurd (omega arith)

module _ (parent : Ident) (m k n : ℕ) where
  check_chunk-eq-ok :
      (i : ℕ) (seen : List ℕ) (row : ℕ) (chunk : MatrixChunkResult) (next : ℕ)
      → check_chunk parent m k n i seen row chunk ≡ ok next
      → (chunk.row_start ≡ row)
        × (chunk.row_end ≡ row + chunk.row_count)
        × (length chunk.output_buffer ≡ chunk.row_count * n * 4)
        × (next ≡ row + chunk.row_count)
        × (chunk.chunk_index ≡ i)
  check_chunk-eq-ok i seen row chunk next e =
      (ground arith, ground arith, ground arith, ground arith, ground arith)

  check_chunks-Fits :
      (i : ℕ) (seen : List ℕ) (row : ℕ) (chunks : List MatrixChunkResult) (last : ℕ)
      → check_chunks parent m k n i seen row chunks ≡ ok last
      → Fits n row chunks last × Counts index_of i chunks
  unfolding check_chunks
  check_chunks-Fits i seen row [] last e = (ground arith, tt)
  check_chunks-Fits i seen row (chunk ∷ chunks) last e =
      let (next, one, rest) = >>=-eq-ok (check_chunk parent m k n i seen row chunk) _ e in
      let (start, end, size, goes_on, index) = check_chunk-eq-ok i seen row chunk next one in
      let (fits, counts) =
        check_chunks-Fits (suc i) (chunk.chunk_index ∷ seen) next chunks last rest in
      ((start, end, size, subst (λ r. Fits n r chunks last) goes_on fits), (index, counts))

length-outputs :
    (n row : ℕ) (chunks : List MatrixChunkResult) (last : ℕ)
    → Fits n row chunks last
    → length (outputs chunks) + row * n * 4 ≡ last * n * 4
length-outputs n row [] last h = omega (arith, ap (λ r. r * n * 4) h)
length-outputs n row (chunk ∷ chunks) last (start, end, size, h) = omega (
  arith,
  length-append {0} chunk.output_buffer (outputs chunks),
  length-outputs n (row + chunk.row_count) chunks last h,
)

-- Copying chunks that fit behind what is written fills exactly their place.
pub copy_chunks-outputs :
    (n row : ℕ) (chunks : List MatrixChunkResult) (last : ℕ) (done rest : Buffer)
    → Fits n row chunks last
    → length done ≡ row * n * 4
    → length rest ≡ length (outputs chunks)
    → copy_chunks n chunks (done ++ rest) ≡ done ++ outputs chunks
unfolding copy_chunks
copy_chunks-outputs n row [] last done rest h here size = ap (λ r. done ++ r) (eq_nil rest size)
copy_chunks-outputs n row (chunk ∷ chunks) last done rest (start, end, fit, h) here size =
    let source = chunk.output_buffer in
    let room : length source ≤ length rest =
      omega (arith, length-append {0} source (outputs chunks)) in
    let place : length done ≡ chunk.row_start * n * 4 = omega (arith, ap (λ r. r * n * 4) start) in
    let longer : length (done ++ source) ≡ (row + chunk.row_count) * n * 4 =
      omega (arith, length-append {0} done source) in
    let left : length (drop (length source) rest) ≡ length (outputs chunks) =
      omega
        (arith, length-append {0} source (outputs chunks), length-drop {0} (length source) rest) in
    ap (copy_chunks n chunks)
      (copy_into-append done source rest (chunk.row_start * n * 4) place room)
    ∙ copy_chunks-outputs n (row + chunk.row_count) chunks last (done ++ source)
        (drop (length source) rest) h longer left
    ∙ append_assoc done source (outputs chunks)

-- The end of the assembly, for the chunks in their order.
assemble_sorted :
    (parent : Ident) (m k n : ℕ) (sorted : List MatrixChunkResult) (memory buffer : Buffer)
    → length memory ≡ m * n * 4
    → (check_chunks parent m k n 0 [] 0 sorted >>= λ covered.
        throw_if (not (covered == m)) (incomplete_coverage covered)
        >> ok (copy_chunks n sorted memory))
      ≡ ok buffer
    → Counts index_of 0 sorted
      × Fits n 0 sorted m
      × (buffer ≡ outputs sorted)
      × (length buffer ≡ m * n * 4)
assemble_sorted parent m k n sorted memory buffer size e =
    let (covered, checked, ends) = >>=-eq-ok (check_chunks parent m k n 0 [] 0 sorted) _ e in
    let (fits', counts) = check_chunks-Fits parent m k n 0 [] 0 sorted covered checked in
    let all : covered ≡ m = ground arith in
    let fits = subst (Fits n 0 sorted) all fits' in
    let bytes : length (outputs sorted) ≡ m * n * 4 =
      omega (arith, length-outputs n 0 sorted m fits) in
    let filled : copy_chunks n sorted memory ≡ outputs sorted =
      copy_chunks-outputs n 0 sorted m [] memory fits (omega arith) (size ∙ sym bytes) in
    let same : buffer ≡ outputs sorted = ground arith in
    (counts, fits, same, ap length same ∙ bytes)

-- What `assemble_matrix_chunks` has checked when it returns a buffer: with the chunks in the
-- order of their indices, these count up from 0, the rows lie one behind the other from 0 to M,
-- and each chunk has the bytes of its rows. The buffer is then their bytes in that order, M * N *
-- 4 of them, and nothing of what the memory held before is left. The memory has M * N * 4 bytes.
pub assemble_matrix_chunks-outputs :
    (parent : Ident) (m k n : ℕ) (results : List MatrixChunkResult) (memory buffer : Buffer)
    → length memory ≡ m * n * 4
    → assemble_matrix_chunks parent m k n results memory ≡ ok buffer
    → let sorted = sort_by index_of results in
      Counts index_of 0 sorted
      × Fits n 0 sorted m
      × (buffer ≡ outputs sorted)
      × (length buffer ≡ m * n * 4)
unfolding assemble_matrix_chunks
assemble_matrix_chunks-outputs parent m k n [] memory buffer size e = cc
assemble_matrix_chunks-outputs parent m k n (first ∷ rest) memory buffer size e =
    let results = first ∷ rest in
    let (_, _, ends) =
      >>=-eq-ok
        (throw_if (not (length results == first.total_chunks))
          (incomplete_set first.total_chunks (length results)))
        _ e in
    assemble_sorted parent m k n (sort_by index_of results) memory buffer size ends
