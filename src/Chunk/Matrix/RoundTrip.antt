-- ===== src/Chunk/Matrix/RoundTrip.antt =====
-- Partition, work on each chunk, and assembly in any order of arrival.
use swarm_x.Common.{
  throw_if, Result, ◌>>◌, ==_refl, ℕ, suc, ◌*◌, ◌/◌, ◌<◌, ◌≡◌, refl, sym, subst, ap, ◌∙◌, List, [],
  ◌∷◌, arith, length, min, map, ok, ◌>>=◌, All, true, not, ◌==◌,
}
use mathlib.Core.List.{Perm}
use swarm_x.Common.Sorting.{sort_by, length-sort_by, All-of_sort_by}
use swarm_x.Task.{Ident}
use swarm_x.Chunk.Buffer.{Buffer}
use swarm_x.Chunk.Matrix.{
  MatrixError, incomplete_coverage, MatrixChunkSpec, MatrixChunkResult, matrix_chunks,
  partition_matrix_multiply, check_chunks, copy_chunks, assemble_matrix_chunks,
}
use swarm_x.Chunk.Matrix.Assembly.{index_of, outputs, copy_chunks-outputs}
use swarm_x.Chunk.Matrix.Partition.{
  Tiles, slices-all, partition-eq-ok, partition_matrix_multiply-Tiles,
}
use swarm_x.Chunk.Matrix.Answers.{
  answer, outputs-answer, Belongs, matrix_chunks-Belongs, matrix_chunks-Counts,
  length-matrix_chunks, check_chunks_pass, answers-Fits, sort_by-results,
}

-- The end of the assembly, for chunks that pass.
passes_sorted :
    (parent : Ident) (m k n : ℕ) (sorted : List MatrixChunkResult) (memory : Buffer)
    → check_chunks parent m k n 0 [] 0 sorted ≡ ok m
    → (check_chunks parent m k n 0 [] 0 sorted >>= λ covered.
        throw_if (not (covered == m)) (incomplete_coverage covered)
        >> ok (copy_chunks n sorted memory))
      ≡ ok (copy_chunks n sorted memory)
passes_sorted parent m k n sorted memory passed =
    let same : (m == m) ≡ true = ==_refl m in
    ap
      (λ r. r >>= λ covered.
        throw_if (not (covered == m)) (incomplete_coverage covered)
        >> ok (copy_chunks n sorted memory))
      passed
    ∙ ground arith

eq_test : (a b : ℕ) → a ≡ b → (a == b) ≡ true
eq_test a b h = ground arith

passes_count :
    {A : Type 0} (received expected : ℕ) (e : MatrixError) (rest answer : Result MatrixError A)
    → received ≡ expected
    → rest ≡ answer
    → (throw_if (not (received == expected)) e >> rest) ≡ answer
passes_count received expected e rest answer same is =
    ap (λ t. throw_if (not t) e >> rest) (eq_test received expected same) ∙ is

-- The assembly of results whose sorted list is known to pass.
assemble_passes :
    (parent : Ident) (m k n actual : ℕ) (results sorted : List MatrixChunkResult) (memory : Buffer)
    → 0 < actual
    → length results ≡ actual
    → All (Belongs parent m k n actual) results
    → sort_by index_of results ≡ sorted
    → check_chunks parent m k n 0 [] 0 sorted ≡ ok m
    → assemble_matrix_chunks parent m k n results memory ≡ ok (copy_chunks n sorted memory)
unfolding assemble_matrix_chunks
assemble_passes parent m k n actual [] sorted memory pos size good is passed = absurd (omega arith)
assemble_passes parent m k n actual (first ∷ rest) sorted memory pos size (mine, good) is passed =
    passes_count (suc (length rest)) first.total_chunks _ _ _ (size ∙ sym mine.total_ok) (
      subst
        (λ s.
          (check_chunks parent m k n 0 [] 0 s >>= λ covered.
          throw_if (not (covered == m)) (incomplete_coverage covered)
          >> ok (copy_chunks n s memory))
          ≡ ok (copy_chunks n sorted memory))
        (sym is) (passes_sorted parent m k n sorted memory passed))

-- The round trip: cut a product, let the answers for the chunks, each with the rows of the
-- product that its chunk names, arrive in any order, and put them together. When the partition
-- succeeds, the assembly succeeds and gives the whole product, whatever the memory held before.
-- The product has the bytes of its M rows of N numbers, and the memory has as many.
pub assemble-partition :
    (parent : Ident) (m k n total_chunks : ℕ) (a b c memory : Buffer)
    (chunks : List MatrixChunkSpec) (results : List MatrixChunkResult)
    → partition_matrix_multiply parent m k n total_chunks a b ≡ ok chunks
    → length c ≡ m * n * 4
    → length memory ≡ m * n * 4
    → Perm results (map (answer n c) chunks)
    → assemble_matrix_chunks parent m k n results memory ≡ ok c
assemble-partition parent m k n total_chunks a b c memory chunks results e size_c size_memory p =
    let actual = min total_chunks m in
    let (some_rows, some_chunks, _, is) = partition-eq-ok parent m k n total_chunks a b chunks e in
    let (tiles, _, _) = partition_matrix_multiply-Tiles parent m k n total_chunks a b chunks e in
    let made = matrix_chunks parent m k n actual a b actual 0 0 in
    let answers = map (answer n c) made in
    let tiles' : Tiles (m / actual) 0 made m = subst (λ l. Tiles (m / actual) 0 l m) is tiles in
    let sorted : sort_by index_of results ≡ answers =
      sort_by-results parent m k n actual a b c results
        (subst (λ l. Perm results (map (answer n c) l)) is p) in
    let good : All (Belongs parent m k n actual) results =
      All-of_sort_by index_of (Belongs parent m k n actual) results (
        subst (All (Belongs parent m k n actual)) (sym sorted)
          (matrix_chunks-Belongs parent m k n actual a b c actual 0 0)) in
    let count : length results ≡ actual =
      sym (length-sort_by index_of results)
      ∙ ap length sorted
      ∙ length-matrix_chunks parent m k n actual a b c actual 0 0 in
    let fits =
      answers-Fits parent m k n actual c (m / actual) 0 made m (omega arith) (omega arith) tiles' in
    let passed =
      check_chunks_pass parent m k n actual answers 0 [] 0 m
        (matrix_chunks-Belongs parent m k n actual a b c actual 0 0)
        (matrix_chunks-Counts parent m k n actual a b c actual 0 0) fits (λ j h. refl) in
    let whole : outputs answers ≡ c =
      outputs-answer n c made ∙ slices-all (n * 4) c (m / actual) made m tiles' (omega arith) in
    let filled : copy_chunks n answers memory ≡ outputs answers =
      copy_chunks-outputs n 0 answers m [] memory fits (omega arith)
        (size_memory ∙ sym size_c ∙ sym (ap length whole)) in
    assemble_passes parent m k n actual results answers memory (omega arith) count good sorted
      passed
    ∙ ap ok (filled ∙ whole)
