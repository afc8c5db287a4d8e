-- ===== src/Chunk/Image/RoundTrip.antt =====
-- Partition of an image, work on each slice, and assembly in any order of arrival.
use swarm_x.Common.{
  ℕ, ◌*◌, ◌/◌, ◌<◌, ◌≡◌, refl, sym, subst, ap, ◌∙◌, true, List, [], ◌∷◌, ◌++◌, ◌==◌, ==_refl, arith,
  length, take, drop, min, map, All, ok,
}
use mathlib.Core.List.{append-nil, Perm}
use mathlib.Core.List.Perm
use swarm_x.Common.Sorting.{sort_by, Counts}
use swarm_x.Common.Sorting.Unique.{sort_by-of_perm, sort_by-Counts, Counts-Nodup}
use swarm_x.Task.{Ident, Text}
use swarm_x.Chunk.Buffer.{drop-all, take-all, Buffer}
use swarm_x.Chunk.Image.{
  ImageChunkSpec, ImageChunkResult, partition_image_filter, place_chunks, assemble_image_chunks,
}
use swarm_x.Chunk.Image.Partition.{partition-eq-ok, partition_image_filter-Slices}
use swarm_x.Chunk.Image.Answers.{
  image_answer, WorksOn, filled_to, index_of, image_chunks-parent, image_chunks-Counts,
  place_chunks-answers,
}

nothing_placed :
    (parent : Ident) (width height channels : ℕ) (memory : Buffer)
    → place_chunks parent width height channels 0 0 memory (sort_by index_of []) ≡ ok (0, memory)
unfolding place_chunks sort_by
nothing_placed parent width height channels memory = refl

assemble_placed :
    (parent : Ident) (width height channels : ℕ) (results sorted : List ImageChunkResult)
    (memory final_buffer : Buffer)
    → 0 < height
    → sort_by index_of results ≡ sorted
    → place_chunks parent width height channels 0 0 memory sorted ≡ ok (height, final_buffer)
    → assemble_image_chunks parent width height channels results memory ≡ ok final_buffer
unfolding assemble_image_chunks
assemble_placed parent width height channels results sorted memory final_buffer pos is placed =
    finish results (ap (place_chunks parent width height channels 0 0 memory) is ∙ placed)
  where
    same : (height == height) ≡ true
    same = ==_refl height

    finish :
        (results : List ImageChunkResult)
        → place_chunks parent width height channels 0 0 memory (sort_by index_of results)
          ≡ ok (height, final_buffer)
        → assemble_image_chunks parent width height channels results memory ≡ ok final_buffer
    finish [] whole = ground (arith, nothing_placed parent width height channels memory)
    finish (first ∷ rest) whole = ground (arith, whole, same)

-- The round trip: cut an image into at least one slice, let the answers for the slices arrive in
-- any order, and put them together. If the partition succeeds, and each worker returns as many
-- rows as it got, and between the halos the rows of the filtered image, then the assembly
-- succeeds and gives the whole filtered image, whatever the memory held before. The filtered
-- image has as many bytes as the image, and the memory has as many.
pub assemble_image_chunks-partition_image_filter :
    (parent : Ident) (width height channels : ℕ) (mode : Text) (radius total_chunks : ℕ)
    (image c memory : Buffer) (work : ImageChunkSpec → Buffer) (chunks : List ImageChunkSpec)
    (results : List ImageChunkResult)
    → 0 < total_chunks
    → partition_image_filter parent width height channels mode radius total_chunks image ≡ ok chunks
    → length c ≡ height * (width * channels)
    → length memory ≡ height * (width * channels)
    → All (WorksOn work (width * channels) c) chunks
    → Perm results (map (image_answer work) chunks)
    → assemble_image_chunks parent width height channels results memory ≡ ok c
assemble_image_chunks-partition_image_filter parent width height channels mode radius total_chunks
      image c memory work chunks results some_chunks e size_c size_memory works p =
    let actual = min total_chunks height in
    let stride = width * channels in
    let (some_rows, _, is) =
      partition-eq-ok parent width height channels mode radius total_chunks image chunks e in
    let tiles =
      partition_image_filter-Slices parent width height channels mode radius total_chunks image
        chunks some_chunks e in
    let own =
      subst (All (λ chunk. chunk.metadata.parent_workload_id ≡ parent)) (sym is) (
        image_chunks-parent parent width height channels mode radius actual image work actual 0
          0) in
    let counts =
      subst (λ l. Counts index_of 0 (map (image_answer work) l)) (sym is)
        (image_chunks-Counts parent width height channels mode radius actual image work actual 0
          0) in
    let answers = map (image_answer work) chunks in
    let sorted : sort_by index_of results ≡ answers =
      sort_by-of_perm index_of (hlevel) p
        (Perm.nodup (Perm.map index_of (Perm.symm p)) (Counts-Nodup index_of 0 answers counts))
      ∙ sort_by-Counts index_of 0 answers counts in
    let start : 0 * stride ≡ 0 = omega arith in
    let empty : filled_to stride c memory 0 ≡ memory = ap (λ k. take k c ++ drop k memory) start in
    let full : filled_to stride c memory height ≡ c =
      ap (λ r. r ++ drop (height * stride) memory) (take-all (height * stride) c (omega arith))
      ∙ ap (λ r. c ++ r) (drop-all (height * stride) memory (omega arith))
      ∙ append-nil c in
    assemble_placed parent width height channels results answers memory c some_rows sorted (
      ap (λ b. place_chunks parent width height channels 0 0 b answers) (sym empty)
      ∙ place_chunks-answers parent width height channels radius (height / actual) image work c
          memory size_c size_memory 0 0 chunks height tiles (omega arith) own counts works
      ∙ ap (λ b. ok (height, b)) full)
