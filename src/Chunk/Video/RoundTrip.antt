-- ===== src/Chunk/Video/RoundTrip.antt =====
-- Partition of a video, analysis of each part, and assembly in any order of arrival.
use swarm_x.Common.{
  ℕ, zero, suc, ◌<◌, ◌≡◌, refl, sym, subst, ap, ◌∙◌, List, [], ◌∷◌, ◌++◌, arith, length, max, map,
  All, ok, append_assoc, append-nil,
}
use mathlib.Core.List.{Perm}
use mathlib.Core.List.Perm
use swarm_x.Common.Sorting.{sort_by, Counts, length-sort_by}
use swarm_x.Common.Sorting.Unique.{sort_by-of_perm, sort_by-Counts, Counts-Nodup}
use swarm_x.Task.{Ident, Text}
use swarm_x.Chunk.Buffer.{Buffer}
use swarm_x.Chunk.Video.{
  Parsed, Parsed, VideoChunkSpec, VideoChunkResult, in_array, ceil_div, video_chunks,
  partition_video_frames, aggregate, assemble_video_analysis,
}
use swarm_x.Chunk.Video.Partition.{FramesFrom, partition-eq-ok, partition_video_frames-FramesFrom}

module _ {Metric : Type 0} (analyse : VideoChunkSpec → List Metric) where
  -- What a worker sends back for a part.
  abbrev pub video_answer : VideoChunkSpec → VideoChunkResult Metric
  video_answer chunk = record {
    parent_workload_id = chunk.metadata.parent_workload_id;
    chunk_index = chunk.metadata.chunk_index;
    total_chunks = chunk.metadata.total_chunks;
    start_frame_index = chunk.metadata.start_frame_index;
    frame_count = chunk.metadata.frame_count;
    output_data = in_array (analyse chunk);
  }

  -- The metrics of the parts, one list after the other.
  abbrev pub metrics_in_order : List VideoChunkSpec → List Metric
  metrics_in_order [] = []
  metrics_in_order (chunk ∷ chunks) = analyse chunk ++ metrics_in_order chunks

abbrev index_of : {Metric : Type 0} → VideoChunkResult Metric → ℕ
index_of chunk = chunk.chunk_index

FramesFrom-some :
    {Metric : Type 0} (analyse : VideoChunkSpec → List Metric) (size : ℕ)
    (chunks : List VideoChunkSpec) (last : ℕ)
    → 0 < last
    → FramesFrom size 0 chunks last
    → 0 < length (map (video_answer analyse) chunks)
FramesFrom-some analyse size [] last pos h = absurd (omega arith)
FramesFrom-some analyse size (chunk ∷ chunks) last pos h = omega arith

module _ {Metric : Type 0} (analyse : VideoChunkSpec → List Metric) (parent : Ident)
    (width height channels : ℕ) (mode : Text) (total_frames size total_chunks : ℕ)
    (video : Buffer) where
  video_chunks-parent :
      (rounds i : ℕ)
      → All
          (λ chunk. chunk.metadata.parent_workload_id ≡ parent)
          (video_chunks parent width height channels mode total_frames size total_chunks video
            rounds i)
  unfolding video_chunks
  video_chunks-parent zero i = tt
  video_chunks-parent (suc rounds) i = (refl, video_chunks-parent rounds (suc i))

  video_chunks-Counts :
      (rounds i : ℕ)
      → Counts index_of i (
          map (video_answer analyse) (
            video_chunks parent width height channels mode total_frames size total_chunks video
              rounds i))
  unfolding video_chunks
  video_chunks-Counts zero i = tt
  video_chunks-Counts (suc rounds) i = (refl, video_chunks-Counts rounds (suc i))

module _ {Metric : Type 0} (parse : Text → Parsed Metric) (from_base64 : Text → Text)
    (analyse : VideoChunkSpec → List Metric) where
  aggregate-answers :
      (parent : Ident) (i : ℕ) (chunks : List VideoChunkSpec) (aggregated : List Metric)
      → All (λ chunk. chunk.metadata.parent_workload_id ≡ parent) chunks
      → Counts index_of i (map (video_answer analyse) chunks)
      → aggregate parse from_base64 parent i (map (video_answer analyse) chunks) aggregated
        ≡ ok (aggregated ++ metrics_in_order analyse chunks)
  unfolding aggregate
  aggregate-answers parent i [] aggregated own counts = ap ok (sym (append-nil aggregated))
  aggregate-answers parent i (chunk ∷ chunks) aggregated (mine, own) (index, counts) =
      let rest =
        aggregate-answers parent (suc i) chunks (aggregated ++ analyse chunk) own counts
        ∙ ap ok (append_assoc aggregated (analyse chunk) (metrics_in_order analyse chunks)) in
      ground (arith, mine, index, rest)

  assemble_sorted :
      (parent : Ident) (results sorted : List (VideoChunkResult Metric)) (metrics : List Metric)
      → 0 < length sorted
      → sort_by index_of results ≡ sorted
      → aggregate parse from_base64 parent 0 sorted [] ≡ ok metrics
      → assemble_video_analysis parse from_base64 parent results ≡ ok metrics
  unfolding assemble_video_analysis
  assemble_sorted parent [] sorted metrics pos is whole =
      let none_left = length-sort_by (index_of {Metric = Metric}) [] in
      absurd (omega (arith, none_left, ap length is))
  assemble_sorted parent (first ∷ rest) sorted metrics pos is whole =
      subst (λ s. aggregate parse from_base64 parent 0 s [] ≡ ok metrics) (sym is) whole

-- The round trip: cut a video, let the answers for the parts, each an array of metrics, arrive in
-- any order, and put them together. When the partition succeeds, the assembly succeeds and gives
-- the metrics of all parts in the order of the parts. The metrics are a set.
pub assemble_video_analysis-partition_video_frames :
    {Metric : Type 0} (is_set : IsSet Metric) (parse : Text → Parsed Metric)
    (from_base64 : Text → Text) (analyse : VideoChunkSpec → List Metric) (parent : Ident)
    (width height channels : ℕ) (mode : Text) (total_frames chunk_size : ℕ) (video : Buffer)
    (chunks : List VideoChunkSpec) (results : List (VideoChunkResult Metric))
    → partition_video_frames parent width height channels mode total_frames chunk_size video
      ≡ ok chunks
    → Perm results (map (video_answer analyse) chunks)
    → assemble_video_analysis parse from_base64 parent results
      ≡ ok (metrics_in_order analyse chunks)
assemble_video_analysis-partition_video_frames is_set parse from_base64 analyse parent width height
      channels mode total_frames chunk_size video chunks results e p =
    let size = max 1 chunk_size in
    let rounds = ceil_div total_frames size in
    let (some_frames, is) =
      partition-eq-ok parent width height channels mode total_frames chunk_size video chunks e in
    let (tiles, _) =
      partition_video_frames-FramesFrom parent width height channels mode total_frames chunk_size
        video chunks e in
    let own = subst (All (λ chunk. chunk.metadata.parent_workload_id ≡ parent)) (sym is) (
      video_chunks-parent analyse parent width height channels mode total_frames size rounds video
        rounds 0) in
    let counts =
      subst (λ l. Counts index_of 0 (map (video_answer analyse) l)) (sym is)
        (video_chunks-Counts analyse parent width height channels mode total_frames size rounds
          video rounds 0) in
    let answers = map (video_answer analyse) chunks in
    let sorted : sort_by index_of results ≡ answers =
      sort_by-of_perm index_of (hlevel is_set) p
        (Perm.nodup (Perm.map index_of (Perm.symm p)) (Counts-Nodup index_of 0 answers counts))
      ∙ sort_by-Counts index_of 0 answers counts in
    assemble_sorted parse from_base64 analyse parent results answers
      (metrics_in_order analyse chunks)
      (FramesFrom-some analyse size chunks total_frames some_frames tiles) sorted
      (aggregate-answers parse from_base64 analyse parent 0 chunks [] own counts)
