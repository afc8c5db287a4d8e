-- ===== src/Chunk/Video.antt =====
-- core/src/chunk_engine.ts, `VideoChunkEngine`: the frames of a video are cut into parts of a given
-- size, and the lists of metrics that the workers find are put one behind the other. A size that the
-- code refuses for being 0 or less is 0. The optional `workerId` and `executionTimeMs` of a result,
-- which nothing reads, are left out.
pub mod Partition
pub mod RoundTrip
mod Examples
use swarm_x.Common.{
  ℕ, zero, suc, ◌+◌, ◌-◌, ◌*◌, ◌/◌, min, max, not, ◌||◌, List, [], ◌∷◌, ◌++◌, ◌==◌, ltb, length,
  Result, ok, err, ◌>>=◌, ◌>>◌, throw_if,
}
use swarm_x.Common.Sorting.{sort_by}
use swarm_x.Task.{Ident, Text}
use swarm_x.Chunk.Buffer.{Buffer, subarray}

pub record VideoChunkMetadata : Type 0 where
  pub parent_workload_id : Ident
  pub chunk_index : ℕ
  pub total_chunks : ℕ
  pub start_frame_index : ℕ
  pub frame_count : ℕ
  pub width : ℕ
  pub height : ℕ
  pub channels : ℕ
  pub mode : Text

pub record VideoChunkSpec : Type 0 where
  pub metadata : VideoChunkMetadata
  pub payload : Buffer

-- A text, or an array of metrics.
pub data VideoOutput (Metric : Type 0) : Type 0 where
  in_text : Text → VideoOutput Metric
  in_array : List Metric → VideoOutput Metric

pub record VideoChunkResult (Metric : Type 0) : Type 0 where
  pub parent_workload_id : Ident
  pub chunk_index : ℕ
  pub total_chunks : ℕ
  pub start_frame_index : ℕ
  pub frame_count : ℕ
  pub output_data : VideoOutput Metric

pub data VideoError : Type 0 where
  invalid_video invalid_video_length no_video_results : VideoError
  mismatched_video missing_video_chunk : (chunk_index : ℕ) → VideoError
  not_iterable : VideoError

-- What `JSON.parse` does with a text: it throws, or it gives a value over which `for` goes, an array with
-- its items or a text with its characters, or it gives another value, over which `for` throws.
pub data Parsed (Metric : Type 0) : Type 0 where
  not_json : Parsed Metric
  iterable : List Metric → Parsed Metric
  other_value : Parsed Metric

module _ (parent : Ident) (width height channels : ℕ) (mode : Text)
    (total_frames actual_chunk_size total_chunks : ℕ) (video_buffer : Buffer) where
  -- The body of the loop of `partitionVideoFrames`.
  abbrev pub video_chunk : ℕ → VideoChunkSpec
  video_chunk i =
      let frame_bytes = width * height * channels in
      let start_frame = i * actual_chunk_size in
      let frames = min actual_chunk_size (total_frames - start_frame) in
      record {
        metadata = record {
          parent_workload_id = parent;
          chunk_index = i;
          total_chunks = total_chunks;
          start_frame_index = start_frame;
          frame_count = frames;
          width = width;
          height = height;
          channels = channels;
          mode = mode;
        };
        payload =
            subarray video_buffer (start_frame * frame_bytes)
              (start_frame * frame_bytes + frames * frame_bytes);
      }

  -- The loop, by the rounds that are left.
  unfoldable pub video_chunks : ℕ → ℕ → List VideoChunkSpec
  video_chunks zero i = []
  video_chunks (suc rounds) i = video_chunk i ∷ video_chunks rounds (suc i)

-- `Math.ceil(a / b)`, for a positive `b`.
abbrev pub ceil_div : ℕ → ℕ → ℕ
ceil_div a b = (a + b - 1) / b

unfoldable pub partition_video_frames :
    Ident
    → (width height channels : ℕ) → (mode : Text) → (total_frames chunk_size : ℕ)
    → (video_buffer : Buffer) → Result VideoError (List VideoChunkSpec)
unfolding video_chunks
partition_video_frames parent width height channels mode total_frames chunk_size video_buffer = do
  throw_if (width == 0 || height == 0 || channels == 0 || total_frames == 0) invalid_video
  throw_if (ltb (length video_buffer) (total_frames * (width * height * channels)))
      invalid_video_length
  let actual_chunk_size = max 1 chunk_size
  let total_chunks = ceil_div total_frames actual_chunk_size
  ok (
      video_chunks parent width height channels mode total_frames actual_chunk_size total_chunks
        video_buffer total_chunks 0)

-- `for (const m of parsedMetrics)`, with no metrics where both parses threw.
abbrev pub items_of : {Metric : Type 0} → Parsed Metric → Result VideoError (List Metric)
items_of not_json = ok []
items_of (iterable metrics) = ok metrics
items_of other_value = err not_iterable

-- `JSON.parse`, and the text that base64 stands for.
module _ {Metric : Type 0} (parse : Text → Parsed Metric) (from_base64 : Text → Text) where
  abbrev pub parsed_text : Text → Parsed Metric
  parsed_text text = elim (parse text) [
    | not_json ↦ parse (from_base64 text)
    | iterable metrics ↦ iterable metrics
    | other_value ↦ other_value
  ]

  abbrev pub metrics_of : VideoOutput Metric → Result VideoError (List Metric)
  metrics_of (in_text text) = items_of (parsed_text text)
  metrics_of (in_array metrics) = ok metrics

  unfoldable pub aggregate :
      Ident → ℕ → List (VideoChunkResult Metric) → List Metric → Result VideoError (List Metric)
  aggregate parent i [] aggregated = ok aggregated
  aggregate parent i (chunk ∷ chunks) aggregated = do
    throw_if (not (chunk.parent_workload_id == parent)) (mismatched_video chunk.chunk_index)
    throw_if (not (chunk.chunk_index == i)) (missing_video_chunk chunk.chunk_index)
    metrics ← metrics_of chunk.output_data
    aggregate parent (suc i) chunks (aggregated ++ metrics)

  unfoldable pub assemble_video_analysis :
      Ident → List (VideoChunkResult Metric) → Result VideoError (List Metric)
  unfolding aggregate
  assemble_video_analysis parent [] = err no_video_results
  assemble_video_analysis parent (first ∷ rest) =
      aggregate parent 0
        (sort_by (λ (chunk : VideoChunkResult Metric). chunk.chunk_index) (first ∷ rest)) []
