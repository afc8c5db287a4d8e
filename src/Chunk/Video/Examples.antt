-- ===== src/Chunk/Video/Examples.antt =====
-- Tests of the video parts on three frames in parts of two, and each theorem about them applied there.
use swarm_x.Common.{ℕ, ◌≡◌, refl, List, [], ◌∷◌, ok}
use mathlib.Core.List.Perm
use swarm_x.Common.Sorting.{sort_by}
use swarm_x.Task.{Text}
use swarm_x.Chunk.Buffer.{Buffer}
use swarm_x.Chunk.Video.{
  not_json, Parsed, Parsed, not_json, VideoChunkSpec, VideoChunkResult, in_text,
  partition_video_frames, aggregate, assemble_video_analysis,
}
use swarm_x.Chunk.Video.RoundTrip.{video_answer, assemble_video_analysis-partition_video_frames}

abbrev video : Buffer
video = 10 ∷ 20 ∷ 30 ∷ 99 ∷ []

abbrev early : VideoChunkSpec
early = record {
  metadata = record {
    parent_workload_id = 5;
    chunk_index = 0;
    total_chunks = 2;
    start_frame_index = 0;
    frame_count = 2;
    width = 1;
    height = 1;
    channels = 1;
    mode = 4;
  };
  payload = 10 ∷ 20 ∷ [];
}

abbrev late : VideoChunkSpec
late = record {
  metadata = record {
    parent_workload_id = 5;
    chunk_index = 1;
    total_chunks = 2;
    start_frame_index = 2;
    frame_count = 1;
    width = 1;
    height = 1;
    channels = 1;
    mode = 4;
  };
  payload = 30 ∷ [];
}

abbrev no_parse : Text → Parsed ℕ
no_parse text = not_json

abbrev same_text : Text → Text
same_text text = text

abbrev brightness : VideoChunkSpec → List ℕ
brightness chunk = chunk.payload

abbrev arrived : List (VideoChunkResult ℕ)
arrived = video_answer brightness late ∷ video_answer brightness early ∷ []

assemble_video_analysis-partition_video_frames_example :
    assemble_video_analysis no_parse same_text 5 arrived ≡ ok (10 ∷ 20 ∷ 30 ∷ [])
unfolding partition_video_frames
assemble_video_analysis-partition_video_frames_example =
    assemble_video_analysis-partition_video_frames (hlevel) no_parse same_text brightness 5 1 1 1 4
      3 2 video (early ∷ late ∷ []) arrived refl (Perm.swap _ _ _)

-- A text that is no JSON, as it stands or out of base64, gives no metrics.
unread_text_test :
    assemble_video_analysis no_parse same_text 5
      (record (video_answer brightness early) { output_data = in_text 3 } ∷ [])
    ≡ ok []
unfolding assemble_video_analysis aggregate sort_by
unread_text_test = refl
