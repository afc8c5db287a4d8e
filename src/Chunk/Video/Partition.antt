-- ===== src/Chunk/Video/Partition.antt =====
-- The parts of `partitionVideoFrames` hold the frames of the video once, in order.
use swarm_x.Common.{
  All, ℕ, zero, suc, ◌+◌, ◌-◌, ◌*◌, ◌≤◌, ◌<◌, ◌≡◌, sym, subst, ap, ◌∙◌, List, [], ◌∷◌, ◌++◌, arith,
  take, drop, min, max, ok, append_assoc,
}
use native.Mathlib.Nat.{div-add-mod, mod-lt}
use swarm_x.Task.{Ident, Text}
use swarm_x.Chunk.Buffer.{rows_slice-append, rows_slice, Buffer}
use swarm_x.Chunk.Video.{VideoChunkSpec, video_chunks, ceil_div, partition_video_frames}

abbrev pub payloads : List VideoChunkSpec → Buffer
payloads [] = []
payloads (chunk ∷ chunks) = chunk.payload ++ payloads chunks

-- The parts lie frame behind frame, from one frame to another, and none is longer than `size`.
abbrev pub FramesFrom : ℕ → ℕ → List VideoChunkSpec → ℕ → Type 0
FramesFrom size frame [] last = frame ≡ last
FramesFrom size frame (chunk ∷ chunks) last =
    (chunk.metadata.start_frame_index ≡ frame)
    × (0 < chunk.metadata.frame_count)
    × (chunk.metadata.frame_count ≤ size)
    × FramesFrom size (frame + chunk.metadata.frame_count) chunks last

ceil_div-bounds : (a b : ℕ) → 0 < b → (a ≤ ceil_div a b * b) × (ceil_div a b * b < a + b)
ceil_div-bounds a b pos =
    let whole = div-add-mod (a + b - 1) b in
    let rest = mod-lt (a + b - 1) pos in (omega arith, omega arith)

module _ (parent : Ident) (width height channels : ℕ) (mode : Text)
    (total_frames size total_chunks : ℕ) (video : Buffer) where
  video_chunks-FramesFrom :
      (rounds i frame : ℕ)
      → 0 < size
      → frame ≡ min total_frames (i * size)
      → total_frames ≤ (i + rounds) * size
      → (i + rounds) * size < total_frames + size
      → FramesFrom size frame
          (video_chunks parent width height channels mode total_frames size total_chunks video
            rounds i)
          total_frames
  unfolding video_chunks
  video_chunks-FramesFrom zero i frame pos here all fits = ground arith
  video_chunks-FramesFrom (suc rounds) i frame pos here all fits =
      let before : i * size + rounds * size < total_frames = omega arith in
      (
        omega arith,
        omega arith,
        omega arith,
        video_chunks-FramesFrom rounds (suc i) _ pos (omega arith) (omega arith) (omega arith),
      )

  video_chunks-payload :
      (rounds i : ℕ)
      → All
          (λ chunk.
            chunk.payload
            ≡ rows_slice
                (width * height * channels)
                video
                chunk.metadata.start_frame_index
                chunk.metadata.frame_count)
          (video_chunks parent width height channels mode total_frames size total_chunks video
            rounds i)
  unfolding video_chunks
  video_chunks-payload zero i = tt
  video_chunks-payload (suc rounds) i =
      let frame_bytes = width * height * channels in
      let start = i * size * frame_bytes in
      (ap (λ n. take n (drop start video)) (omega arith), video_chunks-payload rounds (suc i))

payloads-append :
    (frame_bytes size frame : ℕ) (video : Buffer) (chunks : List VideoChunkSpec) (last : ℕ)
    → FramesFrom size frame chunks last
    → All
        (λ chunk.
          chunk.payload
          ≡ rows_slice frame_bytes video chunk.metadata.start_frame_index
              chunk.metadata.frame_count)
        chunks
    → payloads chunks ++ drop (last * frame_bytes) video ≡ drop (frame * frame_bytes) video
payloads-append frame_bytes size frame video [] last h right =
    ap (λ f. drop (f * frame_bytes) video) (sym h)
payloads-append frame_bytes size frame video (chunk ∷ chunks) last (start, some_frames, small, h)
      (is, right) =
    let count = chunk.metadata.frame_count in
    append_assoc chunk.payload (payloads chunks) (drop (last * frame_bytes) video)
    ∙ ap (λ r. chunk.payload ++ r)
        (payloads-append frame_bytes size (frame + count) video chunks last h right)
    ∙ ap (λ p. p ++ drop ((frame + count) * frame_bytes) video) is
    ∙ ap (λ s. rows_slice frame_bytes video s count ++ drop ((frame + count) * frame_bytes) video)
        start
    ∙ rows_slice-append frame_bytes video frame count

pub partition-eq-ok :
    (parent : Ident) (width height channels : ℕ) (mode : Text) (total_frames chunk_size : ℕ)
    (video : Buffer) (chunks : List VideoChunkSpec)
    → partition_video_frames parent width height channels mode total_frames chunk_size video
      ≡ ok chunks
    → (0 < total_frames)
      × (chunks
          ≡ video_chunks parent width height channels mode total_frames
              (max 1 chunk_size)
              (ceil_div total_frames (max 1 chunk_size))
              video
              (ceil_div total_frames (max 1 chunk_size))
              0)
unfolding partition_video_frames
partition-eq-ok parent width height channels mode total_frames chunk_size video chunks e =
    (ground arith, ground arith)

-- When the partition succeeds, its parts lie frame behind frame from 0 to the number of frames, each has
-- at least one frame and at most the chunk size, or one where that is 0; and the payloads, one after the
-- other, are the buffer up to what it holds behind the last frame.
pub partition_video_frames-FramesFrom :
    (parent : Ident) (width height channels : ℕ) (mode : Text) (total_frames chunk_size : ℕ)
    (video : Buffer) (chunks : List VideoChunkSpec)
    → partition_video_frames parent width height channels mode total_frames chunk_size video
      ≡ ok chunks
    → FramesFrom (max 1 chunk_size) 0 chunks total_frames
      × (payloads chunks ++ drop (total_frames * (width * height * channels)) video ≡ video)
partition_video_frames-FramesFrom parent width height channels mode total_frames chunk_size video
      chunks e =
    let size = max 1 chunk_size in
    let rounds = ceil_div total_frames size in
    let (some_frames, is) =
      partition-eq-ok parent width height channels mode total_frames chunk_size video chunks e in
    let (enough, fits) = ceil_div-bounds total_frames size (omega arith) in
    let tiles : FramesFrom size 0 chunks total_frames =
      subst (λ l. FramesFrom size 0 l total_frames) (sym is)
        (video_chunks-FramesFrom parent width height channels mode total_frames size rounds video
          rounds 0 0 (omega arith) (omega arith) (omega arith) (omega arith)) in
    let right =
      subst
        (All (λ chunk.
          chunk.payload
          ≡ rows_slice (width * height * channels) video chunk.metadata.start_frame_index
              chunk.metadata.frame_count))
        (sym is)
        (video_chunks-payload parent width height channels mode total_frames size rounds video
          rounds 0) in
    let start : 0 * (width * height * channels) ≡ 0 = omega arith in
    (
      tiles,
      payloads-append (width * height * channels) size 0 video chunks total_frames tiles right
          ∙ ap (λ o. drop o video) start,
    )
