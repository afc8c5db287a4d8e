-- ===== src/Scheduler/Allocation.antt =====
-- core/src/scheduler.ts: `allocateMultiChunkWorkload`. `share s t n` is
-- `Math.round((s / t) * n)`, which the code computes in doubles. A count may fall below zero.
use swarm_x.Common.{
  ℕ, ◌+◌, ◌-◌, Bool, not, ◌&&◌, ◌||◌, List, [], ◌∷◌, ◌==◌, leb, ltb, if◌then◌else◌, select, length,
}
use swarm_x.Common.Dict.{Dict, set}
use swarm_x.Scheduler.{CandidateScore}

-- `negsuc n` is -(n + 1).
pub data ℤ : Type 0 where
  pos : ℕ → ℤ
  negsuc : ℕ → ℤ

abbrev pub sub_ℕ : ℕ → ℕ → ℤ
sub_ℕ a b = if leb b a then pos (a - b) else negsuc (b - a - 1)

abbrev pub takes_part : CandidateScore → Bool
takes_part c = c.eligible && not c.is_excluded_for_task && ltb 0 c.final_score

abbrev pub sum_scores : List CandidateScore → ℕ
sum_scores [] = 0
sum_scores (c ∷ cs) = c.final_score + sum_scores cs

module _ (share : ℕ → ℕ → ℕ → ℕ) where
  -- The loop over the candidates that take part.
  unfoldable pub allocate : ℕ → ℕ → List CandidateScore → ℕ → Dict ℤ → Dict ℤ
  allocate total total_score [] assigned allocation = allocation
  allocate total total_score (c ∷ []) assigned allocation =
      set c.worker_id (sub_ℕ total assigned) allocation
  allocate total total_score (c ∷ d ∷ ds) assigned allocation =
      let count = share c.final_score total_score total in
      allocate total total_score (d ∷ ds) (assigned + count)
        (set c.worker_id (pos count) allocation)

  unfoldable pub allocate_multi_chunk_workload : ℕ → List CandidateScore → Dict ℤ
  unfolding allocate
  allocate_multi_chunk_workload total candidate_scores =
      let eligible = select takes_part candidate_scores in
      if length eligible == 0 || leb total 0
      then []
      else allocate total (sum_scores eligible) eligible 0 []
