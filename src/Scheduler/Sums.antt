-- ===== src/Scheduler/Sums.antt =====
-- The parts that a workload is divided into.
use swarm_x.Common.{
  ℕ, suc, ◌+◌, ◌<◌, ◌≢◌, false, ◌||◌, List, [], ◌∷◌, ◌++◌, ◌≡◌, refl, ap, ◌∙◌, ◌==◌, leb,
  if◌then◌else◌, select, length, arith, includes, append_assoc,
}
use swarm_x.Common.Dict.{Dict, set}
use swarm_x.Task.{Ident}
use swarm_x.Scheduler.{CandidateScore}
use swarm_x.Scheduler.Allocation.{
  ℤ, pos, negsuc, sub_ℕ, takes_part, sum_scores, allocate, allocate_multi_chunk_workload,
}

-- What the counts of an allocation add up to, above and below zero.
abbrev pub gains : Dict ℤ → ℕ
gains [] = 0
gains ((k, pos n) ∷ d) = n + gains d
gains ((k, negsuc n) ∷ d) = gains d

abbrev pub debts : Dict ℤ → ℕ
debts [] = 0
debts ((k, pos n) ∷ d) = debts d
debts ((k, negsuc n) ∷ d) = suc n + debts d

abbrev pub keys : Dict ℤ → List Ident
keys [] = []
keys ((k, v) ∷ d) = k ∷ keys d

abbrev pub worker_ids : List CandidateScore → List Ident
worker_ids [] = []
worker_ids (c ∷ cs) = c.worker_id ∷ worker_ids cs

abbrev pub Distinct : List Ident → Type 0
Distinct [] = Unit
Distinct (k ∷ ks) = (includes ks k ≡ false) × Distinct ks

-- A new key is put at the end.
set_new :
    (k : Ident) (v : ℤ) (d : Dict ℤ) → includes (keys d) k ≡ false → set k v d ≡ d ++ (k, v) ∷ []
set_new k v [] h = refl
set_new k v ((j, w) ∷ d) h = ground (arith, set_new k v d)

gains-append : (d e : Dict ℤ) → gains (d ++ e) ≡ gains d + gains e
gains-append [] e = omega arith
gains-append ((k, pos n) ∷ d) e = omega (arith, gains-append d e)
gains-append ((k, negsuc n) ∷ d) e = gains-append d e

debts-append : (d e : Dict ℤ) → debts (d ++ e) ≡ debts d + debts e
debts-append [] e = omega arith
debts-append ((k, pos n) ∷ d) e = debts-append d e
debts-append ((k, negsuc n) ∷ d) e = omega (arith, debts-append d e)

keys-append : (d e : Dict ℤ) → keys (d ++ e) ≡ keys d ++ keys e
keys-append [] e = refl
keys-append ((k, v) ∷ d) e = ap (λ ks. k ∷ ks) (keys-append d e)

includes-append :
    (xs ys : List Ident) (k : Ident) → includes (xs ++ ys) k ≡ (includes xs k || includes ys k)
includes-append [] ys k = refl
includes-append (x ∷ xs) ys k = ground (arith, includes-append xs ys k)

-- None of the candidates has an entry yet.
abbrev Unseen : List Ident → Dict ℤ → Type 0
Unseen [] d = Unit
Unseen (k ∷ ks) d = (includes (keys d) k ≡ false) × Unseen ks d

Unseen-set :
    (ks : List Ident) (k : Ident) (v : ℤ) (d : Dict ℤ)
    → includes ks k ≡ false
    → Unseen ks d
    → Unseen ks (d ++ (k, v) ∷ [])
Unseen-set [] k v d h u = tt
Unseen-set (j ∷ ks) k v d h u = (
  rw (keys-append d ((k, v) ∷ [])) (ground (arith, includes-append (keys d) (k ∷ []) j)),
  Unseen-set ks k v d (ground arith) u.1,
)

balance :
    (total assigned : ℕ) (k : Ident)
    → gains ((k, sub_ℕ total assigned) ∷ []) + assigned
      ≡ total + debts ((k, sub_ℕ total assigned) ∷ [])
balance total assigned k = ground arith

Unseen-nil : (ks : List Ident) → Unseen ks []
Unseen-nil [] = tt
Unseen-nil (k ∷ ks) = (refl, Unseen-nil ks)

module _ (share : ℕ → ℕ → ℕ → ℕ) (total total_score : ℕ) where
  allocate_last :
      (c : CandidateScore) (assigned : ℕ) (d : Dict ℤ)
      → includes (keys d) c.worker_id ≡ false
      → gains d ≡ assigned
      → debts d ≡ 0
      → let r = allocate share total total_score (c ∷ []) assigned d in
        (gains r ≡ total + debts r) × (keys r ≡ keys d ++ c.worker_id ∷ [])
  unfolding allocate
  allocate_last c assigned d fresh g h =
      let last : ℤ = sub_ℕ total assigned in
      let entry : Dict ℤ = (c.worker_id, last) ∷ [] in
      rw (set_new c.worker_id last d fresh) (
        omega
            (arith, gains-append d entry, debts-append d entry, balance total assigned c.worker_id),
        keys-append d entry,
      )

  allocate_total :
      (c : CandidateScore) (cs : List CandidateScore) (assigned : ℕ) (d : Dict ℤ)
      → Distinct (worker_ids (c ∷ cs))
      → Unseen (worker_ids (c ∷ cs)) d
      → gains d ≡ assigned
      → debts d ≡ 0
      → let r = allocate share total total_score (c ∷ cs) assigned d in
        (gains r ≡ total + debts r) × (keys r ≡ keys d ++ worker_ids (c ∷ cs))
  unfolding allocate
  allocate_total c [] assigned d distinct unseen g h = allocate_last c assigned d unseen.0 g h
  allocate_total c (c' ∷ cs) assigned d distinct unseen g h =
      let count : ℕ = share c.final_score total_score total in
      let entry : Dict ℤ = (c.worker_id, pos count) ∷ [] in
      let (sum, names) =
        allocate_total c' cs (assigned + count) (d ++ entry) distinct.1
          (Unseen-set (worker_ids (c' ∷ cs)) c.worker_id (pos count) d distinct.0 unseen.1)
          (omega (arith, gains-append d entry)) (omega (arith, debts-append d entry)) in
      rw (set_new c.worker_id (pos count) d unseen.0) (
        sum,
        names
            ∙ ap (λ ks. ks ++ worker_ids (c' ∷ cs)) (keys-append d entry)
            ∙ append_assoc (keys d) (c.worker_id ∷ []) (worker_ids (c' ∷ cs)),
      )

-- Every candidate that takes part gets one entry, in their order, and the entries add up to the
-- number of items, however the shares are rounded. The last entry may be below zero: `debts` is what
-- the entries below zero lack. Some candidate takes part, there are items, and no two candidates
-- that take part are the same worker.
pub allocate_multi_chunk_workload-total :
    (share : ℕ → ℕ → ℕ → ℕ) (total : ℕ) (scores : List CandidateScore)
    → 0 < total
    → select takes_part scores ≢ []
    → Distinct (worker_ids (select takes_part scores))
    → let allocation = allocate_multi_chunk_workload share total scores in
      (keys allocation ≡ worker_ids (select takes_part scores))
      × (gains allocation ≡ total + debts allocation)
unfolding allocate_multi_chunk_workload
allocate_multi_chunk_workload-total share total scores some_items some_worker distinct =
    go (select takes_part scores) some_worker distinct
  where
    go :
        (cs : List CandidateScore)
        → cs ≢ []
        → Distinct (worker_ids cs)
        → let allocation : Dict ℤ =
            if length cs == 0 || leb total 0
            then []
            else allocate share total (sum_scores cs) cs 0 [] in
          (keys allocation ≡ worker_ids cs) × (gains allocation ≡ total + debts allocation)
    go [] ne d = absurd (ne refl)
    go (c ∷ cs) ne d =
        let (sum, names) =
          allocate_total share total (sum_scores (c ∷ cs)) c cs 0 [] d
            (Unseen-nil (worker_ids (c ∷ cs))) refl refl in
        let goes_on : (length (c ∷ cs) == 0 || leb total 0) ≡ false = ground arith in
        rw goes_on (names, sum)
