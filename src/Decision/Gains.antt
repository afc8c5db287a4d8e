-- ===== src/Decision/Gains.antt =====
-- core/src/decision_engine.ts: when a gain is enough, in numbers.
use swarm_x.Common.{ℕ, zero, suc, ◌*◌, ◌≤◌, ◌<◌, ◌≡◌, refl, ◌⊎◌, inl, inr, true, false, arith}
use swarm_x.Decision.Evaluate.{gains_enough}

-- The gain of the swarm over the host in hundredths is at least the threshold; a gain over no time at
-- all counts as 0.
abbrev pub Gains : (threshold local_ms swarm_ms : ℕ) → Type 0
Gains threshold local_ms swarm_ms =
    (threshold * swarm_ms ≤ local_ms * 100) × ((0 < swarm_ms) ⊎ (threshold ≡ 0))

abbrev pub Loses : (threshold local_ms swarm_ms : ℕ) → Type 0
Loses threshold local_ms swarm_ms =
    (local_ms * 100 < threshold * swarm_ms) ⊎ ((swarm_ms ≡ 0) × (0 < threshold))

pub gains_enough-Gains :
    (threshold local_ms swarm_ms : ℕ)
    → gains_enough threshold local_ms swarm_ms ≡ true
    → Gains threshold local_ms swarm_ms
gains_enough-Gains threshold local_ms zero e = (omega arith, inr (ground arith))
gains_enough-Gains threshold local_ms (suc n) e = (ground arith, inl (omega arith))

pub gains_enough-Loses :
    (threshold local_ms swarm_ms : ℕ)
    → gains_enough threshold local_ms swarm_ms ≡ false
    → Loses threshold local_ms swarm_ms
gains_enough-Loses threshold local_ms zero e = inr (refl, ground arith)
gains_enough-Loses threshold local_ms (suc n) e = inl (ground arith)
