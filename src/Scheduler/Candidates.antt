-- ===== src/Scheduler/Candidates.antt =====
-- core/src/scheduler.ts: which workers may have a task. The text of a rejection is left out, since
-- the code writes it nowhere.
use swarm_x.Common.{
  number_or, Bool, true, false, not, ◌&&◌, ◌||◌, Option, none, some, [], ◌∷◌, leb, ltb,
  if◌then◌else◌, includes,
}
use swarm_x.Task.{Ident, Text, Task, TaskResources}
use swarm_x.Workers.{WorkerState, WorkerTelemetry, CapabilityProfile}

-- The thermal state, the load and the battery of the last telemetry.
abbrev pub telemetry_allows : Bool → Option WorkerTelemetry → Bool
telemetry_allows ignore_battery none = true
telemetry_allows ignore_battery (some t) =
    if leb 2 t.thermal_state
    then false
    else if leb 90 t.cpu_utilization
    then false
    else if not ignore_battery && not t.is_charging && ltb t.battery_level 20
    then false
    else true

abbrev pub meets_resources : TaskResources → CapabilityProfile → Bool
meets_resources needs profile =
    if ltb profile.cpu_cores (number_or needs.min_cpu_cores 1)
    then false
    else if ltb profile.total_ram_mb (number_or needs.min_ram_mb 0)
    then false
    else if needs.requires_gpu && not profile.has_gpu
    then false
    else true

-- `kernel_of` is the field `kernelId` of the descriptor, if it is JSON with one that is not empty.
abbrev pub supports_kernel : (Text → Option Ident) → Text → CapabilityProfile → Bool
supports_kernel kernel_of descriptor profile = elim profile.supported_kernels [
  | none ↦ true
  | some [] ↦ true
  | some (k ∷ ks) ↦
      let kernel_id : Ident = elim (kernel_of descriptor) [ none ↦ descriptor | some id ↦ id ] in
      includes (k ∷ ks) kernel_id || includes (k ∷ ks) descriptor
]

-- `isEligible` after all tests.
unfoldable pub is_fit : Bool → (Text → Option Ident) → Task → WorkerState → Bool
is_fit ignore_battery kernel_of task worker =
    worker.is_eligible
    && telemetry_allows ignore_battery worker.latest_telemetry
    && meets_resources task.required_resources worker.capability_profile
    && supports_kernel kernel_of task.computation_descriptor worker.capability_profile
