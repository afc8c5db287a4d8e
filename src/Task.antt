-- ===== src/Task.antt =====
-- core/src/types.ts: the task record and its status, which the store, the scheduler and the
-- pipeline share. An identifier is a text that the code only compares, with others and with the
-- empty text: it is a number here, and 0 is the empty text. A text that is only stored is `Text`.
use swarm_x.Common.{ℕ, Bool, true, false, Option, none, some, List, ◌==◌}

abbrev pub Ident : Type 0
Ident = ℕ

abbrev pub Text : Type 0
Text = ℕ

pub data TaskStatus : Type 0 where
  pending assigned running completed abandoned failed : TaskStatus

abbrev pub is_pending : TaskStatus → Bool
is_pending TaskStatus.pending = true
is_pending _ = false

abbrev pub is_assigned : TaskStatus → Bool
is_assigned TaskStatus.assigned = true
is_assigned _ = false

abbrev pub is_completed : TaskStatus → Bool
is_completed TaskStatus.completed = true
is_completed _ = false

-- `status IN ('ASSIGNED', 'RUNNING')`.
abbrev pub is_in_flight : TaskStatus → Bool
is_in_flight TaskStatus.assigned = true
is_in_flight TaskStatus.running = true
is_in_flight _ = false

-- COMPLETED, FAILED or ABANDONED.
abbrev pub is_terminal : TaskStatus → Bool
is_terminal TaskStatus.completed = true
is_terminal TaskStatus.abandoned = true
is_terminal TaskStatus.failed = true
is_terminal _ = false

-- The number of a status, to compare two of them.
abbrev pub status_code : TaskStatus → ℕ
status_code TaskStatus.pending = 0
status_code TaskStatus.assigned = 1
status_code TaskStatus.running = 2
status_code TaskStatus.completed = 3
status_code TaskStatus.abandoned = 4
status_code TaskStatus.failed = 5

abbrev pub same_status : TaskStatus → TaskStatus → Bool
same_status a b = status_code a == status_code b

-- The battery level is in hundredths.
pub record TaskResources : Type 0 where
  pub min_cpu_cores : Option ℕ
  pub min_ram_mb : Option ℕ
  pub requires_gpu : Bool
  pub min_battery_level : Option ℕ

-- The reasons that the code writes or tests, and any other text.
pub data Reason : Type 0 where
  work_stolen_by_scheduler worker_disconnected lease_expired host_crash_recovery : Reason
  validation_tolerance_exceeded execution_error tolerance_mismatch : Reason
  other_reason : Text → Reason

-- `details`, as far as the store fills it in itself.
pub data Details : Type 0 where
  blank : Details
  stolen : (new_worker_id : Ident) (previous_attempt new_attempt : ℕ) → Details
  given : Text → Details

pub record TaskAttempt : Type 0 where
  pub timestamp_ms : ℕ
  pub worker_id : Option Ident
  pub previous_status : TaskStatus
  pub reason : Reason
  pub details : Details

pub record Task : Type 0 where
  pub id : Ident
  pub input_ref : Text
  pub computation_descriptor : Text
  pub required_resources : TaskResources
  pub dependencies : List Ident
  pub execution_constraints : List (Text × Text)
  pub result_destination : Text
  pub retry_count : ℕ
  pub attempt_history : List TaskAttempt
  pub status : TaskStatus
  pub assigned_worker_id : Option Ident
  pub lease_expires_at_ms : Option ℕ
  pub created_at_ms : ℕ
  pub updated_at_ms : ℕ

-- `value || undefined`, where 0 is the number 0 or the empty text.
abbrev pub or_undefined : Option ℕ → Option ℕ
or_undefined none = none
or_undefined (some v) = elim (v == 0) [ true ↦ none | false ↦ some v ]

-- `value || default` for a text.
abbrev pub or_default : Option Text → Text → Text
or_default none d = d
or_default (some v) d = elim (v == 0) [ true ↦ d | false ↦ v ]
