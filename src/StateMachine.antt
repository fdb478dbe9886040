-- ===== src/StateMachine.antt =====
-- api/app/state_machine.py: the job state machine.
pub mod Lifecycle
mod Tests
use gridix_infra.Prelude.{Bool, true, false, not, List, [], ◌∷◌, none, some, any, if◌then◌else◌}
use gridix_infra.Models.{JobStatus, status_eq}
use gridix_infra.Models.Rows.{Job, Timestamp}

-- `_LEGAL`
unfoldable pub legal : JobStatus → List JobStatus
legal JobStatus.queued = JobStatus.assigned ∷ []
legal JobStatus.assigned =
    JobStatus.running ∷ JobStatus.queued ∷ JobStatus.failed ∷ JobStatus.timeout ∷ []
legal JobStatus.running =
    JobStatus.completed ∷ JobStatus.failed ∷ JobStatus.timeout ∷ JobStatus.queued ∷ []
legal JobStatus.completed = []
legal JobStatus.failed = []
legal JobStatus.timeout = []

-- `status in TERMINAL_STATES`
unfoldable pub is_terminal : JobStatus → Bool
is_terminal s = any (status_eq s) (JobStatus.completed ∷ JobStatus.failed ∷ JobStatus.timeout ∷ [])

unfoldable pub can_transition : JobStatus → JobStatus → Bool
unfolding legal
can_transition current target = any (status_eq target) (legal current)

-- What `transition` returns or raises.
pub data Transition : Type 0 where
  moved : Job → Transition
  illegal : JobStatus → JobStatus → Transition

-- The lifecycle times that a move to the target stamps.
unfoldable pub stamp : JobStatus → Timestamp → Job → Job
stamp JobStatus.queued now job = record job {
  queued_at = some now;
  assigned_provider_id = none;
  lease_expires_at = none;
}
stamp JobStatus.assigned now job = record job { assigned_at = some now }
stamp JobStatus.running now job = record job { started_at = some now }
stamp _ now job = record job { finished_at = some now; lease_expires_at = none }

unfoldable pub transition : Job → JobStatus → Timestamp → Transition
unfolding can_transition stamp
transition job target now =
    if not (can_transition job.status target)
    then illegal job.status target
    else moved (stamp target now (record job { status = target }))
