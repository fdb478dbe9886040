-- ===== src/StateMachine/Tests.antt =====
-- A job's way through the state machine, and the theorems at it.
use gridix_infra.Prelude.{◌≡◌, refl}
use gridix_infra.Models.{JobStatus}
use gridix_infra.Models.Rows.{Job, Timestamp}
use gridix_infra.StateMachine.{illegal, transition, stamp}
use gridix_infra.StateMachine.Lifecycle.{Reach, here, next, IsStamped, Reach-IsStamped}
use gridix_infra.Models.Samples.{new_job}

abbrev at_status : JobStatus → Timestamp → Job → Job
at_status s now j = stamp s now (record j { status = s })

abbrev finished_job : Job
finished_job =
    at_status JobStatus.completed 30
      (at_status JobStatus.running 20 (at_status JobStatus.assigned 10 new_job))

path : Reach new_job finished_job
unfolding transition
path =
    next JobStatus.completed 30
      (next JobStatus.running 20 (next JobStatus.assigned 10 here refl) refl) refl

Reach-IsStamped_example : IsStamped finished_job
unfolding stamp
Reach-IsStamped_example = Reach-IsStamped (refl, refl) path

skipping_refused :
    transition new_job JobStatus.completed 5 ≡ illegal JobStatus.queued JobStatus.completed
unfolding transition
skipping_refused = refl
