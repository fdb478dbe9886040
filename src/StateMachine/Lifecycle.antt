-- ===== src/StateMachine/Lifecycle.antt =====
-- What every sequence of calls of `transition` keeps.
use gridix_infra.Prelude.{◌↔◌, false, true, none, ◌≡◌, refl, inl, inr, arith, is_some, Bool-cases}
use gridix_infra.Models.{JobStatus}
use gridix_infra.Models.Rows.{Job, Timestamp}
use gridix_infra.StateMachine.{moved, illegal, is_terminal, can_transition, stamp, transition}

-- The jobs that calls of `transition` make of `j`.
pub data Reach (j : Job) : Job → Type 0 where
  here : Reach j j
  next :
      {k l : Job} (target : JobStatus) (now : Timestamp)
      → Reach j k
      → transition k target now ≡ moved l
      → Reach j l

-- The lifecycle columns agree with a status.
abbrev pub Stamped : JobStatus → Job → Type 0
Stamped JobStatus.queued j = (j.assigned_provider_id ≡ none) × (j.lease_expires_at ≡ none)
Stamped JobStatus.assigned j = is_some j.assigned_at ≡ true
Stamped JobStatus.running j = (is_some j.assigned_at ≡ true) × (is_some j.started_at ≡ true)
Stamped JobStatus.completed j =
    (is_some j.assigned_at ≡ true)
    × (is_some j.started_at ≡ true)
    × (is_some j.finished_at ≡ true)
    × (j.lease_expires_at ≡ none)
Stamped _ j =
    (is_some j.assigned_at ≡ true) × (is_some j.finished_at ≡ true) × (j.lease_expires_at ≡ none)

abbrev pub IsStamped : Job → Type 0
IsStamped j = Stamped j.status j

-- A move is legal, and gives the stamped job.
pub transition-moved :
    (j : Job) (target : JobStatus) (now : Timestamp) {k : Job}
    → transition j target now ≡ moved k
    → (can_transition j.status target ≡ true)
      × (k ≡ stamp target now (record j { status = target }))
unfolding transition
transition-moved j target now h = elim (Bool-cases (can_transition j.status target)) [
  | inl e ↦ (e, ground arith)
  | inr e ↦ ground arith
]

stamp-Stamped :
    (s target : JobStatus) (now : Timestamp) (j : Job)
    → can_transition s target ≡ true
    → Stamped s j
    → Stamped target (stamp target now (record j { status = target }))
unfolding can_transition stamp
stamp-Stamped JobStatus.queued JobStatus.assigned now j e h = ground arith
stamp-Stamped JobStatus.queued _ now j e h = ground arith
stamp-Stamped JobStatus.assigned JobStatus.running now j e h = ground arith
stamp-Stamped JobStatus.assigned _ now j e h = ground arith
stamp-Stamped JobStatus.running JobStatus.queued now j e h = ground arith
stamp-Stamped JobStatus.running _ now j e h = ground arith
stamp-Stamped _ _ now j e h = ground arith

status-stamp :
    (s target : JobStatus) (now : Timestamp) (j : Job) → (stamp target now j).status ≡ j.status
unfolding stamp
status-stamp s JobStatus.queued now j = refl
status-stamp s _ now j = refl

transition-IsStamped :
    (j : Job) (target : JobStatus) (now : Timestamp) {k : Job}
    → transition j target now ≡ moved k
    → IsStamped j
    → IsStamped k
unfolding stamp
transition-IsStamped j target now h s =
    let m = transition-moved j target now h in
    rw (m.1) (
      rw (status-stamp j.status target now (record j { status = target }))
        (stamp-Stamped j.status target now j m.0 s))

-- Of a job whose columns agree with its status, every sequence of transitions makes one again:
-- a queued job has no provider and no lease, an assigned one has its assignment stamped, a
-- running one its start too, a completed one has been assigned, started and finished and holds no
-- lease, and a failed or timed out one has been assigned and finished and holds no lease.
pub Reach-IsStamped : {j k : Job} → IsStamped j → Reach j k → IsStamped k
Reach-IsStamped s here = s
Reach-IsStamped s (next {k = k} target now r h) =
    transition-IsStamped k target now h (Reach-IsStamped s r)

terminal_stuck : (s target : JobStatus) → is_terminal s ≡ true → can_transition s target ≡ false
unfolding is_terminal can_transition
terminal_stuck JobStatus.queued target h = ground arith
terminal_stuck _ target h = ground arith

exit_of : JobStatus → JobStatus
exit_of JobStatus.queued = JobStatus.assigned
exit_of _ = JobStatus.failed

exit_of_legal : (s : JobStatus) → is_terminal s ≡ false → can_transition s (exit_of s) ≡ true
unfolding is_terminal can_transition exit_of
exit_of_legal JobStatus.queued h = refl
exit_of_legal _ h = ground arith

-- A status is terminal exactly when every transition from it is refused, and refused naming the
-- job's status and the target.
pub terminal_iff_stuck :
    (j : Job) (now : Timestamp)
    → (is_terminal j.status ≡ true)
      ↔ ((target : JobStatus) → transition j target now ≡ illegal j.status target)
unfolding transition
terminal_iff_stuck j now = (
  λ h target. rw (terminal_stuck j.status target h),
  λ h. elim (Bool-cases (is_terminal j.status)) [
    | inl e ↦ e
    | inr e ↦ ground (arith, h (exit_of j.status), exit_of_legal j.status e)
  ],
)

pub transition-legal :
    (job : Job) (target : JobStatus) (now : Timestamp)
    → can_transition job.status target ≡ true
    → transition job target now ≡ moved (stamp target now (record job { status = target }))
unfolding transition
transition-legal job target now h = ground (arith, h)

pub stamp-status :
    (target : JobStatus) (now : Timestamp) (job : Job) → (stamp target now job).status ≡ job.status
unfolding stamp
stamp-status JobStatus.queued now job = refl
stamp-status JobStatus.assigned now job = refl
stamp-status JobStatus.running now job = refl
stamp-status _ now job = refl
