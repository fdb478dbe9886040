-- ===== src/FreeCapacity.antt =====
-- api/app/free_capacity.py: a semaphore with a bounded waiting room. A caller is a number. What
-- runs between two awaits of `slot` is one step, and the semaphore is asyncio's: it hands a freed
-- slot to the first caller that waits.
pub mod Bounds
pub mod Service
mod Tests
use gridix_infra.Prelude.{
  ℕ, Bool, not, ◌+◌, ◌-◌, ◌||◌, ◌==◌, List, [], ◌∷◌, ◌++◌, zero, suc, leb, if◌then◌else◌, is_empty,
  ◌&&◌,
}

-- `queue` are the callers in `acquire`, and `woken` those of them that were given a slot and have
-- not run since. `holders` counts the callers at the `yield`.
pub record FreeCapacity : Type 0 where
  pub slots : ℕ
  pub queue_depth : ℕ
  pub waiting : ℕ
  pub free : ℕ
  pub queue : List ℕ
  pub woken : List ℕ
  pub holders : ℕ

abbrev pub new_capacity : ℕ → ℕ → FreeCapacity
new_capacity slots queue_depth = record {
  slots = slots;
  queue_depth = queue_depth;
  waiting = 0;
  free = slots;
  queue = [];
  woken = [];
  holders = 0;
}

pub data Entry : Type 0 where
  capacity_full : Entry
  holding queued : FreeCapacity → Entry

-- `Semaphore.locked()`
abbrev pub locked : FreeCapacity → Bool
locked g = g.free == 0 || not (is_empty g.queue && is_empty g.woken)

-- `slot()` up to its first pause.
unfoldable pub enter : ℕ → FreeCapacity → Entry
enter c g =
    if leb g.queue_depth g.waiting
    then capacity_full
    else (if locked g
        then queued (record g { queue = g.queue ++ c ∷ []; waiting = g.waiting + 1 })
        else holding (record g { free = g.free - 1; holders = g.holders + 1 }))

-- `_wake_up_next`: a free slot goes to the first caller of the queue.
abbrev pub wake_up_next : List ℕ → FreeCapacity → FreeCapacity
wake_up_next [] g = g
wake_up_next (c ∷ cs) g = record g { free = g.free - 1; queue = cs; woken = g.woken ++ c ∷ [] }

-- The loop at the end of `acquire`: callers that came while others had yet to run wait no longer.
abbrev pub wake_up : List ℕ → FreeCapacity → FreeCapacity
wake_up [] g = g
wake_up (c ∷ cs) g =
    let rest = wake_up cs (wake_up_next (c ∷ cs) g) in if g.free == 0 then g else rest

-- `Semaphore.release()`
unfoldable pub release : FreeCapacity → FreeCapacity
release g = wake_up_next g.queue (record g { free = g.free + 1 })

-- The `finally` of a caller that holds a slot.
unfoldable pub leave : FreeCapacity → FreeCapacity
leave g = release (record g { holders = g.holders - 1 })

abbrev pub remove_at : ℕ → List ℕ → List ℕ
remove_at n [] = []
remove_at zero (c ∷ cs) = cs
remove_at (suc n) (c ∷ cs) = c ∷ remove_at n cs

-- A woken caller runs: its `acquire` returns, and it waits no longer.
unfoldable pub resume : ℕ → FreeCapacity → FreeCapacity
resume n g =
    wake_up g.queue
      (record g { woken = remove_at n g.woken; waiting = g.waiting - 1; holders = g.holders + 1 })

-- A caller disconnects in the queue.
unfoldable pub cancel_queued : ℕ → FreeCapacity → FreeCapacity
cancel_queued n g =
    let queue = remove_at n g.queue in
    wake_up queue (record g { queue = queue; waiting = g.waiting - 1 })

-- A caller disconnects after it was given a slot, and before it ran: the slot is given back.
unfoldable pub cancel_woken : ℕ → FreeCapacity → FreeCapacity
cancel_woken n g =
    wake_up g.queue
      (record g { free = g.free + 1; woken = remove_at n g.woken; waiting = g.waiting - 1 })
