-- ===== src/FreeCapacity/Service.antt =====
-- Who is served next.
use gridix_infra.Prelude.{ℕ, zero, suc, List}
use gridix_infra.FreeCapacity.{FreeCapacity, leave}

-- A number of holders leave.
abbrev pub leave_times : ℕ → FreeCapacity → FreeCapacity
leave_times zero g = g
leave_times (suc n) g = leave_times n (leave g)
