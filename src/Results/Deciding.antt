-- ===== src/Results/Deciding.antt =====
-- Recording a result always returns, and decides the job once enough attempts have finished.
use gridix_infra.Results.Returns.{Returns}
use gridix_infra.Results.Finalize.{finished_of}
use gridix_infra.Config.{Settings}
use gridix_infra.Models.Rows.{Evidence, Timestamp}
use gridix_infra.Results.Recording.{Case}
use gridix_infra.Session.{Session}
use gridix_infra.StateMachine.{is_terminal}
use gridix_infra.Prelude.{◌∷◌, true, ◌≡◌, String, ℕ, ◌≤◌, leb, length, ◌∷◌}

-- The job is over exactly when as many attempts as its redundancy have finished.
abbrev pub IsDecidedBy : ℕ → Case → Type 0
IsDecidedBy redundancy next =
    is_terminal next.job.status ≡ leb redundancy (length (finished_of next.attempts))

module _ (commitment : Evidence → String) (settings : Settings) (now : Timestamp) (num_bytes : ℕ)
    (fee : settings.protocol_fee_bps ≤ 10_000) where
  -- A case that is decided: its attempts stay, and its job has ended.
  abbrev Ended : Case → Case → Type 0
  Ended case next = (is_terminal next.job.status ≡ true) × (next.attempts ≡ case.attempts)
