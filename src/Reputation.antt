-- ===== src/Reputation.antt =====
-- api/app/reputation.py: the running score of a provider and its append-only events. Scores and
-- deltas are in half points.
pub mod Trail
mod Tests
use gridix_infra.Prelude.{Option, none, some, List, [], ◌∷◌, ◌++◌}
use gridix_infra.Prelude.Int.{ℤ, pos, negsuc, ◌+ℤ◌, min_ℤ, max_ℤ}
use gridix_infra.Models.{ReputationKind}
use gridix_infra.Models.Rows.{Provider, ReputationEvent, Uuid}

abbrev pub rep_min : ℤ
rep_min = pos 0

abbrev pub rep_max : ℤ
rep_max = pos 200

-- `_DELTAS`
unfoldable pub delta_of : ReputationKind → ℤ
delta_of ReputationKind.job_success = pos 2
delta_of ReputationKind.job_failure = negsuc 1
delta_of ReputationKind.timeout = negsuc 3
delta_of ReputationKind.canary_pass = pos 4
delta_of ReputationKind.canary_fail = negsuc 49
delta_of ReputationKind.quorum_agree = pos 3
delta_of ReputationKind.quorum_disagree = negsuc 29
delta_of ReputationKind.dispute = negsuc 9
delta_of ReputationKind.slash = pos 0

-- `_clamp`
unfoldable pub clamp : ℤ → ℤ
clamp score = max_ℤ rep_min (min_ℤ rep_max score)

abbrev pub change_of : ReputationKind → Option ℤ → ℤ
change_of kind none = delta_of kind
change_of kind (some delta) = delta

-- The provider's row after the event, and the event.
unfoldable pub record_reputation :
    Provider → ReputationKind → Option Uuid → Option ℤ → Provider × ReputationEvent
record_reputation p kind job_id delta =
    let change = change_of kind delta in
    let score = clamp (p.reputation +ℤ change) in
    (
      record p { reputation = score },
      record {
        provider_id = p.id;
        job_id = job_id;
        kind = kind;
        delta = change;
        score_after = score;
      },
    )
