-- ===== src/NodeUsage.antt =====
-- api/app/node_usage.py: the token counts that a node reports. `None` stands for the exception that
-- `int` raises for a number that is not finite.
pub mod Bounds
mod Tests
use gridix_infra.Prelude.{ℕ, Option, none, some, ltb, if◌then◌else◌}
use gridix_infra.Prelude.Int.{ℤ, pos_part}

-- A value of the node's JSON; a fraction by its integer part.
pub data Reported : Type 0 where
  absent not_a_number not_finite : Reported
  whole fraction : ℤ → Reported

-- `raw_payload["usage"]`, where what is no object has no counts.
pub record RawUsage : Type 0 where
  pub prompt_tokens : Reported
  pub completion_tokens : Reported

pub record ChatUsage : Type 0 where
  pub prompt_tokens : ℕ
  pub completion_tokens : ℕ

-- `max(0, int(value))` is the positive part.
unfoldable pub reported_tokens : Reported → ℕ → Option ℕ
reported_tokens absent default = some default
reported_tokens not_a_number default = some default
reported_tokens not_finite default = none
reported_tokens (whole value) default = some (pos_part value)
reported_tokens (fraction value) default = some (pos_part value)

abbrev pub clamp_to : ℕ → ℕ → ℕ
clamp_to ceiling claimed = if ltb ceiling claimed then ceiling else claimed

abbrev pub usage_of : ℕ → Option ℕ → Option ℕ → Option ChatUsage
usage_of ceiling none prompt = none
usage_of ceiling (some claimed) none = none
usage_of ceiling (some claimed) (some prompt) =
    some (record { prompt_tokens = prompt; completion_tokens = clamp_to ceiling claimed })

unfoldable pub usage_from : RawUsage → ℕ → ℕ → Option ChatUsage
usage_from raw prompt_tokens max_output_tokens =
    usage_of max_output_tokens (reported_tokens raw.completion_tokens 0)
      (reported_tokens raw.prompt_tokens prompt_tokens)
