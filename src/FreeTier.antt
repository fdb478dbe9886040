-- ===== src/FreeTier.antt =====
-- api/app/free_tier.py: the daily quota. Its table is keyed by anchor, kind and day. A timestamp is
-- in microseconds and a day is its number since the epoch.
pub mod Quota
mod Tests
use gridix_infra.Prelude.{
  ℕ, Bool, true, false, not, ◌&&◌, ◌+◌, ◌/◌, ◌==◌, Option, none, some, String, List, [], ◌∷◌, ltb,
  leb, or_default, if◌then◌else◌, str_eq,
}
use gridix_infra.Prelude.Dict.{get, put, pair_eq, string_eq, nat_eq, Eq}
use gridix_infra.Models.Rows.{Timestamp}

-- The anchor, the kind and the day of a row.
abbrev pub UsageKey : Type 0
UsageKey = String × (String × ℕ)

instance abbrev pub usage_eq : Eq UsageKey
usage_eq = pair_eq string_eq (pair_eq string_eq nat_eq)

abbrev pub FreeTierUsage : Type 0
FreeTierUsage = List (UsageKey × ℕ)

-- A session over the table: its rows, and those that are durable.
pub record UsageSession : Type 0 where
  pub rows : FreeTierUsage
  pub committed : FreeTierUsage

-- `uq_free_tier_usage_anchor_day`: another row of the anchor on the day.
abbrev pub has_row : UsageKey → FreeTierUsage → Bool
has_row k [] = false
has_row k ((x, n) ∷ rows) =
    let rest = has_row k rows in if str_eq x.0 k.0 && x.1.1 == k.1.1 then true else rest

abbrev pub utc_day : Timestamp → ℕ
utc_day now = now / 86_400_000_000

-- The answer, or the database's refusal of a second row for the anchor and the day.
pub data Charge : Type 0 where
  charged : Bool → UsageSession → Charge
  unique_violation : UsageSession → Charge

abbrev pub charge_row : ℕ → UsageKey → ℕ → UsageSession → Charge
charge_row limit k count s =
    if leb limit count
    then charged false s
    else (let rows = put k (count + 1) s.rows in
        charged true (record { rows = rows; committed = rows }))

abbrev pub charge_found : ℕ → UsageKey → Option ℕ → UsageSession → Charge
charge_found limit k (some count) s = charge_row limit k count s
charge_found limit k none s =
    if has_row k s.rows
    then unique_violation (record s { rows = s.committed })
    else charge_row limit k 0 (record s { rows = put k 0 s.rows })

unfoldable pub consume_daily : String → String → ℕ → Timestamp → UsageSession → Charge
consume_daily anchor kind limit now s =
    let k : UsageKey = (anchor, (kind, utc_day now)) in charge_found limit k (get k s.rows) s

unfoldable pub used_today : String → String → Timestamp → UsageSession → ℕ
used_today anchor kind now s = or_default (get (anchor, (kind, utc_day now)) s.rows) 0

-- An allowlist of one.
abbrev pub is_free_chat_model : Option String → Bool
is_free_chat_model none = false
is_free_chat_model (some model) = str_eq model "llama3.2-3b"

abbrev pub is_free_image_model : Option String → Bool
is_free_image_model none = false
is_free_image_model (some model) = str_eq model "sdxl-turbo"
