-- ===== src/RateLimit.antt =====
-- api/app/ratelimit.py: fixed-window counters. Redis is a parameter: what a call answered, or
-- `none` where any call to it raised. A request is its identity and its time in seconds.
pub mod Windows
mod Tests
use Prim.Native.String.{◌++◌}
use gridix_infra.Prelude.{
  ℕ, Bool, not, ◌+◌, ◌/◌, Option, none, some, String, List, ltb, leb, or_default,
}
use gridix_infra.Prelude.Dict.{get, put, keep, pair_eq, string_eq, nat_eq, Eq}

abbrev pub Key : Type 0
Key = String × ℕ

instance abbrev pub key_eq : Eq Key
key_eq = pair_eq string_eq nat_eq

-- `_local_windows`
abbrev pub Windows : Type 0
Windows = List (Key × ℕ)

abbrev pub count_in : Key → Windows → ℕ
count_in k windows = or_default (get k windows) 0

-- `k[1] < window - 1`
abbrev pub is_past : ℕ → Key → Bool
is_past window k = ltb (k.1 + 1) window

unfoldable pub bump_local : String → ℕ → Windows → ℕ × Windows
bump_local identity window windows =
    let pruned = keep (λ k. not (is_past window k)) windows in
    let count = count_in (identity, window) pruned + 1 in
    (count, put (identity, window) count pruned)

unfoldable pub check_local : String → ℕ → ℕ → Windows → Bool × Windows
check_local identity window limit windows =
    let (count, rest) = bump_local identity window windows in (leb count limit, rest)

abbrev pub check_by : Option ℕ → String → ℕ → ℕ → Windows → Bool × Windows
check_by none identity window limit windows = check_local identity window limit windows
check_by (some count) identity window limit windows = (leb count limit, windows)

unfoldable pub check_rate_limit : Option ℕ → String → ℕ → ℕ → ℕ → Windows → Bool × Windows
check_rate_limit reply identity limit window_seconds now windows =
    check_by reply identity (now / window_seconds) limit windows

abbrev pub fail_key : String → String
fail_key identity = "gridix:authfail:" ++ identity ++ ":0"

abbrev pub record_by : Option ℕ → String → ℕ → Windows → Windows
record_by none identity window windows = (bump_local (fail_key identity) window windows).1
record_by (some count) identity window windows = windows

unfoldable pub record_auth_failure : Option ℕ → String → ℕ → ℕ → Windows → Windows
record_auth_failure reply identity window_seconds now windows =
    record_by reply identity (now / window_seconds) windows

abbrev pub failures_by : Option ℕ → String → ℕ → Windows → ℕ
failures_by none identity window windows = count_in (fail_key identity, window) windows
failures_by (some count) identity window windows = count

unfoldable pub auth_failures_exceeded : Option ℕ → String → ℕ → ℕ → ℕ → Windows → Bool
auth_failures_exceeded reply identity limit window_seconds now windows =
    leb limit (failures_by reply identity (now / window_seconds) windows)
