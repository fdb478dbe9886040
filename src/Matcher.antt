-- ===== src/Matcher.antt =====
-- api/app/matcher.py: the two matching policies. The rows that the queries read are arguments:
-- providers, jobs, the artifacts that providers cache, and the ledger. Only a database may choose
-- the order of rows that compare equal; the model keeps that of the table.
pub mod Policies
pub mod Dispatch
mod Tests
use gridix_infra.Prelude.{
  ℕ, Bool, true, not, ◌&&◌, ◌||◌, ◌==◌, ◌+◌, ◌*◌, Option, none, some, String, List, [], ◌∷◌, filter,
  any, count_if, is_some, opt_is, ltb, leb, if◌then◌else◌, str_eq,
}
use gridix_infra.Prelude.Int.{pos, leb_ℤ, ltb_ℤ, eqb_ℤ}
use gridix_infra.Prelude.Sort.{sort_by}
use gridix_infra.Models.{JobStatus, DataTier, status_eq}
use gridix_infra.Models.Rows.{Job, Provider, LedgerEntry, Timestamp, Uuid}
use gridix_infra.Config.{Settings, usd}
use gridix_infra.Ledger.{provider_stake}

-- `ProviderArtifact`; the table has a row at most once.
pub record ProviderArtifact : Type 0 where
  pub provider_id : Uuid
  pub digest : String

-- What the queries read.
pub record Tables : Type 0 where
  pub providers : List Provider
  pub jobs : List Job
  pub artifacts : List ProviderArtifact
  pub entries : List LedgerEntry

abbrev pub is_active : Job → Bool
is_active job = status_eq job.status JobStatus.assigned || status_eq job.status JobStatus.running

-- `coalesce(count, 0)` of the active jobs of a provider.
abbrev pub load : List Job → Uuid → ℕ
load jobs p = count_if (λ job. is_active job && opt_is job.assigned_provider_id p) jobs

-- `last_seen IS NULL OR last_seen >= cutoff`
abbrev pub is_reachable : Settings → Timestamp → Option Timestamp → Bool
is_reachable settings now none = true
is_reachable settings now (some seen) = leb now (seen + settings.connection_timeout_seconds)

abbrev pub has_gpu : Job → Provider → Bool
has_gpu job p =
    not job.resource_spec.gpu
    || is_some p.gpu_model && leb job.resource_spec.gpu_vram_mb p.gpu_vram_mb

abbrev pub tier_allows : DataTier → Provider → Bool
tier_allows DataTier.confidential_tee p = p.tee_attested
tier_allows _ p = true

module _ (settings : Settings) (now : Timestamp) (tables : Tables) (job : Job) where
  -- The filters of `_capability_query`.
  unfoldable pub is_capable : Provider → Bool
  is_capable p =
      p.enabled
      && not p.degraded
      && leb job.resource_spec.cpu_cores p.cpu_cores
      && leb job.resource_spec.memory_mb p.memory_mb
      && ltb (load tables.jobs p.id) p.max_concurrent
      && is_reachable settings now p.last_seen
      && has_gpu job p
      && tier_allows job.data_tier p

  abbrev pub cached_in : Option String → Uuid → ℕ
  cached_in none p = 0
  cached_in (some digest) p =
      if not (str_eq digest "")
        && any (λ a. str_eq a.digest digest && a.provider_id == p) tables.artifacts
      then 1
      else 0

  -- `has_artifact`
  abbrev pub has_artifact : Provider → ℕ
  has_artifact p = cached_in job.input_ref p.id

  -- Warm cache first, then least-loaded, then best reputation.
  abbrev pub before_capability : Provider → Provider → Bool
  before_capability p q =
      ltb (has_artifact q) (has_artifact p)
      || has_artifact p == has_artifact q
        && (ltb (load tables.jobs p.id) (load tables.jobs q.id)
            || load tables.jobs p.id == load tables.jobs q.id && leb_ℤ q.reputation p.reputation)

  -- Warm cache first, then high reputation, then spare capacity.
  abbrev pub before_reputation : Provider → Provider → Bool
  before_reputation p q =
      ltb (has_artifact q) (has_artifact p)
      || has_artifact p == has_artifact q
        && (ltb_ℤ q.reputation p.reputation
            || eqb_ℤ p.reputation q.reputation
              && leb (load tables.jobs p.id) (load tables.jobs q.id))

  -- `CapabilityMatcher.candidates`
  unfoldable pub capability_candidates : List Provider
  capability_candidates = sort_by before_capability (filter is_capable tables.providers)

  abbrev pub is_trusted : Provider → Bool
  is_trusted p =
      not job.is_high_value || leb_ℤ (pos settings.high_value_min_reputation) p.reputation

  abbrev pub has_stake : Provider → Bool
  has_stake p = leb_ℤ (pos (settings.min_provider_stake * usd)) (provider_stake tables.entries p.id)

  -- `ReputationMatcher.candidates`
  unfoldable pub reputation_candidates : List Provider
  reputation_candidates =
      filter has_stake
        (sort_by before_reputation (filter (λ p. is_capable p && is_trusted p) tables.providers))

-- `select`
abbrev pub select : List Provider → Option Provider
select [] = none
select (p ∷ ps) = some p
