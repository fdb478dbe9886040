-- ===== src/Matcher/Policies.antt =====
-- The providers that may get a job, and the tests of the reputation policy that make them so.
use gridix_infra.Ledger.{provider_stake}
use gridix_infra.Models.{DataTier, status_eq, JobStatus}
use gridix_infra.Matcher.{
  Tables, is_capable, is_trusted, has_stake, load, is_reachable, tier_allows, pos, has_gpu,
}
use gridix_infra.Models.Rows.{Timestamp, Job, Provider, Uuid}
use gridix_infra.Config.{Settings, usd}
use gridix_infra.Prelude.{
  ℕ, Bool, true, false, ◌&&◌, List, ◌≡◌, refl, arith, inl, inr, Bool-cases, ltb, ◌||◌, leb, ◌≤◌,
  Option, not, leb→le, count_if, ◌+◌, String, none, is_some, ◌⊎◌, some, opt_is, ◌*◌,
}
use gridix_infra.Prelude.Int.{ℤ, leb_ℤ, leb_ℤ→le, ◌≤ℤ◌}

-- The jobs that a provider has been assigned or runs.
abbrev pub busy_with : List Job → Uuid → ℕ
busy_with jobs id =
    count_if
      (λ j.
        (status_eq j.status JobStatus.assigned || status_eq j.status JobStatus.running)
        && opt_is j.assigned_provider_id id)
      jobs

-- Who may get the job, fact by fact: within its resources, concurrency and data tier, present and
-- healthy; trusted for a job of high value; and with the stake.
pub record IsEligible (settings : Settings) (now : Timestamp) (tables : Tables) (job : Job)
    (p : Provider) : Type 0 where
  pub enabled : p.enabled ≡ true
  pub healthy : p.degraded ≡ false
  pub cores : job.resource_spec.cpu_cores ≤ p.cpu_cores
  pub memory : job.resource_spec.memory_mb ≤ p.memory_mb
  pub spare : busy_with tables.jobs p.id + 1 ≤ p.max_concurrent
  pub present :
      (p.last_seen ≡ none)
      ⊎ ((seen : Timestamp) × (p.last_seen ≡ some seen)
          × (now ≤ seen + settings.connection_timeout_seconds))
  pub gpu :
      (job.resource_spec.gpu ≡ false)
      ⊎ ((model : String) × (p.gpu_model ≡ some model)
          × (job.resource_spec.gpu_vram_mb ≤ p.gpu_vram_mb))
  pub tier : (¬ (job.data_tier ≡ DataTier.confidential_tee)) ⊎ (p.tee_attested ≡ true)
  pub trusted :
      (job.is_high_value ≡ false) ⊎ (pos settings.high_value_min_reputation ≤ℤ p.reputation)
  pub staked : pos (settings.min_provider_stake * usd) ≤ℤ provider_stake tables.entries p.id

-- What a conjunction of ten tests says.
each_true :
    (a b c d e f g h i j : Bool)
    → (((a && b && c && d && e && f && g && h) && i) && j) ≡ true
    → (a ≡ true)
      × (b ≡ true)
      × (c ≡ true)
      × (d ≡ true)
      × (e ≡ true)
      × (f ≡ true)
      × (g ≡ true)
      × (h ≡ true)
      × (i ≡ true)
      × (j ≡ true)
each_true true true true true true true true true true true all =
    (refl, refl, refl, refl, refl, refl, refl, refl, refl, refl)
each_true false b c d e f g h i j all = absurd (ground (arith, all))
each_true true false c d e f g h i j all = absurd (ground (arith, all))
each_true true true false d e f g h i j all = absurd (ground (arith, all))
each_true true true true false e f g h i j all = absurd (ground (arith, all))
each_true true true true true false f g h i j all = absurd (ground (arith, all))
each_true true true true true true false g h i j all = absurd (ground (arith, all))
each_true true true true true true true false h i j all = absurd (ground (arith, all))
each_true true true true true true true true false i j all = absurd (ground (arith, all))
each_true true true true true true true true true false j all = absurd (ground (arith, all))
each_true true true true true true true true true true false all = absurd (ground (arith, all))

reachable-since :
    (settings : Settings) (now : Timestamp) (last : Option Timestamp)
    → is_reachable settings now last ≡ true
    → (last ≡ none)
      ⊎ ((seen : Timestamp) × (last ≡ some seen)
          × (now ≤ seen + settings.connection_timeout_seconds))
reachable-since settings now none h = inl refl
reachable-since settings now (some seen) h = inr (seen, refl, leb→le _ _ h)

gpu-model :
    (job : Job) (model : Option String) (vram : ℕ)
    → (not job.resource_spec.gpu || is_some model && leb job.resource_spec.gpu_vram_mb vram) ≡ true
    → (job.resource_spec.gpu ≡ false)
      ⊎ ((m : String) × (model ≡ some m) × (job.resource_spec.gpu_vram_mb ≤ vram))
gpu-model job none vram h = inl (ground (arith, h))
gpu-model job (some m) vram h = elim (Bool-cases job.resource_spec.gpu) [
  | inl e ↦ inr (m, refl, ground (arith, h, e))
  | inr e ↦ inl e
]

tier-attested :
    (tier : DataTier) (p : Provider)
    → tier_allows tier p ≡ true
    → (¬ (tier ≡ DataTier.confidential_tee)) ⊎ (p.tee_attested ≡ true)
tier-attested DataTier.confidential_tee p h = inr h
tier-attested DataTier.public p h = inl (λ e. cc)
tier-attested DataTier.encrypted_at_rest p h = inl (λ e. cc)

trust-reputed :
    (high : Bool) (least : ℕ) (r : ℤ)
    → (not high || leb_ℤ (pos least) r) ≡ true
    → (high ≡ false) ⊎ (pos least ≤ℤ r)
trust-reputed false least r h = inl refl
trust-reputed true least r h = inr (leb_ℤ→le (pos least) r h)

module _ (settings : Settings) (now : Timestamp) (tables : Tables) (job : Job) where
  abbrev pub is_eligible : Provider → Bool
  is_eligible p =
      (is_capable settings now tables job p && is_trusted settings now tables job p)
      && has_stake settings now tables job p

  pub qualified-IsEligible :
      (p : Provider) → is_eligible p ≡ true → IsEligible settings now tables job p
  unfolding is_capable
  qualified-IsEligible p h =
      let (on, well, cores, memory, spare, here, gpu, tier, trust, stake) =
        each_true p.enabled (not p.degraded) (leb job.resource_spec.cpu_cores p.cpu_cores)
          (leb job.resource_spec.memory_mb p.memory_mb)
          (ltb (load tables.jobs p.id) p.max_concurrent) (is_reachable settings now p.last_seen)
          (has_gpu job p) (tier_allows job.data_tier p) (is_trusted settings now tables job p)
          (has_stake settings now tables job p) h in
      record {
        enabled = on;
        healthy = ground (arith, well);
        cores = leb→le _ _ cores;
        memory = leb→le _ _ memory;
        spare = ground (arith, spare);
        present = reachable-since settings now p.last_seen here;
        gpu = gpu-model job p.gpu_model p.gpu_vram_mb gpu;
        tier = tier-attested job.data_tier p tier;
        trusted =
            trust-reputed job.is_high_value settings.high_value_min_reputation p.reputation trust;
        staked =
            leb_ℤ→le (pos (settings.min_provider_stake * usd)) (provider_stake tables.entries p.id)
              stake;
      }
