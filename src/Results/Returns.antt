-- ===== src/Results/Returns.antt =====
-- The loop over a job's attempts that `_finalize` runs, and the settlement at its end, always return
-- (api/app/results.py).
use gridix_infra.Results.Payout.{settle_job_refunds, settle_job_pays}
use gridix_infra.Results.{settle_job, settle_held}
use gridix_infra.Models.{kind_eq, JobKind, JobStatus}
use gridix_infra.Results.Outcomes.{apply_outcome, is_cheating}
use gridix_infra.Quorum.{AttemptResult, QuorumOutcome}
use gridix_infra.Payments.{PaymentProvider, fiat_stub}
use gridix_infra.Config.{Settings}
use gridix_infra.Models.Rows.{Evidence, Timestamp, Dispute, Job, Provider, JobAttempt, Uuid}
use gridix_infra.Results.Recording.{Case, apply_all, consequence_of, provider_of, absorb}
use gridix_infra.Session.{Result, Action, Session, ok, ◌>>=◌, bind_ok, pure}
use gridix_infra.Results.Slashing.{apply_outcome_spares, slashed}
use gridix_infra.Prelude.{
  [], ◌∷◌, none, some, inl, inr, refl, true, false, arith, ◌≡◌, String, ◌∙◌, ℕ, List, Bool, Option,
  Bool-cases, any, ◌||◌, ◌==◌, not, ◌&&◌, ◌≤◌, Option-cases, ap, if◌then◌else◌,
}

-- An action returns something with the property.
abbrev pub Returns {ℓ} : {A : Type ℓ} → (A → Type 0) → Result A × Session → Type ℓ
Returns P r = (a : _) × (s : Session) × (r ≡ (ok a, s)) × P a

pub bind-Returns {ℓ κ} :
    {A : Type ℓ} {B : Type κ} (P : A → Type 0) (Q : B → Type 0) (m : Action A) (f : A → Action B)
    (s : Session)
    → Returns P (m s)
    → ((a : A) (t : Session) → P a → Returns Q (f a t))
    → Returns Q ((m >>= f) s)
bind-Returns P Q m f s (a, t, e, h) k =
    let (b, u, e', h') = k a t h in (b, u, bind_ok m f a s t e ∙ e', h')

abbrev pub Kept : Case → Case → Type 0
Kept case next = (next.job ≡ case.job) × (next.attempts ≡ case.attempts)

module _ (commitment : Evidence → String) (settings : Settings) (now : Timestamp)
    (num_bytes : ℕ) where
  apply_outcome-Returns :
      (disputes : List Dispute) (job : Job) (p : Provider) (attempt : JobAttempt)
      (won is_canary : Bool) (results : List AttemptResult) (s : Session)
      → Returns
          (λ c. Unit {0})
          (apply_outcome commitment settings now disputes job p attempt won is_canary results s)
  apply_outcome-Returns disputes job p attempt won is_canary results s =
      elim (Bool-cases (won || not (is_cheating job attempt is_canary))) [
        | inl e ↦
            let (c, done, quiet) =
              apply_outcome_spares commitment settings now disputes job p attempt won is_canary
                results s e in
            (c, s, done, tt)
        | inr e ↦
            let lost : won ≡ false = ground (arith, e) in
            let cheat : is_cheating job attempt is_canary ≡ true = ground (arith, e) in
            let (done, moves) =
              slashed commitment settings now disputes job p attempt won is_canary results s lost
                cheat in
            (
              _,
              (apply_outcome commitment settings now disputes job p attempt won is_canary results
                  s).1,
              (λ i. (
                done i,
                (apply_outcome commitment settings now disputes job p attempt won is_canary results
                    s).1,
              )),
              tt,
            )
      ]

  consequence_of-Returns :
      (payment : PaymentProvider) (job : Job) (results : List AttemptResult)
      (outcome : QuorumOutcome) (attempt : JobAttempt) (o : Option Provider) (case : Case)
      (s : Session)
      → Returns (Kept case) (
          consequence_of payment commitment settings now num_bytes job results outcome attempt o
            case s)
  consequence_of-Returns payment job results outcome attempt none case s =
      (case, s, refl, (refl, refl))
  consequence_of-Returns payment job results outcome attempt (some p) case s =
      bind-Returns (λ c. Unit {0}) (Kept case)
        (apply_outcome commitment settings now case.disputes job p attempt
          (any (λ q. q == attempt.provider_id) outcome.agreers && outcome.reached)
          (kind_eq job.kind JobKind.canary) results)
        (λ c. pure (absorb case c)) s
        (apply_outcome-Returns case.disputes job p attempt _ _ results s)
        (λ c t h. (absorb case c, t, refl, (refl, refl)))

  pub apply_all-Returns :
      (payment : PaymentProvider) (job : Job) (results : List AttemptResult)
      (outcome : QuorumOutcome) (attempts : List JobAttempt) (case : Case) (s : Session)
      → Returns
          (Kept case)
          (apply_all payment commitment settings now num_bytes job results outcome attempts case s)
  unfolding apply_all
  apply_all-Returns payment job results outcome [] case s = (case, s, refl, (refl, refl))
  apply_all-Returns payment job results outcome (a ∷ attempts) case s =
      bind-Returns (Kept case) (Kept case)
        (consequence_of payment commitment settings now num_bytes job results outcome a
          (provider_of a.provider_id case.providers) case)
        (apply_all payment commitment settings now num_bytes job results outcome attempts) s
        (consequence_of-Returns payment job results outcome a _ case s)
        (λ next t (h, k).
          let (last, u, e, (h', k')) =
            apply_all-Returns payment job results outcome attempts next t in
          (last, u, e, (h' ∙ h, k' ∙ k)))

returned :
    {A : Type 0} (P : A → Type 0) (r : Result A × Session) (a : A) → r.0 ≡ ok a → P a → Returns P r
returned P r a e h = (a, r.1, (λ i. (e i, r.1)), h)

-- A winner comes with a completed job.
abbrev pub IsSettling : Job → Option Uuid → Type 0
IsSettling job none = Unit
IsSettling job (some w) = job.status ≡ JobStatus.completed

pub settle_job-Returns :
    (settings : Settings) (num_bytes : ℕ) (job : Job) (w : Option Uuid) (s : Session)
    → settings.protocol_fee_bps ≤ 10_000
    → IsSettling job w
    → Returns (λ j. j.status ≡ job.status) (settle_job fiat_stub settings num_bytes job w s)
unfolding settle_job
settle_job-Returns settings num_bytes job w s fee done =
    elim (Bool-cases (kind_eq job.kind JobKind.canary)) [
      | inl e ↦ rw e (job, s, refl, refl)
      | inr e ↦ elim (Option-cases job.escrow_amount) [
        | inl f ↦ (
          job,
          s,
          ap
                (λ b.
                  (if b
                      then pure job
                      else settle_held fiat_stub settings num_bytes job w job.escrow_amount)
                    s)
                e
              ∙ ap (λ o. settle_held fiat_stub settings num_bytes job w o s) f,
          refl,
        )
        | inr (escrow, f) ↦ billed w done escrow e f
      ]
    ]
  where
    billed :
        (w : Option Uuid)
        → IsSettling job w
        → (escrow : ℕ) → kind_eq job.kind JobKind.canary ≡ false
        → job.escrow_amount ≡ some escrow
        → Returns (λ j. j.status ≡ job.status) (settle_job fiat_stub settings num_bytes job w s)
    billed none done escrow e f =
        returned (λ j. j.status ≡ job.status) (settle_job fiat_stub settings num_bytes job none s) _
          (settle_job_refunds settings num_bytes job escrow 0 s e f none (inl refl)).0 refl
    billed (some winner) done escrow e f =
        returned (λ j. j.status ≡ job.status)
          (settle_job fiat_stub settings num_bytes job (some winner) s) _
          (settle_job_pays settings num_bytes job escrow winner s fee e f (rw done refl)).1 refl
