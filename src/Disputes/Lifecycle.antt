-- ===== src/Disputes/Lifecycle.antt =====
-- The lifecycle of disputes beside the ledger: whatever is opened, contested and resolved, the
-- disputed account holds the amounts of the disputes that are not resolved.
use gridix_infra.Prelude.{
  Bool, true, false, Option, String, List, [], ◌∷◌, ◌++◌, ◌≡◌, refl, ap, sym, ◌∙◌, arith,
  Bool-cases, inl, inr, if◌then◌else◌, some, ◌&&◌, ◌⊎◌,
}
use gridix_infra.Prelude.Int.{ℤ, pos, ◌+ℤ◌, ◌-ℤ◌, int_laws, at_least_zero}
use gridix_infra.Models.{LedgerAccount, DisputeState, dispute_state_eq}
use gridix_infra.Models.Rows.{Dispute, Evidence, Timestamp, Uuid}
use gridix_infra.Config.{Settings}
use gridix_infra.Session.{Session, Result, ok, err}
use gridix_infra.Ledger.{account_balance}
use gridix_infra.Ledger.Balances.{share}
use gridix_infra.Disputes.{
  open_dispute, contest_dispute, resolve_dispute, is_resolved, window_open, ruled,
}
use gridix_infra.Disputes.Effects.{
  open_dispute-Moves, resolve_dispute-Moves, resolve_dispute_twice, sink, sink_ref,
}

-- The part of a balance of the disputed account that a dispute accounts for.
abbrev pub held_part : Option Uuid → Dispute → ℤ
held_part q d =
    if is_resolved d.state
    then pos 0
    else share LedgerAccount.disputed q LedgerAccount.disputed (some d.provider_id)
        (at_least_zero d.amount)

abbrev pub pending : Option Uuid → List Dispute → ℤ
pending q [] = pos 0
pending q (d ∷ ds) = held_part q d +ℤ pending q ds

pub record Board : Type 0 where
  pub session : Session
  pub disputes : List Dispute

abbrev pub board : Session → List Dispute → Board
board s ds = record { session = s; disputes = ds }

abbrev pub disputed_balance : Session → Option Uuid → ℤ
disputed_balance s q = account_balance s.entries LedgerAccount.disputed q

module _ (commitment : Evidence → String) (settings : Settings) where
  -- One operation on the disputes, or code that leaves every disputed balance as it is.
  pub data Step : Board → Board → Type 0 where
    opens :
        (now : Timestamp) (p : Uuid) (amount : ℤ) (reason : String) (job_id : Option Uuid)
        (evidence : Option Evidence) (s s' : Session) (d : Dispute) (ds : List Dispute)
        → open_dispute commitment settings now p amount reason job_id evidence s ≡ (ok d, s')
        → Step (board s ds) (board s' (d ∷ ds))
    contests :
        (now : Timestamp) (s : Session) (xs ys : List Dispute) (d : Dispute)
        → Step (board s (xs ++ d ∷ ys)) (board s (xs ++ (contest_dispute d now).1 ∷ ys))
    resolves :
        (upheld : Bool) (ruling : String) (now : Timestamp) (s s' : Session) (xs ys : List Dispute)
        (d d' : Dispute)
        → resolve_dispute d upheld ruling now s ≡ (ok d', s')
        → Step (board s (xs ++ d ∷ ys)) (board s' (xs ++ d' ∷ ys))
    posts :
        (s s' : Session) (ds : List Dispute)
        → ((q : Option Uuid) → disputed_balance s' q ≡ disputed_balance s q)
        → Step (board s ds) (board s' ds)

  -- The boards that are reached from one without disputes and without disputed money.
  pub data Reach : Board → Type 0 where
    start : (s : Session) → ((q : Option Uuid) → disputed_balance s q ≡ pos 0) → Reach (board s [])
    more : {b c : Board} → Reach b → Step b c → Reach c

-- Replacing a dispute in a list.
pending-replace :
    (q : Option Uuid) (xs ys : List Dispute) (d d' : Dispute)
    → pending q (xs ++ d' ∷ ys) ≡ pending q (xs ++ d ∷ ys) -ℤ held_part q d +ℤ held_part q d'
pending-replace q [] ys d d' = omega int_laws
pending-replace q (x ∷ xs) ys d d' = rw (pending-replace q xs ys d d') (omega int_laws)

opened-pending :
    (st : DisputeState) → dispute_state_eq st DisputeState.opened ≡ true → is_resolved st ≡ false
opened-pending DisputeState.opened e = refl
opened-pending DisputeState.under_review e = refl
opened-pending DisputeState.upheld e = ground arith
opened-pending DisputeState.overturned e = ground arith

-- A contest succeeds exactly while the dispute is open and its window runs. It changes nothing but
-- the state, and where it is refused it changes nothing.
pub contest_dispute_cases :
    (d : Dispute) (now : Timestamp)
    → ((dispute_state_eq d.state DisputeState.opened && window_open d now ≡ true)
        × (contest_dispute d now ≡ (true, record d { state = DisputeState.under_review })))
      ⊎ ((dispute_state_eq d.state DisputeState.opened && window_open d now ≡ false)
          × (contest_dispute d now ≡ (false, d)))
unfolding contest_dispute
contest_dispute_cases d now = elim (Bool-cases (dispute_state_eq d.state DisputeState.opened)) [
  | inl fresh ↦ elim (Bool-cases (window_open d now)) [
    | inl running ↦ rw (fresh, running) (inl (refl, refl))
    | inr over ↦ rw (fresh, over) (inr (refl, refl))
  ]
  | inr stale ↦ rw stale (inr (refl, refl))
]

contest-held_part :
    (q : Option Uuid) (d : Dispute) (now : Timestamp)
    → held_part q (contest_dispute d now).1 ≡ held_part q d
contest-held_part q d now = elim (contest_dispute_cases d now) [
  | inl (guard, e) ↦ rw e (rw (opened-pending d.state (ground (arith, guard))) refl)
  | inr (guard, e) ↦ rw e refl
]

-- The disputed account holds just the amounts of the disputes that are not resolved.
abbrev pub IsHeld : Board → Type 0
IsHeld b = (q : Option Uuid) → disputed_balance b.session q ≡ pending q b.disputes

ok_or : Dispute → Result Dispute → Dispute
ok_or a (ok b) = b
ok_or a (err e) = a

-- What a result that is known in two ways returns.
ok_eq : (r : Result Dispute) (a b : Dispute) → r ≡ ok a → r ≡ ok b → a ≡ b
unfolding ok_or
ok_eq r a b e f = ap (ok_or a) (sym e ∙ f)

ruled-resolved : (upheld : Bool) → is_resolved (ruled upheld) ≡ true
ruled-resolved true = refl
ruled-resolved false = refl

-- A ruling never pays into the disputed account.
sink-elsewhere :
    (upheld : Bool) (q r : Option Uuid) (x : ℤ)
    → share LedgerAccount.disputed q (sink upheld) r x ≡ pos 0
sink-elsewhere true q r x = refl
sink-elsewhere false q r x = refl

resolve-balance :
    (upheld : Bool) (ruling : String) (now : Timestamp) (s s' : Session) (d d' : Dispute)
    (q : Option Uuid)
    → resolve_dispute d upheld ruling now s ≡ (ok d', s')
    → disputed_balance s' q ≡ disputed_balance s q -ℤ held_part q d +ℤ held_part q d'
resolve-balance upheld ruling now s s' d d' q e = elim (Bool-cases (is_resolved d.state)) [
  | inl done ↦
      let same = sym (resolve_dispute_twice d upheld ruling now s done) ∙ e in
      rw (← ap (λ r. r.1) same, ← ok_eq _ _ d' refl (ap (λ r. r.0) same)) (omega int_laws)
  | inr waiting ↦
      let result = resolve_dispute-Moves d upheld ruling now s waiting in
      rw (← ap (λ r. r.1) e, ← ok_eq _ _ d' result.0 (ap (λ r. r.0) e))
        (rw
          (
            result.1 LedgerAccount.disputed q,
            waiting,
            ruled-resolved upheld,
            sink-elsewhere upheld q (sink_ref upheld d.provider_id) (at_least_zero d.amount),
          )
          refl)
]

module _ (commitment : Evidence → String) (settings : Settings) where
  open-balance :
      (now : Timestamp) (p : Uuid) (amount : ℤ) (reason : String) (job_id : Option Uuid)
      (evidence : Option Evidence) (s s' : Session) (d : Dispute) (q : Option Uuid)
      → open_dispute commitment settings now p amount reason job_id evidence s ≡ (ok d, s')
      → disputed_balance s' q ≡ held_part q d +ℤ disputed_balance s q
  open-balance now p amount reason job_id evidence s s' d q e =
      let result = open_dispute-Moves commitment settings now p amount reason job_id evidence s in
      rw (← ap (λ r. r.1) e, ← ok_eq _ _ d result.0 (ap (λ r. r.0) e))
        (rw (result.1 LedgerAccount.disputed q) (omega int_laws))

  Step-IsHeld : {b c : Board} → Step commitment settings b c → IsHeld b → IsHeld c
  Step-IsHeld (opens now p amount reason job_id evidence s s' d ds e) h q =
      rw (open-balance now p amount reason job_id evidence s s' d q e, h q) refl
  Step-IsHeld (contests now s xs ys d) h q =
      rw (pending-replace q xs ys d (contest_dispute d now).1, contest-held_part q d now, h q)
        (omega int_laws)
  Step-IsHeld (resolves upheld ruling now s s' xs ys d d' e) h q =
      rw (resolve-balance upheld ruling now s s' d d' q e, pending-replace q xs ys d d', h q)
        (omega int_laws)
  Step-IsHeld (posts s s' ds e) h q = e q ∙ h q

  -- Whatever sequence of disputes is opened, contested and resolved, the disputed account holds
  -- just the amounts of the disputes that are not resolved, each provider's account its own. Other
  -- code is taken to leave the account alone.
  pub Reach-IsHeld : {b : Board} → Reach commitment settings b → IsHeld b
  Reach-IsHeld (start s h) = h
  Reach-IsHeld (more r step) = Step-IsHeld step (Reach-IsHeld r)
