-- ===== src/Session.antt =====
-- A database session (`AsyncSession`) over the ledger table, and methods that read it, write to it
-- and may raise. What was flushed before a raise stays in the session; `commit` makes it durable
-- and `rollback` forgets it. `uuid4` hands out a number that no row carries.
use gridix_infra.Prelude.{List, ◌≡◌, ap}
use gridix_infra.Prelude.Int.{ℤ}
use gridix_infra.Models.{JobStatus}
use gridix_infra.Models.Rows.{LedgerEntry, Uuid}

pub record Session : Type 0 where
  pub entries : List LedgerEntry
  pub committed : List LedgerEntry
  pub next_uuid : Uuid

-- The exceptions of the code; `check_violation` is the database's refusal of a negative amount
-- (`ck_ledger_amount_nonneg`), `refused_transition` the IllegalTransitionError, and
-- `stop_iteration` that of `next` in `_finalize`, and `type_error` that of a value that cannot be
-- hashed or sliced.
pub data Error : Type 0 where
  no_postings check_violation : Error
  unbalanced insufficient_balance : ℤ → ℤ → Error
  refused_transition : JobStatus → JobStatus → Error
  stop_iteration type_error : Error

pub data Result {ℓ} (A : Type ℓ) : Type ℓ where
  ok : A → Result A
  err : Error → Result A

abbrev pub Action {ℓ} : Type ℓ → Type ℓ
Action A = Session → Result A × Session

module _ {ℓ} {A : Type ℓ} where
  abbrev pub pure : A → Action A
  pure a s = (ok a, s)

  abbrev pub raise : Error → Action A
  raise e s = (err e, s)

  abbrev pub gets : (Session → A) → Action A
  gets f s = (ok (f s), s)

infixl 5 ◌>>=◌ ◌>>◌
abbrev pub ◌>>=◌ {ℓ κ} : {A : Type ℓ} {B : Type κ} → Action A → (A → Action B) → Action B
◌>>=◌ m f s = let (r, s') = m s in elim r [ ok a ↦ f a s' | err e ↦ (err e, s') ]

abbrev pub ◌>>◌ {ℓ κ} : {A : Type ℓ} {B : Type κ} → Action A → Action B → Action B
m >> k = m >>= λ _. k

-- A chain whose first action returns goes on with what it returned.
pub bind_ok {ℓ κ} :
    {A : Type ℓ} {B : Type κ} (m : Action A) (f : A → Action B) (a : A) (s t : Session)
    → m s ≡ (ok a, t)
    → (m >>= f) s ≡ f a t
bind_ok m f a s t e = ap (λ result. ((λ _. result) >>= f) s) e

pub then_ok {ℓ κ} :
    {A : Type ℓ} {B : Type κ} (m : Action A) (f : A → Action B) (a : A) (s : Session)
    → (m s).0 ≡ ok a
    → (m >>= f) s ≡ f a (m s).1
then_ok m f a s e = bind_ok m f a s (m s).1 (λ i. (e i, (m s).1))

unfoldable pub commit : Action (Unit {0})
commit s = (ok tt, record s { committed = s.entries })

-- What `get_session` does when the request handler raises.
unfoldable pub rollback : Session → Session
rollback s = record s { entries = s.committed }

-- Every row is durable.
abbrev pub IsSaved : Session → Type 0
IsSaved s = s.committed ≡ s.entries

-- The session with its rows made durable.
abbrev pub saved : Session → Session
saved s = record s { committed = s.entries }
