-- ===== src/UsageBilling/Requests.antt =====
-- Inference requests that run at the same time: each reserves, and later settles or releases.
pub mod Backing
use gridix_infra.Models.{LedgerAccount}
use gridix_infra.Ledger.{account_balance}
use gridix_infra.Config.{Settings}
use gridix_infra.Prelude.{[], List, ◌≡◌, ◌∷◌, All, ◌++◌, if◌then◌else◌, ◌==◌, some, refl}
use gridix_infra.Models.Rows.{Uuid, LedgerEntry}
use gridix_infra.Prelude.Int.{ℤ, pos, ◌+ℤ◌, ◌≤ℤ◌, int_laws, at_least_zero, min_ℤ}
use gridix_infra.Session.{IsSaved, Session, rollback, ok, err, Error}
use gridix_infra.UsageBilling.{
  quantize_usdc, reserve_balance, release_reservation, settle_reservation, developer_balance,
}

-- A request between its reservation and its end: who pays, the most it may cost, and what is held.
pub record Hold : Type 0 where
  pub dev : Uuid
  pub worst_case : ℤ
  pub held : ℤ

pub record World : Type 0 where
  pub session : Session
  pub holds : List Hold

-- One request moves. `answer` bills `min(chat_cost(...), worst_case)`, whatever usage the node
-- reports; a request whose reservation or settlement raises is rolled back.
pub data Step (settings : Settings) (w v : World) : Type 0 where
  admit :
      (dev : Uuid) (worst_case held : ℤ) (t : Session)
      → reserve_balance dev worst_case w.session ≡ (ok held, t)
      → v ≡ record {
        session = t;
        holds = record { dev = dev; worst_case = worst_case; held = held } ∷ w.holds;
      }
      → Step settings w v
  refuse :
      (dev : Uuid) (worst_case : ℤ) (e : Error) (t : Session)
      → reserve_balance dev worst_case w.session ≡ (err e, t)
      → v ≡ record { session = rollback t; holds = w.holds }
      → Step settings w v
  answer :
      (xs ys : List Hold) (h : Hold) (prov : Uuid) (usage cost : ℤ) (t : Session)
      → w.holds ≡ xs ++ h ∷ ys
      → settle_reservation h.dev prov h.held (min_ℤ usage h.worst_case) settings w.session
        ≡ (ok cost, t)
      → v ≡ record { session = t; holds = xs ++ ys }
      → Step settings w v
  abandon :
      (xs ys : List Hold) (h : Hold) (t : Session)
      → w.holds ≡ xs ++ h ∷ ys
      → release_reservation h.dev h.held w.session ≡ (ok tt, t)
      → v ≡ record { session = t; holds = xs ++ ys }
      → Step settings w v

pub data Interleaving (settings : Settings) (w : World) : World → Type 0 where
  here : Interleaving settings w w
  next : {v u : World} → Interleaving settings w v → Step settings v u → Interleaving settings w u

-- What a developer's requests hold together.
abbrev pub held_sum : Uuid → List Hold → ℤ
held_sum d [] = pos 0
held_sum d (h ∷ hs) = (if h.dev == d then h.held else pos 0) +ℤ held_sum d hs

abbrev pub escrow_balance : List LedgerEntry → Uuid → ℤ
escrow_balance es d = account_balance es LedgerAccount.escrow (some d)

abbrev pub IsPriced : Hold → Type 0
IsPriced h = h.held ≡ at_least_zero (quantize_usdc h.worst_case)

-- No developer's balance is negative, every hold is what its worst case costs, each developer's
-- escrow holds their requests' money and a fixed rest, and every row is durable.
pub record IsBacked (rest : Uuid → ℤ) (w : World) : Type 0 where
  pub nonneg : (d : Uuid) → pos 0 ≤ℤ developer_balance w.session.entries d
  pub backed : (d : Uuid) → escrow_balance w.session.entries d ≡ rest d +ℤ held_sum d w.holds
  pub priced : All IsPriced w.holds
  pub durable : IsSaved w.session

pub held_sum-middle :
    (d : Uuid) (xs ys : List Hold) (h : Hold)
    → held_sum d (xs ++ h ∷ ys) ≡ (if h.dev == d then h.held else pos 0) +ℤ held_sum d (xs ++ ys)
held_sum-middle d [] ys h = refl
held_sum-middle d (x ∷ xs) ys h = rw (held_sum-middle d xs ys h) (omega int_laws)

pub All-middle :
    (xs ys : List Hold) (h : Hold)
    → All IsPriced (xs ++ h ∷ ys)
    → IsPriced h × All IsPriced (xs ++ ys)
All-middle [] ys h a = a
All-middle (x ∷ xs) ys h a = let (p, r) = All-middle xs ys h a.1 in (p, (a.0, r))
