-- ===== src/Chain/Watcher/Runs.antt =====
-- Actions on the ledger that return, with what they add to every balance.
use gridix_infra.Ledger.Balances.{share, legs, transferred, post-legs, balance-transferred}
use gridix_infra.Ledger.{account_balance, post_transaction}
use gridix_infra.Models.Rows.{Uuid}
use gridix_infra.Prelude.Int.{◌-ℤ◌, ℤ, pos, ◌+ℤ◌, int_laws}
use gridix_infra.Chain.Units.{from_units}
use gridix_infra.Session.{Action, Session, ok, ◌>>=◌, bind_ok, pure, ◌>>◌}
use gridix_infra.Models.{LedgerAccount}
use gridix_infra.Prelude.{◌≡◌, Option, ℕ, ◌∙◌, String, refl, none, arith}

-- An action that returns, and what it adds to every balance.
abbrev pub Balances : Type 0
Balances = LedgerAccount → Option Uuid → ℤ

pub record Runs {A : Type 0} (m : Action A) (s : Session) (gain : A → Balances) : Type 0 where
  pub value : A
  pub after : Session
  pub runs : m s ≡ (ok value, after)
  pub keeps : after.committed ≡ s.committed
  pub adds :
      (c : LedgerAccount) (q : Option Uuid)
      → account_balance after.entries c q ≡ account_balance s.entries c q +ℤ gain value c q

pub Runs-pure :
    {A : Type 0} (a : A) (s : Session) (gain : A → Balances)
    → ((c : LedgerAccount) (q : Option Uuid) → gain a c q ≡ pos 0)
    → Runs (pure a) s gain
Runs-pure a s gain h = record {
  value = a;
  after = s;
  runs = refl;
  keeps = refl;
  adds = λ c q. rw (h c q) (omega int_laws);
}

-- The second part of a chain adds the rest of what the chain adds.
pub Runs-bind :
    {A B : Type 0} (m : Action A) (f : A → Action B) (s : Session) (g : A → Balances)
    (k : B → Balances)
    → Runs m s g
    → ((a : A) (t : Session) → Runs (f a) t (λ b c q. k b c q -ℤ g a c q))
    → Runs (m >>= f) s k
Runs-bind m f s g k first second =
    let rest = second first.value first.after in
    record {
      value = rest.value;
      after = rest.after;
      runs = bind_ok m f first.value s first.after first.runs ∙ rest.runs;
      keeps = rest.keeps ∙ first.keeps;
      adds = λ c q. rw (rest.adds c q, first.adds c q) (omega int_laws);
    }

-- What moving an amount adds to a balance.
abbrev pub moves_gain : LedgerAccount → Option Uuid → LedgerAccount → Option Uuid → ℤ → Balances
moves_gain a r b t x c q = share c q b t x -ℤ share c q a r x

pub Runs-legs :
    (a : LedgerAccount) (r : Option Uuid) (b : LedgerAccount) (t : Option Uuid) (units decimals : ℕ)
    (reason : String) (tx : Option String) (s : Session)
    → Runs
        (post_transaction (legs a r b t (from_units units decimals)) reason none tx >> pure tt)
        s
        (λ _. moves_gain a r b t (from_units units decimals))
unfolding from_units
Runs-legs a r b t units decimals reason tx s =
    let x = from_units units decimals in
    record {
      value = tt;
      after = transferred a r b t x reason none tx s;
      runs =
          bind_ok (post_transaction (legs a r b t x) reason none tx) (λ _. pure tt) s.next_uuid s _
            (post-legs a r b t x reason none tx s (omega arith));
      keeps = refl;
      adds = λ c q. rw (balance-transferred a r b t x reason none tx s c q) (omega int_laws);
    }

-- The move the other way.
pub Runs-legs_back :
    (a : LedgerAccount) (r : Option Uuid) (b : LedgerAccount) (t : Option Uuid) (units decimals : ℕ)
    (reason : String) (tx : Option String) (s : Session)
    → Runs
        (post_transaction (legs b t a r (from_units units decimals)) reason none tx >> pure tt)
        s
        (λ _ c q. pos 0 -ℤ moves_gain a r b t (from_units units decimals) c q)
Runs-legs_back a r b t units decimals reason tx s =
    let there = Runs-legs b t a r units decimals reason tx s in
    record {
      value = there.value;
      after = there.after;
      runs = there.runs;
      keeps = there.keeps;
      adds = λ c q. rw (there.adds c q) (omega int_laws);
    }
