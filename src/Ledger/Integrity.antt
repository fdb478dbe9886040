-- ===== src/Ledger/Integrity.antt =====
-- Every group of rows balances, whatever is posted: `verify_ledger_integrity` finds nothing.
use gridix_infra.Prelude.{
  ◌≤◌, Bool, true, false, Option, String, List, [], ◌∷◌, ◌++◌, map, ◌≡◌, refl, inl, inr, arith,
  ◌==◌, any, Bool-cases, if◌then◌else◌, suc, ==→eq, sym, ◌∙◌,
}
use gridix_infra.Prelude.Int.{pos, eqb_ℤ, eqb_ℤ→eq}
use gridix_infra.Models.{LedgerDirection, debit, credit}
use gridix_infra.Models.Rows.{LedgerEntry, Uuid}
use gridix_infra.Session.{
  Session, Result, Error, Action, ok, err, ◌>>=◌, pure, raise, gets, commit, rollback,
}
use gridix_infra.Ledger.{
  Posting, posting_sum, entry_of, add_rows, post_transaction, sum_if, in_group, is_negative,
}
use gridix_infra.Ledger.Sums.{sum_if-append}

-- Some row is in the group.
abbrev pub has_group : Uuid → List LedgerEntry → Bool
has_group g = any (λ e. e.entry_group == g)

-- Every group of the rows has equal debits and credits, and no row has an id still to be given.
pub record IsSound (es : List LedgerEntry) (next : Uuid) : Type 0 where
  pub balanced : (g : Uuid) → sum_if (in_group g debit) es ≡ sum_if (in_group g credit) es
  pub fresh : (g : Uuid) → next ≤ g → has_group g es ≡ false

-- So it is for what the session holds, and for what it would fall back to.
pub record IsBalanced (s : Session) : Type 0 where
  pub working : IsSound s.entries s.next_uuid
  pub durable : IsSound s.committed s.next_uuid

has_group-append :
    (g : Uuid) (xs ys : List LedgerEntry)
    → has_group g xs ≡ false
    → has_group g ys ≡ false
    → has_group g (xs ++ ys) ≡ false
has_group-append g [] ys h k = k
has_group-append g (x ∷ xs) ys h k = ground (arith, has_group-append g xs ys)

pub sum_if-no_group :
    (g : Uuid) (d : LedgerDirection) (es : List LedgerEntry)
    → has_group g es ≡ false
    → sum_if (in_group g d) es ≡ pos 0
sum_if-no_group g d [] h = refl
sum_if-no_group g d (e ∷ es) h = ground (arith, sum_if-no_group g d es)

module _ (n : Uuid) (job_id : Option Uuid) (reason : String) (tx_hash : Option String) where
  -- The rows of a transaction, in a group and outside it.
  sum_if-rows_self :
      (d : LedgerDirection) (ps : List Posting)
      → sum_if (in_group n d) (map (entry_of n job_id reason tx_hash) ps) ≡ posting_sum d ps
  sum_if-rows_self d [] = refl
  sum_if-rows_self d (p ∷ ps) = ground (arith, sum_if-rows_self d ps)

  has_group-rows :
      (g : Uuid) (ps : List Posting)
      → (n == g) ≡ false
      → has_group g (map (entry_of n job_id reason tx_hash) ps) ≡ false
  has_group-rows g [] h = refl
  has_group-rows g (p ∷ ps) h = rw h (has_group-rows g ps h)

  module _ (ps : List Posting) (es : List LedgerEntry) (g : Uuid) where
    abbrev rows : List LedgerEntry
    rows = map (entry_of n job_id reason tx_hash) ps

    rows_balanced :
        posting_sum debit ps ≡ posting_sum credit ps
        → sum_if (in_group g debit) rows ≡ sum_if (in_group g credit) rows
    rows_balanced e = elim (Bool-cases (n == g)) [
      | inl here ↦
          rw (← ==→eq n g here) (sum_if-rows_self debit ps ∙ e ∙ sym (sum_if-rows_self credit ps))
      | inr elsewhere ↦
          let none_here = has_group-rows g ps elsewhere in
          sum_if-no_group g debit rows none_here ∙ sym (sum_if-no_group g credit rows none_here)
    ]

    append_balanced :
        posting_sum debit ps ≡ posting_sum credit ps
        → sum_if (in_group g debit) es ≡ sum_if (in_group g credit) es
        → sum_if (in_group g debit) (es ++ rows) ≡ sum_if (in_group g credit) (es ++ rows)
    append_balanced e h = cc (
      sum_if-append (in_group g debit) es rows,
      sum_if-append (in_group g credit) es rows,
      rows_balanced e,
      h,
    )

  rows-IsSound :
      (ps : List Posting) (es : List LedgerEntry)
      → posting_sum debit ps ≡ posting_sum credit ps
      → IsSound es n
      → IsSound (es ++ map (entry_of n job_id reason tx_hash) ps) (suc n)
  rows-IsSound ps es e h = record {
    balanced = λ g. append_balanced ps es g e (h.balanced g);
    fresh = λ g le.
        has_group-append g es _ (h.fresh g (omega arith)) (has_group-rows g ps (ground arith));
  }

later-IsSound : (es : List LedgerEntry) (n : Uuid) → IsSound es n → IsSound es (suc n)
later-IsSound es n h = record { balanced = h.balanced; fresh = λ g le. h.fresh g (omega arith) }

-- The action leaves every group balanced, whether it returns or raises.
pub record Keeps {A : Type 0} (m : Action A) : Type 0 where
  pub at : (s : Session) → IsBalanced s → IsBalanced (m s).1

add_rows-Keeps :
    (ps : List Posting) (reason : String) (job_id : Option Uuid) (tx : Option String)
    → posting_sum debit ps ≡ posting_sum credit ps
    → Keeps (add_rows ps reason job_id tx)
unfolding add_rows
add_rows-Keeps ps reason job_id tx e = record {
  at = λ s h. elim (Bool-cases (any is_negative ps)) [
    | inl bad ↦ rw bad (record {
      working = later-IsSound s.committed s.next_uuid h.durable;
      durable = later-IsSound s.committed s.next_uuid h.durable;
    })
    | inr good ↦ rw good (record {
      working = rows-IsSound s.next_uuid job_id reason tx ps s.entries e h.working;
      durable = later-IsSound s.committed s.next_uuid h.durable;
    })
  ];
}

pub post_transaction-Keeps :
    (ps : List Posting) (reason : String) (job_id : Option Uuid) (tx : Option String)
    → Keeps (post_transaction ps reason job_id tx)
unfolding post_transaction
post_transaction-Keeps [] reason job_id tx = record { at = λ s h. h }
post_transaction-Keeps (p ∷ ps) reason job_id tx = record {
  at = λ s h. elim (Bool-cases (eqb_ℤ (posting_sum debit (p ∷ ps)) (posting_sum credit (p ∷ ps)))) [
    | inl even ↦ rw even ((add_rows-Keeps (p ∷ ps) reason job_id tx (eqb_ℤ→eq _ _ even)).at s h)
    | inr uneven ↦ rw uneven h
  ];
}

-- In a session whose groups all balance, posting any list of legs for any reason, accepted or
-- refused, leaves every group balanced, in what the session holds and in what it would fall back to.
pub post_transaction-IsBalanced :
    (ps : List Posting) (reason : String) (job_id : Option Uuid) (tx : Option String) (s : Session)
    → IsBalanced s
    → IsBalanced (post_transaction ps reason job_id tx s).1
post_transaction-IsBalanced ps reason job_id tx s h =
    (post_transaction-Keeps ps reason job_id tx).at s h

module _ {A : Type 0} where
  pub Keeps-pure : (a : A) → Keeps (pure a)
  Keeps-pure a = record { at = λ s h. h }

  pub Keeps-raise : (e : Error) → Keeps (raise {A = A} e)
  Keeps-raise e = record { at = λ s h. h }

  pub Keeps-gets : (f : Session → A) → Keeps (gets f)
  Keeps-gets f = record { at = λ s h. h }

  pub Keeps-if : (b : Bool) (m n : Action A) → Keeps m → Keeps n → Keeps (if b then m else n)
  Keeps-if true m n km kn = km
  Keeps-if false m n km kn = kn

pub Keeps-commit : Keeps commit
unfolding commit
Keeps-commit = record { at = λ s h. record { working = h.working; durable = h.working } }

module _ {A B : Type 0} where
  abbrev continue : Result A → (A → Action B) → Action B
  continue r f s = ((λ t. (r, t)) >>= f) s

  continue-IsBalanced :
      (r : Result A) (f : A → Action B) (s : Session)
      → ((a : A) → Keeps (f a))
      → IsBalanced s
      → IsBalanced (continue r f s).1
  continue-IsBalanced (ok a) f s kf h = (kf a).at s h
  continue-IsBalanced (err e) f s kf h = h

  pub Keeps-bind :
      (m : Action A) (f : A → Action B) → Keeps m → ((a : A) → Keeps (f a)) → Keeps (m >>= f)
  Keeps-bind m f km kf = record {
    at = λ s h. let (r, t) = m s in continue-IsBalanced r f t kf (km.at s h);
  }

pub ruleset keeps_rules = (
  Keeps-pure, Keeps-raise, Keeps-gets, Keeps-if, Keeps-commit, Keeps-bind, post_transaction-Keeps,
)

pub rollback-IsBalanced : (s : Session) → IsBalanced s → IsBalanced (rollback s)
unfolding rollback
rollback-IsBalanced s h = record { working = h.durable; durable = h.durable }
