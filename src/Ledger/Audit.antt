-- ===== src/Ledger/Audit.antt =====
-- What an empty answer of `verify_ledger_integrity` means.
use gridix_infra.Prelude.{
  true, List, [], ◌∷◌, ◌≡◌, refl, sym, ◌∙◌, ◌↔◌, inl, inr, ◌==◌, Bool-cases, ==→eq,
}
use gridix_infra.Prelude.Int.{pos, int_laws, eqb_ℤ, eqb_ℤ→eq, eq→eqb_ℤ, eq_of_sub_zero}
use gridix_infra.Models.{debit, credit}
use gridix_infra.Models.Rows.{LedgerEntry, Uuid}
use gridix_infra.Ledger.{
  sum_if, in_group, groups, member, delta, discrepancies_of, verify_ledger_integrity,
}
use gridix_infra.Ledger.Integrity.{has_group, sum_if-no_group}

abbrev Even : List LedgerEntry → Uuid → Type 0
Even es g = sum_if (in_group g debit) es ≡ sum_if (in_group g credit) es

delta-eq : (es : List LedgerEntry) (g : Uuid) → Even es g → delta es g ≡ pos 0
delta-eq es g h = rw h (omega int_laws)

eq-delta : (es : List LedgerEntry) (g : Uuid) → delta es g ≡ pos 0 → Even es g
eq-delta es g h = eq_of_sub_zero _ _ h

discrepancies-none :
    (es : List LedgerEntry) (gs : List Uuid)
    → ((g : Uuid) → Even es g)
    → discrepancies_of es gs ≡ []
unfolding discrepancies_of
discrepancies-none es [] h = refl
discrepancies-none es (g ∷ gs) h =
    rw (eq→eqb_ℤ (delta es g) (pos 0) (delta-eq es g (h g))) (discrepancies-none es gs h)

none-discrepancies :
    (es : List LedgerEntry) (gs : List Uuid) (g : Uuid)
    → discrepancies_of es gs ≡ []
    → member g gs ≡ true
    → delta es g ≡ pos 0
unfolding discrepancies_of
none-discrepancies es [] g h m = cc
none-discrepancies es (k ∷ gs) g h m = elim (Bool-cases (eqb_ℤ (delta es k) (pos 0))) [
  | inl e ↦ elim (Bool-cases (k == g)) [
    | inl same ↦ rw (← ==→eq k g same) (eqb_ℤ→eq _ _ e)
    | inr other ↦ none-discrepancies es gs g (rw e at h) (rw other at m)
  ]
  | inr e ↦ cc (rw e at h)
]

-- A row's group is listed.
member-groups :
    (g : Uuid) (es : List LedgerEntry) → has_group g es ≡ true → member g (groups es) ≡ true
member-groups g [] h = cc
member-groups g (e ∷ es) h = elim (Bool-cases (e.entry_group == g)) [
  | inl same ↦ elim (Bool-cases (member e.entry_group (groups es))) [
    | inl old ↦ rw old (rw (==→eq e.entry_group g same) at old)
    | inr new ↦ rw new (rw same refl)
  ]
  | inr other ↦
      let listed = member-groups g es (rw other at h) in
      elim (Bool-cases (member e.entry_group (groups es))) [
        | inl old ↦ rw old listed
        | inr new ↦ rw new (rw other listed)
      ]
]

-- The integrity check answers with no discrepancy exactly when every group, listed or not, has
-- equal debits and credits.
pub verify_ledger_integrity_iff :
    (es : List LedgerEntry) → (verify_ledger_integrity es ≡ []) ↔ ((g : Uuid) → Even es g)
unfolding verify_ledger_integrity
verify_ledger_integrity_iff es = (
  λ h g. elim (Bool-cases (has_group g es)) [
    | inl here ↦ eq-delta es g (none-discrepancies es (groups es) g h (member-groups g es here))
    | inr gone ↦ sum_if-no_group g debit es gone ∙ sym (sum_if-no_group g credit es gone)
  ],
  discrepancies-none es (groups es),
)
