-- ===== src/Chain/Settlement/Payees.antt =====
-- What a batch pays to a provider: at most what is owed.
use gridix_infra.Chain.Settlement.{SettlementEngine, ChainSettlement, reserved_in, Books}
use gridix_infra.Chain.Settlement.Batch.{
  Payee, reservation_of, payee_of, unsettled, owed, refs_of, add_ref,
}
use gridix_infra.Models.Rows.{Uuid, LedgerEntry}
use mathlib.Core.Path.{subst}
use mathlib.Core.List.{Permᴰ}
use gridix_infra.Prelude.{
  [], ◌∷◌, none, some, true, false, inl, inr, refl, List, ℕ, ◌≡◌, Option, if◌then◌else◌, map, arith,
  ap, String, ◌==◌, ◌+◌, ◌≤◌, any, Bool, ◌∙◌, Bool-cases, sym, ==→eq,
}

-- The units of one provider among payees.
unfoldable pub units_for : Uuid → List Payee → ℕ
units_for p [] = 0
units_for p (x ∷ xs) =
    let rest = units_for p xs in if x.provider_id == p then x.units + rest else rest

pub reserved_in-payees :
    (rows : List ChainSettlement) (p id : Uuid) (xs : List Payee)
    → reserved_in rows p (map (reservation_of id) xs) ≤ units_for p xs
unfolding units_for
reserved_in-payees rows p id [] = omega arith
reserved_in-payees rows p id (x ∷ xs) = ground (arith, reserved_in-payees rows p id xs)

abbrev add_units : Uuid → Payee → ℕ → ℕ
add_units p x n = if x.provider_id == p then x.units + n else n

add_units_comm :
    (p : Uuid) (x y : Payee) (n : ℕ)
    → add_units p x (add_units p y n) ≡ add_units p y (add_units p x n)
add_units_comm p x y n = ground arith

pub units_for-Perm : (p : Uuid) {xs ys : List Payee} → Permᴰ xs ys → units_for p xs ≡ units_for p ys
unfolding units_for
units_for-Perm p Permᴰ.nil = refl
units_for-Perm p (Permᴰ.cons {a} {b} {l₁} {l₂} e d) =
    ap (λ x. if x.provider_id == p then x.units + units_for p l₁ else units_for p l₁) e
    ∙ ap (λ n. if b.provider_id == p then b.units + n else n) (units_for-Perm p d)
units_for-Perm p (Permᴰ.swap {a} {b} {a' = c} {b' = d} {l} e f) =
    add_units_comm p a b (units_for p l)
    ∙ ap (λ x. add_units p x (add_units p a (units_for p l))) f
    ∙ ap (λ x. add_units p c (add_units p x (units_for p l))) e
units_for-Perm p (Permᴰ.trans d e) = units_for-Perm p d ∙ units_for-Perm p e

module _ (engine : SettlementEngine) (entries : List LedgerEntry)
    (wallet_of : Uuid → Option String) where
  payee_of-other :
      (p q : Uuid) (units : ℕ) (w : Option String) (rest : List Payee)
      → (q == p) ≡ false
      → units_for p (payee_of engine entries wallet_of q units w rest) ≡ units_for p rest
  unfolding units_for
  payee_of-other p q units none rest e = refl
  payee_of-other p q units (some wallet) rest e = ground (arith, e)

  payee_of-own :
      (p : Uuid) (units : ℕ) (w : Option String) (rest : List Payee)
      → units_for p (payee_of engine entries wallet_of p units w rest) ≤ units + units_for p rest
  unfolding units_for
  payee_of-own p units none rest = omega arith
  payee_of-own p units (some wallet) rest = ground arith

  unsettled-absent :
      (books : Books) (p : Uuid) (refs : List Uuid)
      → any (λ q. q == p) refs ≡ false
      → units_for p (unsettled engine entries wallet_of books refs) ≡ 0
  unfolding units_for
  unsettled-absent books p [] e = refl
  unsettled-absent books p (q ∷ qs) e = elim (Bool-cases (q == p)) [
    | inl f ↦ absurd (ground (arith, e, f))
    | inr f ↦
        let rest : any (λ q. q == p) qs ≡ false =
          sym (ap (λ b. if b then true else any (λ q. q == p) qs) f) ∙ e in
        payee_of-other p q _ (wallet_of q) _ f ∙ unsettled-absent books p qs rest
  ]

  -- Every reference is asked for once, so a provider is owed its units once.
  unsettled-add :
      (books : Books) (p : Uuid) (r : Option Uuid) (refs : List Uuid)
      → units_for p (unsettled engine entries wallet_of books refs)
        ≤ owed engine entries wallet_of books p
      → units_for p (unsettled engine entries wallet_of books (add_ref r refs))
        ≤ owed engine entries wallet_of books p
  unfolding units_for
  unsettled-add books p none refs h = h
  unsettled-add books p (some q) refs h = elim (Bool-cases (any (λ x. x == q) refs)) [
    | inl e ↦ rw e h
    | inr e ↦ elim (Bool-cases (q == p)) [
      | inl f ↦
          let path : q ≡ p = ==→eq q p f in
          let absent : any (λ x. x == p) refs ≡ false =
            ap (λ y. any (λ x. x == y) refs) (sym path) ∙ e in
          let rest = unsettled engine entries wallet_of books refs in
          let none_before = unsettled-absent books p refs absent in
          let own = payee_of-own p (owed engine entries wallet_of books p) (wallet_of p) rest in
          rw e (
            subst
              (λ x.
                units_for p (
                  payee_of engine entries wallet_of x (owed engine entries wallet_of books x)
                    (wallet_of x) rest)
                ≤ owed engine entries wallet_of books p)
              (sym path) (omega (arith, own, none_before)))
      | inr f ↦ rw e (
          subst (λ n. n ≤ owed engine entries wallet_of books p)
            (sym (payee_of-other p q _ (wallet_of q) _ f)) h)
    ]
  ]

  pub unsettled-owed :
      (books : Books) (p : Uuid) (keep : LedgerEntry → Bool) (es : List LedgerEntry)
      → units_for p (unsettled engine entries wallet_of books (refs_of keep es))
        ≤ owed engine entries wallet_of books p
  unfolding units_for
  unsettled-owed books p keep [] = omega arith
  unsettled-owed books p keep (e ∷ es) = elim (Bool-cases (keep e)) [
    | inl f ↦
        rw f
          (unsettled-add books p e.account_ref (refs_of keep es) (unsettled-owed books p keep es))
    | inr f ↦ rw f (unsettled-owed books p keep es)
  ]
