-- ===== src/AuditLog/Chain.antt =====
-- Appending keeps the chain intact.
use gridix_infra.Prelude.{
  ℕ, Bool, true, false, String, List, [], ◌∷◌, ◌++◌, ◌+◌, ◌≡◌, refl, ap, ◌∙◌, arith, eq_iff, ==→eq,
  length, All, ◌≤◌, if◌then◌else◌, leb,
}
use mathlib.Core.Path.{subst}
use gridix_infra.AuditLog.{
  AuditLogEntry, Payload, genesis, payload_of, insert, order_by_seq, last, next_entry, append_audit,
  verify_from, verify_audit_chain,
}

-- The hash that the next entry commits to.
abbrev pub final : String → List AuditLogEntry → String
final prev [] = prev
final prev (e ∷ es) = final e.entry_hash es

module _ (digest : Payload → String) where
  -- What the loop checks of the first entry.
  pub record IsLink (prev : String) (n : ℕ) (e : AuditLogEntry) : Type 0 where
    pub numbered : e.seq ≡ n
    pub chained : e.prev_hash ≡ prev
    pub committed : digest (payload_of e) ≡ e.entry_hash

  pub IsLink-of :
      (prev : String) (n : ℕ) (e : AuditLogEntry) (es : List AuditLogEntry)
      → verify_from digest prev n (e ∷ es) ≡ true
      → IsLink prev n e × (verify_from digest e.entry_hash (n + 1) es ≡ true)
  unfolding verify_from
  IsLink-of prev n e es h = (
    record {
      numbered = ==→eq e.seq n (ground (arith, h));
      chained = (eq_iff e.prev_hash prev).0 (ground (arith, h));
      committed = (eq_iff (digest (payload_of e)) e.entry_hash).0 (ground (arith, h));
    },
    ground (arith, h),
  )

  pub of_link :
      (prev : String) (n : ℕ) (e : AuditLogEntry) (es : List AuditLogEntry)
      → IsLink prev n e
      → verify_from digest e.entry_hash (n + 1) es ≡ true
      → verify_from digest prev n (e ∷ es) ≡ true
  unfolding verify_from
  of_link prev n e es l h = ground (
    arith,
    h,
    l.numbered,
    (eq_iff e.prev_hash prev).1 l.chained,
    (eq_iff (digest (payload_of e)) e.entry_hash).1 l.committed,
  )

  next-IsLink :
      (prev : String) (n : ℕ) (e : AuditLogEntry) (es : List AuditLogEntry) (event details : String)
      → verify_from digest prev n (e ∷ es) ≡ true
      → IsLink
          (final e.entry_hash es)
          (n + 1 + length es)
          (next_entry digest (last (e ∷ es)) event details)
  next-IsLink prev n e [] event details h = record {
    numbered = omega (arith, (IsLink-of prev n e [] h).0.numbered);
    chained = refl;
    committed = refl;
  }
  next-IsLink prev n e (f ∷ es) event details h =
      subst
        (λ m. IsLink (final f.entry_hash es) m (next_entry digest (last (f ∷ es)) event details))
        (omega arith)
        (next-IsLink e.entry_hash (n + 1) f es event details (IsLink-of prev n e (f ∷ es) h).1)

  extend :
      (prev : String) (n : ℕ) (es : List AuditLogEntry) (e : AuditLogEntry)
      → verify_from digest prev n es ≡ true
      → IsLink (final prev es) (n + length es) e
      → verify_from digest prev n (es ++ e ∷ []) ≡ true
  unfolding verify_from
  extend prev n [] e h l = of_link prev n e [] (subst (λ m. IsLink prev m e) (omega arith) l) refl
  extend prev n (f ∷ es) e h l =
      let link = IsLink-of prev n f es h in
      of_link prev n f (es ++ e ∷ []) link.0 (
        extend f.entry_hash (n + 1) es e link.1
          (subst (λ m. IsLink (final f.entry_hash es) m e) (omega arith) l))

  seqs_below :
      (prev : String) (n m : ℕ) (es : List AuditLogEntry)
      → verify_from digest prev n es ≡ true
      → n + length es ≤ m
      → All (λ e. e.seq ≤ m) es
  seqs_below prev n m [] h le = tt
  seqs_below prev n m (e ∷ es) h le =
      let link = IsLink-of prev n e es h in
      (
        omega (arith, link.0.numbered, le),
        seqs_below e.entry_hash (n + 1) m es link.1 (omega (arith, le)),
      )

All-if :
    {A : Type 0} (m : ℕ) (b : Bool) (xs ys : List AuditLogEntry)
    → (All (λ e. e.seq ≤ m) xs → A)
    → (All (λ e. e.seq ≤ m) ys → A)
    → All (λ e. e.seq ≤ m) (if b then xs else ys)
    → A
All-if m true xs ys f g h = f h
All-if m false xs ys f g h = g h

All-insert :
    (m : ℕ) (e : AuditLogEntry) (es : List AuditLogEntry)
    → All (λ e. e.seq ≤ m) (insert e es)
    → (e.seq ≤ m) × All (λ e. e.seq ≤ m) es
All-insert m e [] h = h
All-insert m e (f ∷ fs) h =
    All-if m (leb e.seq f.seq) (e ∷ f ∷ fs) (f ∷ insert e fs) (λ h. h)
      (λ h. let rest = All-insert m e fs h.1 in (rest.0, (h.0, rest.1))) h

All-order_by_seq :
    (m : ℕ) (rows : List AuditLogEntry)
    → All (λ e. e.seq ≤ m) (order_by_seq rows)
    → All (λ e. e.seq ≤ m) rows
All-order_by_seq m [] h = h
All-order_by_seq m (e ∷ rows) h =
    let split = All-insert m e (order_by_seq rows) h in (split.0, All-order_by_seq m rows split.1)

insert-append :
    (x e : AuditLogEntry) (es : List AuditLogEntry)
    → x.seq ≤ e.seq
    → insert x (es ++ e ∷ []) ≡ insert x es ++ e ∷ []
insert-append x e [] le = ground arith
insert-append x e (f ∷ fs) le = ground (arith, insert-append x e fs le)

order_by_seq-append :
    (rows : List AuditLogEntry) (e : AuditLogEntry)
    → All (λ r. r.seq ≤ e.seq) rows
    → order_by_seq (rows ++ e ∷ []) ≡ order_by_seq rows ++ e ∷ []
order_by_seq-append [] e h = refl
order_by_seq-append (r ∷ rows) e (le, h) =
    ap (insert r) (order_by_seq-append rows e h) ∙ insert-append r e (order_by_seq rows) le

module _ (digest : Payload → String) (event details : String) where
  appended-IsLink :
      (es : List AuditLogEntry)
      → verify_from digest genesis 1 es ≡ true
      → IsLink digest (final genesis es) (1 + length es) (next_entry digest (last es) event details)
  appended-IsLink [] h = record { numbered = omega arith; chained = refl; committed = refl }
  appended-IsLink (e ∷ es) h =
      subst
        (λ n.
          IsLink digest (final e.entry_hash es) n (next_entry digest (last (e ∷ es)) event details))
        (omega arith) (next-IsLink digest genesis 1 e es event details h)

  -- An event appended to a table whose chain is intact, in whatever order its rows are, leaves a
  -- table whose chain is intact. The hash function is any.
  pub append_audit-verifies :
      (rows : List AuditLogEntry)
      → verify_audit_chain digest rows ≡ true
      → verify_audit_chain digest (append_audit digest rows event details).1 ≡ true
  unfolding append_audit verify_audit_chain
  append_audit-verifies rows h =
      let entry = next_entry digest (last (order_by_seq rows)) event details in
      let link = appended-IsLink (order_by_seq rows) h in
      let below =
        seqs_below digest genesis 1 entry.seq (order_by_seq rows) h
          (omega (arith, link.numbered)) in
      rw (order_by_seq-append rows entry (All-order_by_seq entry.seq rows below))
        (extend digest genesis 1 (order_by_seq rows) entry h link)
