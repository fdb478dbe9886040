-- ===== src/AuditLog/Tamper.antt =====
-- Two intact chains with the same end: either they are the same, or a hash collision is at hand.
use gridix_infra.Prelude.{
  ℕ, Bool, true, String, List, [], ◌∷◌, ◌+◌, ◌≡◌, ◌≢◌, refl, sym, ap, ◌∙◌, ◌⊎◌, inl, inr, arith,
  ◌==◌, ◌&&◌, str_eq, eq_iff, ==→eq, length, Bool-cases, ==_refl, eq_refl,
}
use gridix_infra.AuditLog.{
  AuditLogEntry, Payload, genesis, payload_of, order_by_seq, verify_from, verify_audit_chain,
}
use gridix_infra.AuditLog.Chain.{final, IsLink-of}

-- Two different payloads with one hash.
pub record Collision (digest : Payload → String) : Type 0 where
  pub left : Payload
  pub right : Payload
  pub apart : left ≢ right
  pub same : digest left ≡ digest right

payload_eq : Payload → Payload → Bool
payload_eq p q =
    p.seq == q.seq
    && (str_eq p.event q.event && (str_eq p.details q.details && str_eq p.prev_hash q.prev_hash))

payload_eq→eq : (p q : Payload) → payload_eq p q ≡ true → p ≡ q
unfolding payload_eq
payload_eq→eq p q h =
    let seqs = ==→eq p.seq q.seq (ground (arith, h)) in
    let events = (eq_iff p.event q.event).0 (ground (arith, h)) in
    let details = (eq_iff p.details q.details).0 (ground (arith, h)) in
    let hashes = (eq_iff p.prev_hash q.prev_hash).0 (ground (arith, h)) in
    λ i. record { seq = seqs i; event = events i; details = details i; prev_hash = hashes i }

payload_eq_refl : (p : Payload) → payload_eq p p ≡ true
unfolding payload_eq
payload_eq_refl p =
    ground (arith, ==_refl p.seq, eq_refl p.event, eq_refl p.details, eq_refl p.prev_hash)

payload_cases : (p q : Payload) → (p ≡ q) ⊎ (p ≢ q)
payload_cases p q = elim (Bool-cases (payload_eq p q)) [
  | inl e ↦ inl (payload_eq→eq p q e)
  | inr e ↦ inr (λ same. absurd (ground (arith, e, payload_eq_refl p, ap (payload_eq p) same)))
]

-- An entry is its payload and its hash.
entry_eq : (e f : AuditLogEntry) → payload_of e ≡ payload_of f → e.entry_hash ≡ f.entry_hash → e ≡ f
entry_eq e f p h = λ i. record {
  seq = (p i).seq;
  event = (p i).event;
  details = (p i).details;
  prev_hash = (p i).prev_hash;
  entry_hash = h i;
}

module _ (digest : Payload → String) where
  chains_agree :
      (prev prev' : String) (n : ℕ) (es fs : List AuditLogEntry)
      → verify_from digest prev n es ≡ true
      → verify_from digest prev' n fs ≡ true
      → length es ≡ length fs
      → final prev es ≡ final prev' fs
      → ((prev ≡ prev') × (es ≡ fs)) ⊎ Collision digest
  chains_agree prev prev' n [] [] h k same_length e = inl (e, refl)
  chains_agree prev prev' n [] (f ∷ fs) h k same_length e = absurd (omega (arith, same_length))
  chains_agree prev prev' n (e ∷ es) [] h k same_length t = absurd (omega (arith, same_length))
  chains_agree prev prev' n (e ∷ es) (f ∷ fs) h k same_length t =
      let l = IsLink-of digest prev n e es h in
      let m = IsLink-of digest prev' n f fs k in
      elim (chains_agree e.entry_hash f.entry_hash (n + 1) es fs l.1 m.1
        (omega (arith, same_length)) t) [
          | inr collision ↦ inr collision
          | inl (hashes, rest) ↦ elim (payload_cases (payload_of e) (payload_of f)) [
            | inl p ↦ inl (
              sym l.0.chained ∙ ap (λ q. q.prev_hash) p ∙ m.0.chained,
              λ i. entry_eq e f p hashes i ∷ rest i,
            )
            | inr apart ↦ inr (record {
              left = payload_of e;
              right = payload_of f;
              apart = apart;
              same = l.0.committed ∙ hashes ∙ sym m.0.committed;
            })
          ]
        ]

  -- Two tables of the same size whose chains are both intact and end in the same hash hold the
  -- same entries in the order of their numbers, or else the proof hands over two different payloads
  -- with one hash. The hash function is any.
  pub tamper_evident :
      (rows others : List AuditLogEntry)
      → verify_audit_chain digest rows ≡ true
      → verify_audit_chain digest others ≡ true
      → length (order_by_seq rows) ≡ length (order_by_seq others)
      → final genesis (order_by_seq rows) ≡ final genesis (order_by_seq others)
      → (order_by_seq rows ≡ order_by_seq others) ⊎ Collision digest
  unfolding verify_audit_chain
  tamper_evident rows others h k same_length e =
      elim (chains_agree genesis genesis 1 (order_by_seq rows) (order_by_seq others) h k same_length
        e) [ inl (start, same) ↦ inl same | inr collision ↦ inr collision ]
