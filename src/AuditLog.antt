-- ===== src/AuditLog.antt =====
-- api/app/audit_log.py: the hash-chained audit log. The hash (sha256 over the canonical JSON of
-- app/fraud_proof.py) is a parameter, and the data of an event (`details`) is its canonical text. The table is a
-- list of rows in any order; the queries order it by sequence number.
pub mod Chain
pub mod Tamper
mod Tests
use gridix_infra.Prelude.{
  ℕ, Bool, true, false, not, ◌||◌, ◌==◌, ◌+◌, Option, none, some, String, List, [], ◌∷◌, ◌++◌,
  if◌then◌else◌, str_eq, leb,
}

-- What an entry's hash commits to.
pub record Payload : Type 0 where
  pub seq : ℕ
  pub event : String
  pub details : String
  pub prev_hash : String

pub record AuditLogEntry : Type 0 where
  pub seq : ℕ
  pub event : String
  pub details : String
  pub prev_hash : String
  pub entry_hash : String

abbrev pub genesis : String
genesis = "0000000000000000000000000000000000000000000000000000000000000000"

abbrev pub payload_of : AuditLogEntry → Payload
payload_of e = record { seq = e.seq; event = e.event; details = e.details; prev_hash = e.prev_hash }

-- `ORDER BY seq`
abbrev pub insert : AuditLogEntry → List AuditLogEntry → List AuditLogEntry
insert e [] = e ∷ []
insert e (f ∷ fs) = let rest = insert e fs in if leb e.seq f.seq then e ∷ f ∷ fs else f ∷ rest

abbrev pub order_by_seq : List AuditLogEntry → List AuditLogEntry
order_by_seq [] = []
order_by_seq (e ∷ es) = insert e (order_by_seq es)

abbrev pub last : List AuditLogEntry → Option AuditLogEntry
last [] = none
last (e ∷ []) = some e
last (e ∷ f ∷ fs) = last (f ∷ fs)

abbrev pub next_seq : Option AuditLogEntry → ℕ
next_seq none = 1
next_seq (some l) = l.seq + 1

abbrev pub hash_of : Option AuditLogEntry → String
hash_of none = genesis
hash_of (some l) = l.entry_hash

module _ (digest : Payload → String) where
  -- `_entry_hash`
  abbrev pub entry_hash : ℕ → String → String → String → String
  entry_hash seq event details prev_hash =
      digest (record { seq = seq; event = event; details = details; prev_hash = prev_hash })

  abbrev pub next_entry : Option AuditLogEntry → String → String → AuditLogEntry
  next_entry previous event details = record {
    seq = next_seq previous;
    event = event;
    details = details;
    prev_hash = hash_of previous;
    entry_hash = entry_hash (next_seq previous) event details (hash_of previous);
  }

  -- The new entry, and the table with it.
  unfoldable pub append_audit :
      List AuditLogEntry → String → String → AuditLogEntry × List AuditLogEntry
  append_audit rows event details =
      let entry = next_entry (last (order_by_seq rows)) event details in (entry, rows ++ entry ∷ [])

  -- The loop, from the previous hash and the expected number.
  unfoldable pub verify_from : String → ℕ → List AuditLogEntry → Bool
  verify_from prev expected_seq [] = true
  verify_from prev expected_seq (e ∷ es) =
      let rest = verify_from e.entry_hash (expected_seq + 1) es in
      if not (e.seq == expected_seq) || not (str_eq e.prev_hash prev)
      then false
      else if not (str_eq (entry_hash e.seq e.event e.details e.prev_hash) e.entry_hash)
      then false
      else rest

  unfoldable pub verify_audit_chain : List AuditLogEntry → Bool
  verify_audit_chain rows = verify_from genesis 1 (order_by_seq rows)
