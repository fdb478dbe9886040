-- ===== src/AuditLog/Tests.antt =====
-- Chains under a toy hash.
use gridix_infra.Prelude.{true, false, String, List, [], ◌∷◌, ◌≡◌, refl, ◌⊎◌}
use gridix_infra.AuditLog.{
  AuditLogEntry, Payload, append_audit, verify_audit_chain, order_by_seq, verify_from,
}
use gridix_infra.AuditLog.Chain.{append_audit-verifies}
use gridix_infra.AuditLog.Tamper.{tamper_evident, Collision}

-- A hash that keeps the event alone.
abbrev toy : Payload → String
toy p = p.event

abbrev one_event : List AuditLogEntry
one_event = (append_audit toy [] "login" "{}").1

abbrev two_events : List AuditLogEntry
two_events = (append_audit toy one_event "slash" "{}").1

empty_log : verify_audit_chain toy [] ≡ true
unfolding verify_audit_chain verify_from
empty_log = refl

one_event-verifies : verify_audit_chain toy one_event ≡ true
one_event-verifies = append_audit-verifies toy "login" "{}" [] empty_log

altered : verify_audit_chain toy ((append_audit toy [] "login" "{}").0 ∷ one_event) ≡ false
unfolding append_audit verify_audit_chain verify_from
altered = refl

append_audit-verifies_example : verify_audit_chain toy two_events ≡ true
append_audit-verifies_example = append_audit-verifies toy "slash" "{}" one_event one_event-verifies

tamper_evident_example : (order_by_seq one_event ≡ order_by_seq one_event) ⊎ Collision toy
tamper_evident_example =
    tamper_evident toy one_event one_event one_event-verifies one_event-verifies refl refl
