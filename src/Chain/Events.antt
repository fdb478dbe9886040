-- ===== src/Chain/Events.antt =====
-- The logs that a chain's client decodes (api/app/chain/client.py) and the rows that the watcher
-- keeps of them (api/app/models.py, `ChainEvent` and `ChainCursor`).
use gridix_infra.Prelude.Sort.{sort_by}
use gridix_infra.Prelude.{
  [], ◌∷◌, String, Bool, Option, ℕ, List, true, ltb, if◌then◌else◌, str_eq, false, ◌||◌, ◌&&◌, any,
  ◌==◌, ◌++◌, leb, map, none, filter, some, not,
}

pub data EventName : Type 0 where
  deposited withdrawn debited settled slashed : EventName

-- `ChainLog`, with the three arguments that are read; an argument that the event lacks is empty.
pub record ChainLog : Type 0 where
  pub event_name : EventName
  pub tx_hash : String
  pub log_index : ℕ
  pub block_number : ℕ
  pub block_hash : String
  pub address : String
  pub developer : String
  pub provider : String
  pub amount : ℕ

-- The row of a log.
pub record ChainEvent : Type 0 where
  pub log : ChainLog
  pub confirmed : Bool
  pub processed : Bool

-- `get_block` answers the hash of a block.
pub record ChainClient : Type 0 where
  pub latest_block : Option ℕ
  pub get_block : ℕ → Option String
  pub get_logs : ℕ → ℕ → Option (List ChainLog)

pub record ChainCursor : Type 0 where
  pub last_scanned_block : ℕ
  pub head_block_hash : Option String

abbrev pub is_effectful : EventName → Bool
is_effectful EventName.deposited = true
is_effectful EventName.withdrawn = true
is_effectful _ = false

-- The order of the scan: by block, then by log.
abbrev pub precedes : ChainEvent → ChainEvent → Bool
precedes d e =
    ltb d.log.block_number e.log.block_number
    || (d.log.block_number == e.log.block_number && leb d.log.log_index e.log.log_index)

abbrev pub order_events : List ChainEvent → List ChainEvent
order_events events = sort_by precedes events

abbrev pub same_log : ChainLog → ChainLog → Bool
same_log a b = str_eq a.tx_hash b.tx_hash && a.log_index == b.log_index

abbrev pub is_seen : List ChainEvent → ChainLog → Bool
is_seen rows log = any (λ e. same_log e.log log) rows

-- The rows that step 2 of `_scan` adds: one for every log whose key no row of the table has. Rows
-- that were added before are not in the table yet.
abbrev pub new_rows : List ChainEvent → List ChainLog → List ChainEvent
new_rows rows logs =
    map (λ log. record { log = log; confirmed = false; processed = false })
      (filter (λ log. not (is_seen rows log)) logs)

abbrev pub has_twins : List ChainEvent → Bool
has_twins [] = false
has_twins (e ∷ events) = is_seen events e.log || has_twins events

-- Step 2 of `_scan` up to the flush, where two new rows with the same key violate the table's unique
-- key (`none`): `rows` is what the query finds, `events` what stays.
abbrev pub ingest : List ChainEvent → List ChainLog → List ChainEvent → Option (List ChainEvent)
ingest rows logs events =
    if has_twins (new_rows rows logs) then none else some (events ++ new_rows rows logs)
