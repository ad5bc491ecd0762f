-- ===== src/EventStore/Log.antt =====
-- event_store/store.py: `_scan_file`, `read_events` and the constructor of `EventStore`.
pub mod Fuel
pub mod Recovery
pub mod Reopen
pub mod Stranded
use turtle_qts_execution.Base.{
  ℕ, zero, suc, ◌+◌, ◌-◌, Bool, true, false, not, Option, none, some, List, [], ◌∷◌, ◌++◌, Text,
  Json, obj, Fields, Outcome, ok, err, Error, bind, corrupt_event_store, event_store_lock,
  type_error, value_error, or_raise, out_of_fuel, ◌&&◌, length, take, ltb, ◌==◌, if◌then◌else◌,
  Dict, insert,
}
use turtle_qts_execution.EventStore.Types.{Event, RecoveryReport}
use turtle_qts_execution.EventStore.Codec.{
  Bytes, decode_record, record_read, incomplete, bad_magic, unsupported_version, checksum_mismatch,
}
use turtle_qts_execution.EventStore.Platform.{Platform, File, ftruncate}
use turtle_qts_execution.EventStore.Store.{EventStore, envelope_to_event, index_key}

abbrev expect_dict : Json → Outcome Fields
expect_dict (obj fs) = ok fs
expect_dict _ = err type_error

-- `json.loads` of the payload and `_envelope_to_event`
unfoldable pub read_event : Platform → ℕ → Bytes → Outcome Event
read_event p event_id payload =
    bind (or_raise (p.loads payload) value_error)
      λ j. bind (expect_dict j) λ env. envelope_to_event event_id env

-- `last_event_id is not None and event.event_id <= last_event_id`
abbrev pub follows : Option ℕ → ℕ → Bool
follows none event_id = true
follows (some last) event_id = ltb last event_id

-- What the loop leaves: the events, whether the tail was torn, and the offset reached.
abbrev pub Scanned : Type 0
Scanned = List Event × Bool × ℕ

-- The `while offset < len(data)` loop. Each round consumes a byte at least, so fuel above the length
-- of the data is enough.
unfoldable pub scan : Platform → Bytes → ℕ → ℕ → List Event → Option ℕ → Outcome Scanned
scan p buf zero offset events last = err out_of_fuel
scan p buf (suc fuel) offset events last = elim (ltb offset (length buf)) [
  | false ↦ ok (events, false, offset)
  | true ↦ elim (decode_record p.sha256 buf offset) [
    | incomplete ↦ ok (events, true, offset)
    | bad_magic ↦ err corrupt_event_store
    | unsupported_version ↦ err corrupt_event_store
    | checksum_mismatch end_offset ↦
        if end_offset == length buf then ok (events, true, offset) else err corrupt_event_store
    | record_read event_id payload consumed ↦ elim (read_event p event_id payload) [
      | err x ↦ err x
      | ok event ↦ elim (follows last event.event_id) [
        | false ↦ err corrupt_event_store
        | true ↦ scan p buf fuel (offset + consumed) (events ++ event ∷ []) (some event.event_id)
      ]
    ]
  ]
]

report_of : Bytes → Scanned → RecoveryReport
report_of buf (events, torn, offset) = record {
  valid_event_count = length events;
  tail_truncated = torn;
  discarded_byte_count = length buf - offset;
}

-- `_scan_file`, on the file's bytes, none where the file does not exist.
unfoldable pub scan_file : Platform → Option Bytes → Outcome (List Event × RecoveryReport × ℕ)
unfolding report_of
scan_file p none =
    ok ([], record { valid_event_count = 0; tail_truncated = false; discarded_byte_count = 0 }, 0)
scan_file p (some buf) =
    bind (scan p buf (suc (length buf)) 0 [] none) λ r. ok (r.0, report_of buf r, r.2)

-- `read_events`
unfoldable pub read_events : Platform → Option Bytes → Outcome (List Event × RecoveryReport)
unfolding scan_file
read_events p contents = bind (scan_file p contents) λ r. ok (r.0, r.1)

-- `{e.event_id: e for e in events}`
unfoldable pub index_by_id : List Event → Dict ℕ Event → Dict ℕ Event
index_by_id [] d = d
index_by_id (e ∷ es) d = index_by_id es (insert ◌==◌ e.event_id e d)

-- `{e.idempotency_key: e.event_id for e in events if e.idempotency_key is not None}`
unfoldable pub index_keys : List Event → Dict Text ℕ → Dict Text ℕ
index_keys [] d = d
index_keys (e ∷ es) d = index_keys es (index_key e.idempotency_key e.event_id d)

-- `(events[-1].event_id + 1) if events else 1`
unfoldable pub next_id : List Event → ℕ
next_id [] = 1
next_id (e ∷ []) = e.event_id + 1
next_id (e ∷ (e' ∷ es)) = next_id (e' ∷ es)

-- What the operating system answers while a store is opened: whether the lock is free, and whether the
-- `os.ftruncate` and the `os.fsync` of a torn tail succeed.
pub record Opening : Type 0 where
  pub lock_acquired : Bool
  pub truncate_works : Bool
  pub fsync_works : Bool

-- The cut of a torn tail: the bytes that the file has after it.
unfoldable pub cut_tail : Opening → Bytes → RecoveryReport → ℕ → Outcome Bytes
cut_tail o buf report last_valid_offset =
    if report.tail_truncated && ltb 0 report.discarded_byte_count
    then (if o.truncate_works && o.fsync_works
        then ok (take last_valid_offset buf)
        else err Error.os_error)
    else ok buf

-- `__init__`: opens the file, creating it where there is none, takes the lock, scans, cuts a torn tail
-- off, and builds the indexes.
unfoldable pub open_store :
    Platform → Opening → Option Bytes → Outcome (EventStore × RecoveryReport)
unfolding scan_file cut_tail index_by_id index_keys next_id index_key
open_store p o contents =
    let buf : Bytes = elim contents [ none ↦ [] | some b ↦ b ] in
    if not o.lock_acquired
    then err event_store_lock
    else bind (scan_file p (some buf)) λ r. bind (cut_tail o buf r.1 r.2) λ kept. ok (
      record {
        file = record { content = kept; position = length kept };
        events = r.0;
        by_id = index_by_id r.0 [];
        idempotency_index = index_keys r.0 [];
        next_event_id = next_id r.0;
        closed = false;
      },
      r.1,
    )
