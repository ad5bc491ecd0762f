-- ===== src/Tests.antt =====
-- Concrete runs: a theorem of each component, applied to data of this module.
pub mod Machines
pub mod Risk
pub mod Managers
pub mod Started
pub mod Orders
pub mod Exchange
pub mod Neighbours
pub mod Books
use turtle_qts_execution.Base.{
  ℕ, ◌<◌, ◌≤◌, ◌^◌, ◌≡◌, ◌≢◌, refl, true, false, Bool, not, inl, inr, none, some, Option, List, [],
  ◌∷◌, ◌++◌, Text, codes, Json, obj, Fields, end, length, take, arith, Outcome, ok, err, Run, stay,
  step, visits, out_of_fuel, corrupt_event_store, is_some, ℤ, pos, Decimal, dec, if◌then◌else◌,
  bind,
}
use turtle_qts_execution.EventStore.Types.{Event, EventType}
use turtle_qts_execution.EventStore.Codec.{
  Bytes, frame, header, pack_be, encode_record, decode_record, record_read, incomplete,
}
use turtle_qts_execution.EventStore.Platform.{Platform, Disk, File, zeros}
use turtle_qts_execution.EventStore.Store.{
  EventStore, envelope, record_bytes, new_event, append, record_event, write_record,
}
use turtle_qts_execution.EventStore.Store.Append.{Appended, append-Appended}
use turtle_qts_execution.EventStore.Codec.RoundTrip.{decode_record-encode_record}
use turtle_qts_execution.EventStore.Codec.Torn.{decode_record-torn}
use turtle_qts_execution.EventStore.Canonical.{canonical, sort_fields, insert_field, text_le}
use turtle_qts_execution.EventStore.Log.{
  open_store, Opening, scan_file, next_id, index_by_id, index_keys,
}
use turtle_qts_execution.EventStore.Log.Fuel.{scan_file-ne-out_of_fuel}
use turtle_qts_execution.EventStore.Log.Reopen.{
  IsDurable, reopened, append-IsDurable, open_store-IsDurable, open_store_torn,
}
use turtle_qts_execution.EventStore.Log.Stranded.{short_write, no_write, failed_appends_corrupt}

abbrev digest : Bytes
digest =
    0 ∷ 0 ∷ 0 ∷ 0 ∷ 0 ∷ 0 ∷ 0 ∷ 0 ∷ 0 ∷ 0 ∷ 0 ∷ 0 ∷ 0 ∷ 0 ∷ 0 ∷ 0 ∷ 0 ∷ 0 ∷ 0 ∷ 0 ∷ 0 ∷ 0 ∷ 0 ∷ 0
    ∷ 0 ∷ 0 ∷ 0 ∷ 0 ∷ 0 ∷ 0 ∷ 0 ∷ 0 ∷ []

abbrev pub clock : Text
clock = codes "2025-01-01T00:00:00+00:00"

abbrev pub empty_store : EventStore
empty_store = record {
  file = record { content = []; position = 0 };
  events = [];
  by_id = [];
  idempotency_index = [];
  next_event_id = 1;
  closed = false;
}

abbrev pub key : Option Text
key = some (codes "k-1")

abbrev first_event : Event
first_event = record {
  event_id = 1;
  event_type = EventType.order_submitted;
  timestamp_utc = clock;
  schema_version = 1;
  idempotency_key = key;
  payload = end;
}

-- `dumps` gives "{}" for everything, and `loads` the one envelope of these tests.
abbrev pub platform : Platform
platform = record {
  dumps = λ _. 123 ∷ 125 ∷ [];
  loads = λ _. some (canonical (obj (envelope first_event)));
  sha256 = λ _. digest;
  lower = λ s. s;
}

abbrev pub disk : Disk
disk = record {
  writes = 1000 ∷ [];
  fsync_works = true;
  truncate_works = true;
  rollback_fsync_works = true;
}

empty_store-IsDurable : IsDurable platform empty_store
unfolding index_by_id index_keys next_id
empty_store-IsDurable = record { content = refl; log = tt; ids = refl; keys = refl; next = refl }

append-Appended_example :
    Appended platform disk empty_store
      (new_event empty_store clock EventType.order_submitted end key)
      (append platform disk clock EventType.order_submitted end key empty_store)
append-Appended_example =
    append-Appended platform disk clock EventType.order_submitted end key empty_store

append-IsDurable_example :
    IsDurable platform (append platform disk clock EventType.order_submitted end key empty_store).1
append-IsDurable_example =
    append-IsDurable platform disk clock EventType.order_submitted end key empty_store refl refl
      (unfold new_event in refl) empty_store-IsDurable

abbrev one_event : EventStore
one_event = (append platform disk clock EventType.order_submitted end key empty_store).1

abbrev working : Opening
working = record { lock_acquired = true; truncate_works = true; fsync_works = true }

open_store-IsDurable_example :
    open_store platform working (some one_event.file.content)
    ≡ ok (
      reopened one_event,
      record {
        valid_event_count = length one_event.events;
        tail_truncated = false;
        discarded_byte_count = 0;
      },
    )
open_store-IsDurable_example =
    open_store-IsDurable platform (λ _. refl) one_event append-IsDurable_example working refl

record-long : 5 < length (record_bytes platform first_event)
unfolding frame header pack_be
record-long = ground arith

open_store_torn_example :
    open_store platform working
      (some (one_event.file.content ++ take 5 (record_bytes platform first_event)))
    ≡ ok (
      reopened one_event,
      record {
        valid_event_count = length one_event.events;
        tail_truncated = true;
        discarded_byte_count = 5;
      },
    )
open_store_torn_example =
    open_store_torn platform (λ _. refl) one_event append-IsDurable_example working first_event 5
      refl (omega arith) (omega arith) record-long

scan_file-ne-out_of_fuel_example : scan_file platform (some (0 ∷ 0 ∷ [])) ≢ err out_of_fuel
scan_file-ne-out_of_fuel_example = scan_file-ne-out_of_fuel platform (some (0 ∷ 0 ∷ []))

failed_appends_corrupt_example :
    let f' =
      (write_record no_write
        (1 ∷ 2 ∷ [])
        (write_record (short_write 4) (1 ∷ 2 ∷ 3 ∷ 4 ∷ 5 ∷ []) empty_store.file).1).1 in
    (f'.content ≡ [] ++ zeros 4)
    × (4 ≤ 4 → scan_file platform (some f'.content) ≡ err corrupt_event_store)
failed_appends_corrupt_example =
    failed_appends_corrupt platform (λ _. refl) [] empty_store.file 4 1 (1 ∷ 2 ∷ 3 ∷ 4 ∷ 5 ∷ [])
      (2 ∷ []) tt refl refl (omega arith) (omega arith)

decode_record-encode_record_example :
    decode_record
      (λ _. digest)
      ((9 ∷ []) ++ (frame (λ _. digest) 7 (123 ∷ 125 ∷ []) ++ []))
      (length {A = ℕ} (9 ∷ []))
    ≡ record_read 7 (123 ∷ 125 ∷ []) (length (frame (λ _. digest) 7 (123 ∷ 125 ∷ [])))
decode_record-encode_record_example =
    decode_record-encode_record (λ _. digest) (λ _. refl) (9 ∷ []) (123 ∷ 125 ∷ []) [] 7
      (unfold encode_record frame header pack_be in refl)

decode_record-torn_example :
    decode_record
      (λ _. digest)
      ((9 ∷ []) ++ take 5 (frame (λ _. digest) 1 (123 ∷ 125 ∷ [])))
      (length {A = ℕ} (9 ∷ []))
    ≡ incomplete
decode_record-torn_example =
    decode_record-torn (λ _. digest) (λ _. refl) (9 ∷ []) (123 ∷ 125 ∷ []) 1 5 (omega arith)
      record-long
