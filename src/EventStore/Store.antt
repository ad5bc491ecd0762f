-- ===== src/EventStore/Store.antt =====
-- event_store/store.py: validation, `append`, `replay` and the look-ups of `class EventStore`. Each call
-- is one critical section under the store's lock. The clock is the argument `now`.
pub mod Writes
pub mod Envelope
pub mod Append
pub mod Reading
use turtle_qts_execution.Base.{
  ℕ, ◌+◌, ◌*◌, Bool, true, false, ◌&&◌, ◌||◌, Option, none, some, List, [], ◌∷◌, ◌++◌, Text, codes,
  text_eq, is_blank, Json, null, int, str, arr, obj, Items, nil, item, Fields, end, field, get,
  Outcome, ok, err, Error, malformed_event, event_store_closed, value_error, key_error, or_raise,
  bind, length, ltb, leb, ◌==◌, if◌then◌else◌, Dict, lookup, insert, keep, is_some, of_value,
}
use turtle_qts_execution.EventStore.Types.{EventType, event_types, Event}
use turtle_qts_execution.EventStore.Codec.{Bytes, encode_record, frame}
use turtle_qts_execution.EventStore.Platform.{Platform, File, Disk, ftruncate, write_full}

abbrev pub max_payload_bytes : ℕ
max_payload_bytes = 256 * 1024

abbrev pub max_idempotency_key_length : ℕ
max_idempotency_key_length = 200

abbrev pub forbidden_key_substrings : List Text
forbidden_key_substrings =
    codes "secret"
    ∷ codes "private_key"
    ∷ codes "priv_key"
    ∷ codes "password"
    ∷ codes "passphrase"
    ∷ codes "api_key"
    ∷ codes "signing_key"
    ∷ codes "mnemonic"
    ∷ codes "seed_phrase"
    ∷ []

starts_with : Text → Text → Bool
starts_with [] s = true
starts_with (c ∷ p) [] = false
starts_with (c ∷ p) (d ∷ s) = c == d && starts_with p s

-- `bad in lowered`
contains : Text → Text → Bool
unfolding starts_with
contains p [] = starts_with p []
contains p (d ∷ s) = starts_with p (d ∷ s) || contains p s

contains_any : List Text → Text → Bool
unfolding contains
contains_any [] s = false
contains_any (p ∷ ps) s = contains p s || contains_any ps s

-- `_scan_forbidden_keys`: whether some field name, at any depth, suggests a secret. The path that the
-- source returns serves its message only.
unfoldable mutual
  unfolding contains_any

  pub scan_forbidden : (Text → Text) → Json → Bool
  scan_forbidden lower (obj fs) = scan_fields lower fs
  scan_forbidden lower (arr xs) = scan_items lower xs
  scan_forbidden lower null = false
  scan_forbidden lower (Json.bool b) = false
  scan_forbidden lower (int n) = false
  scan_forbidden lower (str s) = false

  pub scan_items : (Text → Text) → Items → Bool
  scan_items lower nil = false
  scan_items lower (item x xs) = scan_forbidden lower x || scan_items lower xs

  pub scan_fields : (Text → Text) → Fields → Bool
  scan_fields lower end = false
  scan_fields lower (field k v fs) =
      contains_any forbidden_key_substrings (lower k)
      || (scan_forbidden lower v || scan_fields lower fs)

pub record EventStore : Type 0 where
  pub file : File
  pub events : List Event
  pub by_id : Dict ℕ Event
  pub idempotency_index : Dict Text ℕ
  pub next_event_id : ℕ
  pub closed : Bool

key_is_malformed : Option Text → Bool
key_is_malformed none = false
key_is_malformed (some k) = is_blank k || ltb max_idempotency_key_length (length k)

-- `_validate_new_event`; the types of its arguments are those of the signature.
unfoldable pub validate_new_event : Platform → Fields → Option Text → ℕ → Outcome (Unit {0})
unfolding key_is_malformed
validate_new_event p payload key schema_version =
    if ltb schema_version 1 || key_is_malformed key
    then err malformed_event
    else if scan_forbidden p.lower (obj payload)
    then err malformed_event
    else if ltb max_payload_bytes (length (p.dumps (obj payload)))
    then err malformed_event
    else ok tt

optional_str : Option Text → Json
optional_str none = null
optional_str (some s) = str s

-- The `envelope` that `append` writes for an event.
unfoldable pub envelope : Event → Fields
unfolding optional_str
envelope e = field (codes "event_type") (str (event_types.value e.event_type)) (
    field (codes "timestamp_utc") (str e.timestamp_utc) (
      field (codes "schema_version") (int e.schema_version) (
        field (codes "idempotency_key") (optional_str e.idempotency_key)
          (field (codes "payload") (obj e.payload) end))))

-- The bytes that `append` writes for an event.
abbrev pub record_bytes : Platform → Event → Bytes
record_bytes p e = frame p.sha256 e.event_id (p.dumps (obj (envelope e)))

expect_str : Option Json → Outcome Text
expect_str (some (str s)) = ok s
expect_str _ = err value_error

expect_int : Option Json → Outcome ℕ
expect_int (some (int n)) = ok n
expect_int _ = err value_error

expect_obj : Option Json → Outcome Fields
expect_obj (some (obj fs)) = ok fs
expect_obj _ = err value_error

-- `envelope.get("idempotency_key")`
optional_key : Option Json → Outcome (Option Text)
optional_key none = ok none
optional_key (some null) = ok none
optional_key (some (str s)) = ok (some s)
optional_key _ = err value_error

-- `_envelope_to_event`; an envelope of other types than `append` writes raises.
unfoldable pub envelope_to_event : ℕ → Fields → Outcome Event
unfolding expect_str expect_int expect_obj optional_key
envelope_to_event event_id env = bind (expect_str (get (codes "event_type") env)) λ raw.
    bind (or_raise (of_value event_types raw) value_error) λ event_type.
      bind (expect_str (get (codes "timestamp_utc") env)) λ timestamp.
        bind (expect_int (get (codes "schema_version") env)) λ version.
          bind (optional_key (get (codes "idempotency_key") env)) λ key.
            bind (expect_obj (get (codes "payload") env)) λ payload. ok (record {
              event_id = event_id;
              event_type = event_type;
              timestamp_utc = timestamp;
              schema_version = version;
              idempotency_key = key;
              payload = payload;
            })

-- `get_by_idempotency_key`
unfoldable pub get_by_idempotency_key : EventStore → Text → Option Event
get_by_idempotency_key s key = elim (lookup text_eq key s.idempotency_index) [
  | none ↦ none
  | some event_id ↦ lookup ◌==◌ event_id s.by_id
]

-- `has_idempotency_key`
unfoldable pub has_idempotency_key : EventStore → Text → Bool
has_idempotency_key s key = is_some (lookup text_eq key s.idempotency_index)

unfoldable pub index_key : Option Text → ℕ → Dict Text ℕ → Dict Text ℕ
index_key none event_id index = index
index_key (some k) event_id index = insert text_eq k event_id index

-- `idempotency_key is not None and idempotency_key in self._idempotency_index`
indexed : EventStore → Option Text → Option ℕ
indexed s none = none
indexed s (some k) = lookup text_eq k s.idempotency_index

-- The in-memory update of `append`, once the record is on disk.
unfoldable pub record_event : EventStore → Event → EventStore
unfolding index_key
record_event s e = record s {
  events = s.events ++ e ∷ [];
  by_id = insert ◌==◌ e.event_id e s.by_id;
  idempotency_index = index_key e.idempotency_key e.event_id s.idempotency_index;
  next_event_id = s.next_event_id + 1;
}

-- The rollback of a write that raised `x`; where its own calls raise, that exception is the one that is seen.
unfoldable pub roll_back : Disk → ℕ → Error → File → Outcome (Unit {0}) × File
roll_back disk pre_write_offset x f =
    if disk.truncate_works
    then (
      if disk.rollback_fsync_works then err x else err Error.os_error,
      ftruncate f pre_write_offset,
    )
    else (err Error.os_error, f)

-- What follows `_write_full` on the record: the sync, or the rollback.
unfoldable pub finish_write : Disk → ℕ → Outcome (Unit {0}) × File → Outcome (Unit {0}) × File
unfolding roll_back
finish_write disk pre_write_offset (err x, f) = roll_back disk pre_write_offset x f
finish_write disk pre_write_offset (ok _, f) =
    if disk.fsync_works then (ok tt, f) else roll_back disk pre_write_offset Error.os_error f

-- The write of one record: all of it and a sync, or a rollback to where it started.
unfoldable pub write_record : Disk → Bytes → File → Outcome (Unit {0}) × File
unfolding finish_write roll_back
write_record disk bytes f = finish_write disk f.position (write_full disk.writes bytes f)

-- The end of `append`: a record that is on disk goes into the indexes.
after_write : Event → EventStore → Outcome (Unit {0}) × File → Outcome Event × EventStore
after_write e s (err x, f') = (err x, record s { file = f' })
after_write e s (ok _, f') = elim (envelope_to_event e.event_id (envelope e)) [
  | err x ↦ (err x, record s { file = f' })
  | ok event ↦ (ok event, record_event (record s { file = f' }) event)
]

append_encoded : Disk → Event → EventStore → Outcome Bytes → Outcome Event × EventStore
unfolding after_write
append_encoded disk e s (err x) = (err x, s)
append_encoded disk e s (ok bytes) = after_write e s (write_record disk bytes s.file)

-- The append of an event that is validated and not a duplicate.
unfoldable pub append_new : Platform → Disk → Event → EventStore → Outcome Event × EventStore
unfolding append_encoded
append_new p disk e s =
    append_encoded disk e s (encode_record p.sha256 e.event_id (p.dumps (obj (envelope e))))

-- The event that `append` makes, under the next id.
unfoldable pub new_event : EventStore → Text → EventType → Fields → Option Text → Event
new_event s now event_type payload key = record {
  event_id = s.next_event_id;
  event_type = event_type;
  timestamp_utc = now;
  schema_version = 1;
  idempotency_key = key;
  payload = payload;
}

-- `append`, with the default `schema_version=1`
unfoldable pub append :
    Platform
    → Disk
    → Text
    → EventType
    → Fields
    → Option Text
    → EventStore
    → Outcome Event × EventStore
unfolding indexed append_new
append p disk now event_type payload key s =
    if s.closed then (err event_store_closed, s) else elim (validate_new_event p payload key 1) [
      | err x ↦ (err x, s)
      | ok _ ↦ elim (indexed s key) [
        | some event_id ↦ (or_raise (lookup ◌==◌ event_id s.by_id) key_error, s)
        | none ↦ append_new p disk (new_event s now event_type payload key) s
      ]
    ]

-- `replay`
unfoldable pub replay : EventStore → ℕ → Outcome (List Event)
replay s from_event_id =
    if s.closed
    then err event_store_closed
    else ok (keep (λ e. leb from_event_id e.event_id) s.events)

-- `close`
unfoldable pub close : EventStore → EventStore
close s = record s { closed = true }
