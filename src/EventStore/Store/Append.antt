-- ===== src/EventStore/Store/Append.antt =====
-- The outcomes of `append`: the event is in the log and in the indexes, or nothing has changed.
use turtle_qts_execution.Base.{
  ℕ, [], append-nil, true, sym, ◌<◌, ◌^◌, ◌≡◌, refl, ap, ◌∙◌, ◌++◌, Option, none, some, Text,
  Fields, Outcome, ok, err, Error, or_raise, arith, length, inl, inr, lookup, Option-cases,
  Bool-cases, Outcome-cases, key_error, event_store_closed, text_eq, ◌==◌, obj,
}
use turtle_qts_execution.EventStore.Types.{EventType, Event}
use turtle_qts_execution.EventStore.Codec.{Bytes, encode_record}
use turtle_qts_execution.EventStore.Codec.RoundTrip.{encode_record-frame}
use turtle_qts_execution.EventStore.Platform.{Platform, File, Disk, write_full, ftruncate}
use turtle_qts_execution.EventStore.Store.{
  EventStore, envelope, new_event, record_event, write_record, finish_write, roll_back, after_write,
  append_encoded, append_new, indexed, validate_new_event, append, record_bytes,
}
use turtle_qts_execution.EventStore.Store.Envelope.{envelope_to_event-envelope}
use turtle_qts_execution.EventStore.Store.Writes.{write_full_prefix, write_full_all, ftruncate_back}

abbrev pub IsAligned : EventStore → Type 0
IsAligned s = s.file.position ≡ length s.file.content

-- A record is written whole; or the file has its old content again, unless the `os.ftruncate` of the rollback
-- raised, where some of the record may stand behind it.
abbrev Written : Disk → File → Bytes → Outcome (Unit {0}) × File → Type 0
Written disk f bytes (ok _, f') =
    (f'.content ≡ f.content ++ bytes) × (f'.position ≡ length f'.content)
Written disk f bytes (err x, f') =
    (disk.truncate_works ≡ true → f'.content ≡ f.content)
    × ((written : Bytes) × (f'.content ≡ f.content ++ written))

-- What a call that raises leaves in the file of a store whose descriptor stood at its end: the content is
-- the same, where the `os.ftruncate` of a rollback succeeds; and it is kept in front of what was written.
abbrev pub Kept : Disk → EventStore → File → Type 0
Kept disk s f =
    IsAligned s
    → (disk.truncate_works ≡ true → f.content ≡ s.file.content)
      × ((written : Bytes) × (f.content ≡ s.file.content ++ written))

pub same-Kept : (disk : Disk) (s : EventStore) → Kept disk s s.file
same-Kept disk s a = (λ _. refl, ([], sym (append-nil s.file.content)))

roll_back-Written :
    (disk : Disk) (x : Error) (f f' : File) (bytes written : Bytes)
    → f.position ≡ length f.content
    → f'.content ≡ f.content ++ written
    → Written disk f bytes (roll_back disk f.position x f')
unfolding roll_back
roll_back-Written disk x f f' bytes written h e =
    let back : (ftruncate f' f.position).content ≡ f.content =
      rw h (ftruncate_back f' f.content written e) in
    let there : f.content ≡ f.content ++ [] = sym (append-nil f.content) in
    elim (Bool-cases disk.truncate_works) [
      | inl works ↦ elim (Bool-cases disk.rollback_fsync_works) [
        | inl synced ↦ rw (works, synced) (λ _. back, ([], back ∙ there))
        | inr unsynced ↦ rw (works, unsynced) (λ _. back, ([], back ∙ there))
      ]
      | inr fails ↦ rw fails (λ works. cc works, (written, e))
    ]

finish_write-Written :
    (disk : Disk) (bytes written : Bytes) (f : File) (r : Outcome (Unit {0}) × File)
    → f.position ≡ length f.content
    → r.1.content ≡ f.content ++ written
    → (r.0 ≡ ok tt → Written disk f bytes (ok tt, r.1))
    → Written disk f bytes (finish_write disk f.position r)
unfolding finish_write
finish_write-Written disk bytes written f (err x, g) h e all =
    roll_back-Written disk x f g bytes written h e
finish_write-Written disk bytes written f (ok u, g) h e all = elim (Bool-cases disk.fsync_works) [
  | inl synced ↦ rw synced (all refl)
  | inr unsynced ↦ rw unsynced (roll_back-Written disk Error.os_error f g bytes written h e)
]

write_record-Written :
    (disk : Disk) (bytes : Bytes) (f : File)
    → f.position ≡ length f.content
    → Written disk f bytes (write_record disk bytes f)
unfolding write_record
write_record-Written disk bytes f h =
    let (written, e) = write_full_prefix disk.writes bytes f in
    finish_write-Written disk bytes written f (write_full disk.writes bytes f) h e
      (λ whole. write_full_all disk.writes bytes f whole h)

-- What a call of `append` with the event `e` to record may give on the store `s`.
pub data Appended (p : Platform) (disk : Disk) (s : EventStore) (e : Event)
    (r : Outcome Event × EventStore) : Type 0 where
  -- It raises, and only the file may have changed.
  refused :
      (x : Error) (f : File)
      → r ≡ (err x, record s { file = f })
      → Kept disk s f
      → Appended p disk s e r
  -- The key is known: the event of that key is returned.
  duplicate :
      (k : Text) (i : ℕ) (old : Event)
      → e.idempotency_key ≡ some k
      → lookup text_eq k s.idempotency_index ≡ some i
      → lookup ◌==◌ i s.by_id ≡ some old
      → r ≡ (ok old, s)
      → Appended p disk s e r
  -- The event is new and recorded.
  recorded :
      (f : File)
      → r ≡ (ok e, record_event (record s { file = f }) e)
      → e.event_id < 2 ^ 64
      → length (p.dumps (obj (envelope e))) < 2 ^ 32
      → (IsAligned s
          → (f.content ≡ s.file.content ++ record_bytes p e) × (f.position ≡ length f.content))
      → Appended p disk s e r

after_write-Appended :
    (p : Platform) (disk : Disk) (e : Event) (s : EventStore) (bytes : Bytes)
    (w : Outcome (Unit {0}) × File)
    → bytes ≡ record_bytes p e
    → e.event_id < 2 ^ 64
    → length (p.dumps (obj (envelope e))) < 2 ^ 32
    → (IsAligned s → Written disk s.file bytes w)
    → Appended p disk s e (after_write e s w)
unfolding after_write
after_write-Appended p disk e s bytes (err x, f) eb hi hl h = Appended.refused x f refl h
after_write-Appended p disk e s bytes (ok _, f) eb hi hl h =
    rw (envelope_to_event-envelope e, after_write)
      (Appended.recorded f refl hi hl (λ a. ((h a).0 ∙ ap (◌++◌ s.file.content) eb, (h a).1)))

append_encoded-Appended :
    (p : Platform) (disk : Disk) (e : Event) (s : EventStore) (encoded : Outcome Bytes)
    → encode_record p.sha256 e.event_id (p.dumps (obj (envelope e))) ≡ encoded
    → Appended p disk s e (append_encoded disk e s encoded)
unfolding append_encoded
append_encoded-Appended p disk e s (err x) h = Appended.refused x s.file refl (same-Kept disk s)
append_encoded-Appended p disk e s (ok bytes) h =
    let (eb, hi, hl) = encode_record-frame p.sha256 e.event_id (p.dumps (obj (envelope e))) h in
    after_write-Appended p disk e s bytes (write_record disk bytes s.file) eb hi hl
      (write_record-Written disk bytes s.file)

append_keyed :
    (p : Platform) (disk : Disk) (e : Event) (s : EventStore) (i : Option ℕ)
    → indexed s e.idempotency_key ≡ i
    → Appended p disk s e (elim i [
      | some event_id ↦ (or_raise (lookup ◌==◌ event_id s.by_id) key_error, s)
      | none ↦ append_new p disk e s
    ])
unfolding append_new indexed
append_keyed p disk e s none h = append_encoded-Appended p disk e s _ refl
append_keyed p disk e s (some i) h = elim (Option-cases (lookup ◌==◌ i s.by_id)) [
  | inl missing ↦ rw missing (Appended.refused key_error s.file refl (same-Kept disk s))
  | inr (old, found) ↦ elim (Option-cases e.idempotency_key) [
    | inl no_key ↦ absurd (grind arith)
    | inr (k, has_key) ↦ rw found (Appended.duplicate k i old has_key (rw has_key at h) found refl)
  ]
]

-- `append` raises and changes nothing but the file: where the descriptor stood at its end, the content is
-- the same if the `os.ftruncate` of a rollback succeeds, and in any case the old content followed by
-- some bytes; or it returns the event that its idempotency key names and changes nothing; or it
-- records the new event in the log and the indexes, and, where the descriptor stood at the end, puts
-- the event's record at the end of the file.
pub append-Appended :
    (p : Platform) (disk : Disk) (now : Text) (event_type : EventType) (payload : Fields)
    (key : Option Text) (s : EventStore)
    → Appended p disk s
        (new_event s now event_type payload key)
        (append p disk now event_type payload key s)
unfolding append new_event
append-Appended p disk now event_type payload key s = elim (Bool-cases s.closed) [
  | inl c ↦ simp c (Appended.refused event_store_closed s.file refl (same-Kept disk s))
  | inr c ↦ simp c (elim (Outcome-cases (validate_new_event p payload key 1)) [
    | inr (x, e) ↦ rw e (Appended.refused x s.file refl (same-Kept disk s))
    | inl (_, e) ↦
        rw e (append_keyed p disk (new_event s now event_type payload key) s (indexed s key) refl)
  ])
]
