-- ===== src/EventStore/Log/Reopen.antt =====
-- Closing and opening again: what the constructor builds from the file of a store.
use turtle_qts_execution.Base.{
  map, Bool, false, bind, if◌then◌else◌, ◌&&◌, err, Error, ℕ, ◌+◌, ◌^◌, ◌<◌, ◌≡◌, refl, ap, sym,
  ◌∙◌, true, false, Option, none, some, List, [], ◌∷◌, ◌++◌, append_assoc, append-nil, Text, Fields,
  obj, Outcome, ok, arith, length, take, Dict, insert, ◌==◌, take-append, lt→ltb,
}
use turtle_qts_execution.EventStore.Types.{Event, EventType}
use turtle_qts_execution.EventStore.Codec.{Bytes}
use turtle_qts_execution.EventStore.Platform.{Platform, Disk}
use turtle_qts_execution.EventStore.Store.{
  EventStore, envelope, record_bytes, new_event, append, record_event, index_key,
}
use turtle_qts_execution.EventStore.Store.Append.{IsAligned, Appended, append-Appended}
use turtle_qts_execution.EventStore.Log.{
  follows, index_by_id, index_keys, next_id, open_store, Opening, cut_tail,
}
use turtle_qts_execution.EventStore.Canonical.{canonical, stored}
use turtle_qts_execution.EventStore.Log.Recovery.{
  IsLoggable, IsLog, log_bytes, last_id, scan_file_whole, scan_file_torn,
}

-- The file holds the records of the store's events, and the indexes are those of the events.
pub record IsDurable (p : Platform) (s : EventStore) : Type 0 where
  pub content : s.file.content ≡ log_bytes p s.events
  pub log : IsLog p none s.events
  pub ids : s.by_id ≡ index_by_id s.events []
  pub keys : s.idempotency_index ≡ index_keys s.events []
  pub next : s.next_event_id ≡ next_id s.events

-- The store that opening a durable store's file gives: the fields of each payload are sorted.
abbrev pub reopened : EventStore → EventStore
reopened s = record s {
  file = record { content = s.file.content; position = length s.file.content };
  events = map stored s.events;
  by_id = index_by_id (map stored s.events) [];
  closed = false;
}

index_keys-stored :
    (es : List Event) (d : Dict Text ℕ) → index_keys (map stored es) d ≡ index_keys es d
unfolding index_keys
index_keys-stored [] d = refl
index_keys-stored (e ∷ es) d = index_keys-stored es (index_key e.idempotency_key e.event_id d)

next_id-stored : (es : List Event) → next_id (map stored es) ≡ next_id es
unfolding next_id
next_id-stored [] = refl
next_id-stored (e ∷ []) = refl
next_id-stored (e ∷ (f ∷ es)) = next_id-stored (f ∷ es)

log_bytes-append :
    (p : Platform) (es : List Event) (e : Event)
    → log_bytes p (es ++ e ∷ []) ≡ log_bytes p es ++ record_bytes p e
log_bytes-append p [] e = append-nil _
log_bytes-append p (x ∷ es) e = rw (log_bytes-append p es e, append_assoc)

index_by_id-append :
    (es : List Event) (e : Event) (d : Dict ℕ Event)
    → index_by_id (es ++ e ∷ []) d ≡ insert ◌==◌ e.event_id e (index_by_id es d)
unfolding index_by_id
index_by_id-append [] e d = refl
index_by_id-append (x ∷ es) e d = index_by_id-append es e (insert ◌==◌ x.event_id x d)

index_keys-append :
    (es : List Event) (e : Event) (d : Dict Text ℕ)
    → index_keys (es ++ e ∷ []) d ≡ index_key e.idempotency_key e.event_id (index_keys es d)
unfolding index_keys
index_keys-append [] e d = refl
index_keys-append (x ∷ es) e d = index_keys-append es e (index_key x.idempotency_key x.event_id d)

next_id-append : (es : List Event) (e : Event) → next_id (es ++ e ∷ []) ≡ e.event_id + 1
unfolding next_id
next_id-append [] e = refl
next_id-append (x ∷ []) e = refl
next_id-append (x ∷ (y ∷ es)) e = next_id-append (y ∷ es) e

follows_last :
    (x : Event) (es : List Event) → follows (last_id (some x.event_id) es) (next_id (x ∷ es)) ≡ true
unfolding next_id
follows_last x [] = ground arith
follows_last x (y ∷ es) = follows_last y es

follows_next : (es : List Event) → follows (last_id none es) (next_id es) ≡ true
unfolding next_id
follows_next [] = refl
follows_next (x ∷ es) = follows_last x es

IsLog-append :
    (p : Platform) (last : Option ℕ) (es : List Event) (e : Event)
    → IsLog p last es
    → follows (last_id last es) e.event_id ≡ true
    → IsLoggable p e
    → IsLog p last (es ++ e ∷ [])
IsLog-append p last [] e h f l = (f, l, tt)
IsLog-append p last (x ∷ es) e h f l = (h.0, h.1, IsLog-append p (some x.event_id) es e h.2 f l)

module _ (p : Platform) (disk : Disk) (now : Text) (event_type : EventType) (payload : Fields)
    (key : Option Text) where
  Appended-IsDurable :
      (s : EventStore) (e : Event) (r : Outcome Event × EventStore)
      → e ≡ new_event s now event_type payload key
      → Appended p disk s e r
      → IsAligned s
      → disk.truncate_works ≡ true
      → p.loads (p.dumps (obj (envelope e))) ≡ some (canonical (obj (envelope e)))
      → IsDurable p s
      → IsDurable p r.1
  unfolding new_event record_event
  Appended-IsDurable s e r eq (Appended.refused x f h back) a works rb d = rw h (record {
    content = (back a).0 works ∙ d.content;
    log = d.log;
    ids = d.ids;
    keys = d.keys;
    next = d.next;
  })
  Appended-IsDurable s e r eq (Appended.duplicate k i old _ _ _ h) a works rb d = rw h d
  Appended-IsDurable s e r eq (Appended.recorded f h hi hl written) a works rb d =
      let id : e.event_id ≡ next_id s.events = ap (λ (x : Event). x.event_id) eq ∙ d.next in
      rw h (record {
        content =
            (written a).0
            ∙ ap (λ (t : Bytes). t ++ record_bytes p e) d.content
            ∙ sym (log_bytes-append p s.events e);
        log =
            IsLog-append p none s.events e d.log (rw id (follows_next s.events))
              (record { id_fits = hi; size_fits = hl; read_back = rb });
        ids = ap (insert ◌==◌ e.event_id e) d.ids ∙ sym (index_by_id-append s.events e []);
        keys =
            ap (index_key e.idempotency_key e.event_id) d.keys
            ∙ sym (index_keys-append s.events e []);
        next =
            ap (λ (n : ℕ). n + 1) (ap (λ (x : Event). x.event_id) (sym eq))
            ∙ sym (next_id-append s.events e);
      })

  -- A store is durable where its file holds exactly the records of its events, whose ids rise and are
  -- under 2 ^ 64, whose envelopes take under 2 ^ 32 bytes and are read back by `json` with the fields of
  -- every dict sorted, and where its indexes and its next id are those of the events. An append on a
  -- durable store whose descriptor stands at the end of the file leaves a durable store, whatever the
  -- outcome and whatever the writes and the syncs do, where the `os.ftruncate` of a rollback succeeds
  -- and `json` reads back the new event's envelope with the fields of every dict sorted.
  pub append-IsDurable :
      (s : EventStore)
      → IsAligned s
      → disk.truncate_works ≡ true
      → p.loads (p.dumps (obj (envelope (new_event s now event_type payload key))))
        ≡ some (canonical (obj (envelope (new_event s now event_type payload key))))
      → IsDurable p s
      → IsDurable p (append p disk now event_type payload key s).1
  append-IsDurable s a works rb d =
      Appended-IsDurable s (new_event s now event_type payload key) _ refl
        (append-Appended p disk now event_type payload key s) a works rb d

bind-if {ℓ κ} :
    {A : Type ℓ} {B : Type κ} (b : Bool) (a : A) (x : Error) (k : A → Outcome B)
    → bind (if b then ok a else err x) k ≡ (if b then k a else err x)
bind-if true a x k = refl
bind-if false a x k = refl

module _ (p : Platform) (length-sha256 : (b : Bytes) → length (p.sha256 b) ≡ 32) (s : EventStore)
    (d : IsDurable p s) where
  -- A store is durable where its file holds exactly the records of its events, whose ids rise and are
  -- under 2 ^ 64, whose envelopes take under 2 ^ 32 bytes and are read back by `json` with the fields of
  -- every dict sorted, and where its indexes and its next id are those of the events. Opening the file
  -- of a durable store, where the lock is free, gives a store with its events, the fields of their
  -- payloads sorted, its keys and its next id, leaves the file as it is, and reports no torn tail.
  -- SHA-256 digests have 32 bytes.
  pub open_store-IsDurable :
      (o : Opening)
      → o.lock_acquired ≡ true
      → open_store p o (some s.file.content)
        ≡ ok (
          reopened s,
          record {
            valid_event_count = length s.events;
            tail_truncated = false;
            discarded_byte_count = 0;
          },
        )
  unfolding open_store cut_tail
  open_store-IsDurable o free = rw (
    free,
    d.content,
    scan_file_whole p length-sha256 s.events d.log,
    d.keys,
    d.next,
    index_keys-stored s.events [],
    next_id-stored s.events,
  )

  -- Crash in the middle of an append. A store is durable where its file holds exactly the records of its
  -- events, whose ids rise and are under 2 ^ 64, whose envelopes take under 2 ^ 32 bytes and are read
  -- back by `json` with the fields of every dict sorted, and where its indexes and its next id are those
  -- of the events. Where the file of a durable store is followed by a first part, neither empty nor
  -- whole, of the record of any event whose envelope takes less than 2 ^ 32 bytes, opening it, where the
  -- lock is free, cuts that part off the file again, gives the store's events, the fields of their
  -- payloads sorted, its keys and its next id, and reports the part's length; where the cut or the sync
  -- after it fails, it raises OSError. SHA-256 digests have 32 bytes.
  pub open_store_torn :
      (o : Opening) (e : Event) (k : ℕ)
      → o.lock_acquired ≡ true
      → length (p.dumps (obj (envelope e))) < 2 ^ 32
      → 0 < k
      → k < length (record_bytes p e)
      → open_store p o (some (s.file.content ++ take k (record_bytes p e))) ≡ (
          if o.truncate_works && o.fsync_works
          then ok (
            reopened s,
            record {
              valid_event_count = length s.events;
              tail_truncated = true;
              discarded_byte_count = k;
            },
          )
          else err Error.os_error)
  unfolding open_store cut_tail
  open_store_torn o e k free fits hk kl =
      rw
        (
          free,
          d.content,
          scan_file_torn p length-sha256 s.events e k d.log fits hk kl,
          d.keys,
          d.next,
          index_keys-stored s.events [],
          next_id-stored s.events,
          lt→ltb 0 k hk,
          take-append (log_bytes p s.events) (take k (record_bytes p e)),
        )
        (bind-if (o.truncate_works && o.fsync_works) _ _ _)
