-- ===== src/EventStore/Log/Recovery.antt =====
-- What a scan finds in a file that appends have written, its last write perhaps cut short.
use turtle_qts_execution.Base.{
  map, refl, ap, ℕ, suc, ◌+◌, ◌-◌, ◌^◌, ◌<◌, ◌≤◌, ◌≡◌, ◌∙◌, true, false, Option, none, some, List,
  [], ◌∷◌, ◌++◌, append_assoc, append-nil, obj, ok, arith, length, length-append, take,
  length-take_le, lt→ltb, le→ltb,
}
use native.Mathlib.Nat.{zero-add, add-zero, suc-add, add_assoc}
use turtle_qts_execution.EventStore.Types.{Event}
use turtle_qts_execution.EventStore.Codec.{Bytes, frame}
use turtle_qts_execution.EventStore.Codec.RoundTrip.{decode_record-frame, length-frame}
use turtle_qts_execution.EventStore.Codec.Torn.{decode_record-torn}
use turtle_qts_execution.EventStore.Platform.{Platform}
use turtle_qts_execution.EventStore.Store.{envelope, record_bytes}
use turtle_qts_execution.EventStore.Store.Envelope.{envelope_to_event-sort_fields}
use turtle_qts_execution.EventStore.Canonical.{canonical, stored}
use turtle_qts_execution.EventStore.Log.{scan, scan_file, read_event, follows}

abbrev pub log_bytes : Platform → List Event → Bytes
log_bytes p [] = []
log_bytes p (e ∷ es) = record_bytes p e ++ log_bytes p es

-- The event fits its frame, and `json` reads its envelope back, the fields of every dict sorted.
pub record IsLoggable (p : Platform) (e : Event) : Type 0 where
  pub id_fits : e.event_id < 2 ^ 64
  pub size_fits : length (p.dumps (obj (envelope e))) < 2 ^ 32
  pub read_back : p.loads (p.dumps (obj (envelope e))) ≡ some (canonical (obj (envelope e)))

-- The ids rise strictly, from above `last` on, and every event is loggable.
abbrev pub IsLog : Platform → Option ℕ → List Event → Type 0
IsLog p last [] = Unit
IsLog p last (e ∷ es) =
    (follows last e.event_id ≡ true) × IsLoggable p e × IsLog p (some e.event_id) es

abbrev pub last_id : Option ℕ → List Event → Option ℕ
last_id last [] = last
last_id last (e ∷ es) = last_id (some e.event_id) es

pub length-stored : (es : List Event) → length (map stored es) ≡ length es
length-stored [] = refl
length-stored (e ∷ es) = ap suc (length-stored es)

read_event-envelope :
    (p : Platform) (e : Event)
    → IsLoggable p e
    → read_event p e.event_id (p.dumps (obj (envelope e))) ≡ ok (stored e)
unfolding read_event canonical
read_event-envelope p e h = rw h.read_back (envelope_to_event-sort_fields e)

module _ (p : Platform) (length-sha256 : (b : Bytes) → length (p.sha256 b) ≡ 32) where
  -- One round of the loop on a whole record.
  scan_record :
      (pre post : Bytes) (e : Event) (fuel : ℕ) (events : List Event) (last : Option ℕ)
      → IsLoggable p e
      → follows last e.event_id ≡ true
      → scan p (pre ++ (record_bytes p e ++ post)) (suc fuel) (length pre) events last
        ≡ scan p
            (pre ++ (record_bytes p e ++ post))
            fuel
            (length pre + length (record_bytes p e))
            (events ++ stored e ∷ [])
            (some e.event_id)
  unfolding scan
  scan_record pre post e fuel events last h fo =
      let payload = p.dumps (obj (envelope e)) in
      let size = length-frame p.sha256 length-sha256 e.event_id payload in
      let more = lt→ltb (length pre) (length (pre ++ (record_bytes p e ++ post))) (
        omega (
          arith,
          length-append pre (record_bytes p e ++ post),
          length-append (record_bytes p e) post,
          size,
        )) in
      rw (
        more,
        decode_record-frame p.sha256 length-sha256 pre payload post e.event_id h.id_fits
            h.size_fits,
        read_event-envelope p e h,
        fo,
        size,
        scan,
      )

  -- The loop over whole records, up to the point behind them.
  scan_records :
      (pre tail : Bytes) (es : List Event) (fuel : ℕ) (events : List Event) (last : Option ℕ)
      → IsLog p last es
      → scan p (pre ++ (log_bytes p es ++ tail)) (length es + fuel) (length pre) events last
        ≡ scan p
            (pre ++ (log_bytes p es ++ tail))
            fuel
            (length pre + length (log_bytes p es))
            (events ++ map stored es)
            (last_id last es)
  scan_records pre tail [] fuel events last h = rw (append-nil, zero-add, add-zero)
  scan_records pre tail (e ∷ es) fuel events last (fo, loggable, h) =
      let r = record_bytes p e in
      let l = log_bytes p es in
      let step = scan_record pre (l ++ tail) e (length es + fuel) events last loggable fo in
      let rest =
        scan_records (pre ++ r) tail es fuel (events ++ stored e ∷ []) (some e.event_id) h in
      rw (append_assoc, suc-add)
        (step
          ∙ simp (length-append, append_assoc, add_assoc)
              (simp (length-append, append_assoc, add_assoc) at rest))

  length-le-log_bytes : (es : List Event) → length es ≤ length (log_bytes p es)
  length-le-log_bytes [] = omega arith
  length-le-log_bytes (e ∷ es) = omega (
    arith,
    length-append (record_bytes p e) (log_bytes p es),
    length-frame p.sha256 length-sha256 e.event_id (p.dumps (obj (envelope e))),
    length-le-log_bytes es,
  )

  -- The whole loop on a log followed by a tail: it comes to the tail with fuel left.
  pub scan_log :
      (es : List Event) (tail : Bytes)
      → IsLog p none es
      → scan p (log_bytes p es ++ tail) (suc (length (log_bytes p es ++ tail))) 0 [] none
        ≡ scan p
            (log_bytes p es ++ tail)
            (suc (length (log_bytes p es ++ tail) - length es))
            (length (log_bytes p es))
            (map stored es)
            (last_id none es)
  scan_log es tail h =
      let n = length (log_bytes p es ++ tail) in
      let le = length-append (log_bytes p es) tail in
      let fuel : suc n ≡ length es + suc (n - length es) =
        omega (arith, le, length-le-log_bytes es) in
      rw fuel (rw zero-add at (scan_records [] tail es (suc (n - length es)) [] none h))

  scan_end :
      (buf : Bytes) (fuel : ℕ) (es : List Event) (last : Option ℕ)
      → scan p buf (suc fuel) (length buf) es last ≡ ok (es, false, length buf)
  unfolding scan
  scan_end buf fuel es last = rw (le→ltb (length buf) (length buf) (omega arith), scan)

  scan_torn :
      (pre payload : Bytes) (i k fuel : ℕ) (es : List Event) (last : Option ℕ)
      → length payload < 2 ^ 32
      → 0 < k
      → k < length (frame p.sha256 i payload)
      → scan p (pre ++ take k (frame p.sha256 i payload)) (suc fuel) (length pre) es last
        ≡ ok (es, true, length pre)
  unfolding scan
  scan_torn pre payload i k fuel es last fits hk kl = rw (
    lt→ltb (length pre) (length (pre ++ take k (frame p.sha256 i payload))) (
        omega (
          arith,
          length-append pre (take k (frame p.sha256 i payload)),
          length-take_le k (frame p.sha256 i payload) (omega arith),
        )),
    decode_record-torn p.sha256 length-sha256 pre payload i k fits kl,
    scan,
  )

  -- A file that holds the records of a log is read back whole.
  pub scan_file_whole :
      (es : List Event)
      → IsLog p none es
      → scan_file p (some (log_bytes p es))
        ≡ ok (
          map stored es,
          record {
            valid_event_count = length es;
            tail_truncated = false;
            discarded_byte_count = 0;
          },
          length (log_bytes p es),
        )
  unfolding scan_file
  scan_file_whole es h =
      rw
        (
          rw append-nil at (scan_log es [] h),
          scan_end (log_bytes p es) (length (log_bytes p es) - length es) (map stored es)
              (last_id none es),
          length-stored es,
        )
        (ground arith)

  -- A log whose last write was cut short, at any byte, gives all the events before that write, as they are stored; what it
  -- left is reported as a torn tail, and the offset is the end of the last whole record.
  pub scan_file_torn :
      (es : List Event) (e : Event) (k : ℕ)
      → IsLog p none es
      → length (p.dumps (obj (envelope e))) < 2 ^ 32
      → 0 < k
      → k < length (record_bytes p e)
      → scan_file p (some (log_bytes p es ++ take k (record_bytes p e)))
        ≡ ok (
          map stored es,
          record { valid_event_count = length es; tail_truncated = true; discarded_byte_count = k },
          length (log_bytes p es),
        )
  unfolding scan_file
  scan_file_torn es e k h fits hk kl =
      rw
        (
          scan_log es (take k (record_bytes p e)) h,
          scan_torn (log_bytes p es) (p.dumps (obj (envelope e))) e.event_id k
              (length (log_bytes p es ++ take k (record_bytes p e)) - length es) (map stored es)
              (last_id none es) fits hk kl,
          length-stored es,
        )
        (ground (
          arith,
          length-append (log_bytes p es) (take k (record_bytes p e)),
          length-take_le k (record_bytes p e),
        ))
