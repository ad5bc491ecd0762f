-- ===== src/EventStore/Log/Stranded.antt =====
-- Two appends that fail one after the other. The rollback truncates the file to the position of the
-- descriptor, and truncating does not move the descriptor back.
use turtle_qts_execution.EventStore.Canonical.{stored}
use turtle_qts_execution.Base.{
  map, ℕ, zero, suc, ◌+◌, ◌-◌, ◌≤◌, ◌<◌, ◌≡◌, refl, ap, true, none, some, Option, List, [], ◌∷◌,
  ◌++◌, err, arith, os_error, corrupt_event_store, length, length-append, take, length-take_le,
  drop, lt→ltb, le→ltb,
}
use native.Mathlib.Nat.{suc-add}
use turtle_qts_execution.EventStore.Types.{Event}
use turtle_qts_execution.EventStore.Codec.{Bytes, decode_record, bad_magic}
use turtle_qts_execution.EventStore.Codec.Layout.{drop-append_at}
use turtle_qts_execution.EventStore.Platform.{
  Platform, File, Disk, ftruncate, write_bytes, write_full, zeros,
}
use turtle_qts_execution.EventStore.Store.{write_record, finish_write, roll_back}
use turtle_qts_execution.EventStore.Store.Writes.{ftruncate_back}
use turtle_qts_execution.EventStore.Log.{scan, scan_file}
use turtle_qts_execution.EventStore.Log.Recovery.{IsLog, log_bytes, last_id, scan_log}

-- The first `os.write` takes `k` bytes and the next one raises.
abbrev pub short_write : ℕ → Disk
short_write k = record {
  writes = k ∷ [];
  fsync_works = true;
  truncate_works = true;
  rollback_fsync_works = true;
}

-- `os.write` raises at once.
abbrev pub no_write : Disk
no_write = record {
  writes = [];
  fsync_works = true;
  truncate_works = true;
  rollback_fsync_works = true;
}

length-zeros : (k : ℕ) → length (zeros k) ≡ k
unfolding zeros
length-zeros zero = refl
length-zeros (suc k) = ap suc (length-zeros k)

take_all : (xs : Bytes) (k : ℕ) → take (length xs + k) xs ≡ xs
take_all [] k = nothing (0 + k)
  where
    nothing : (n : ℕ) → take {A = ℕ} n [] ≡ []
    nothing zero = refl
    nothing (suc n) = refl
take_all (x ∷ xs) k = rw suc-add (ap (◌∷◌ x) (take_all xs k))

write_full_more :
    (k : ℕ) (bytes : Bytes) (f : File)
    → k < length bytes
    → write_full [] (drop k bytes) f ≡ (err os_error, f)
unfolding write_full
write_full_more k [] f h = absurd (omega arith)
write_full_more zero (b ∷ bytes) f h = refl
write_full_more (suc k) (b ∷ bytes) f h = write_full_more k bytes f (omega arith)

short_write_ends :
    (k b : ℕ) (bytes : Bytes) (f : File)
    → k < length bytes
    → f.position ≡ length f.content
    → let g = write_bytes f (b ∷ take k bytes) in
      (write_full (suc k ∷ []) (b ∷ bytes) f ≡ (err os_error, g))
      × (ftruncate g f.position
          ≡ record { content = f.content; position = length f.content + suc k })
unfolding write_full write_bytes
short_write_ends k b bytes f kl a =
    let g = write_bytes f (b ∷ take k bytes) in
    let end : length g.content ≡ length f.content + suc k =
      omega
        (arith, length-append f.content (b ∷ take k bytes), length-take_le k bytes (omega arith)) in
    let back : (ftruncate g f.position).content ≡ f.content =
      rw a (ftruncate_back g f.content (b ∷ take k bytes) refl) in
    (
      write_full_more k bytes g kl,
      unfold ftruncate in λ i. record { content = back i; position = end i },
    )

short_write_file :
    (k : ℕ) (bytes : Bytes) (f : File)
    → 0 < k
    → k < length bytes
    → f.position ≡ length f.content
    → write_record (short_write k) bytes f
      ≡ (err os_error, record { content = f.content; position = length f.content + k })
unfolding write_record finish_write roll_back
short_write_file zero bytes f hk kl a = absurd (omega arith)
short_write_file (suc k) [] f hk kl a = absurd (omega arith)
short_write_file (suc k) (b ∷ bytes) f hk kl a =
    let (ends, truncated) = short_write_ends k b bytes f (omega arith) a in
    ground (arith, ends, truncated)

no_write_file :
    (k b : ℕ) (bytes content : Bytes)
    → write_record no_write
        (b ∷ bytes)
        (record { content = content; position = length content + k })
      ≡ (err os_error, record { content = content ++ zeros k; position = length content + k })
unfolding write_record finish_write roll_back write_full ftruncate
no_write_file k b bytes content = rw (take_all content k, rest)
  where
    rest : length content + k - length content ≡ k
    rest = omega arith

zeros_bad :
    (sha256 : Bytes → Bytes) (pre : Bytes) (k : ℕ)
    → 4 ≤ k
    → decode_record sha256 (pre ++ zeros k) (length pre) ≡ bad_magic
unfolding decode_record zeros
zeros_bad sha256 pre zero h = absurd (omega arith)
zeros_bad sha256 pre (suc zero) h = absurd (omega arith)
zeros_bad sha256 pre (suc (suc zero)) h = absurd (omega arith)
zeros_bad sha256 pre (suc (suc (suc zero))) h = absurd (omega arith)
zeros_bad sha256 pre (suc (suc (suc (suc k)))) h =
    let z = 0 ∷ 0 ∷ 0 ∷ 0 ∷ zeros k in
    let enough = le→ltb (length (pre ++ z) - length pre) 4 (omega (arith, length-append pre z)) in
    rw (enough, drop-append_at pre z (length pre) refl, width)
  where
    width : length pre + 4 - length pre ≡ 4
    width = omega arith

module _ (p : Platform) (length-sha256 : (b : Bytes) → length (p.sha256 b) ≡ 32) where
  scan-zeros :
      (pre : Bytes) (k fuel : ℕ) (es : List Event) (last : Option ℕ)
      → 4 ≤ k
      → scan p (pre ++ zeros k) (suc fuel) (length pre) es last ≡ err corrupt_event_store
  unfolding scan
  scan-zeros pre k fuel es last four = rw (
    lt→ltb (length pre) (length (pre ++ zeros k))
        (omega (arith, length-append pre (zeros k), length-zeros k)),
    zeros_bad p.sha256 pre k four,
    scan,
  )

  scan_file-zeros :
      (es : List Event) (k : ℕ)
      → IsLog p none es
      → 4 ≤ k
      → scan_file p (some (log_bytes p es ++ zeros k)) ≡ err corrupt_event_store
  unfolding scan_file
  scan_file-zeros es k h four = rw (
    scan_log p length-sha256 es (zeros k) h,
    scan-zeros (log_bytes p es) k (length (log_bytes p es ++ zeros k) - length es) (map stored es)
        (last_id none es) four,
  )

  -- On a log (records that a scan reads, their ids rising) whose descriptor stands at its end, a first
  -- write of a record that fails once `k` of its bytes are written (at least one, not all), and a second
  -- that fails before it writes, leave `k` zero bytes behind the log, though both rollbacks succeed;
  -- where `k` is at least 4, the length of the magic, scanning the file raises CorruptEventStoreError.
  -- SHA-256 digests have 32 bytes.
  pub failed_appends_corrupt :
      (es : List Event) (f : File) (k b : ℕ) (first second : Bytes)
      → IsLog p none es
      → f.content ≡ log_bytes p es
      → f.position ≡ length f.content
      → 0 < k
      → k < length first
      → let f' = (write_record no_write (b ∷ second) (write_record (short_write k) first f).1).1 in
        (f'.content ≡ f.content ++ zeros k)
        × (4 ≤ k → scan_file p (some f'.content) ≡ err corrupt_event_store)
  failed_appends_corrupt es f k b first second h c a hk kl =
      rw (short_write_file k first f hk kl a, no_write_file k b second f.content)
        (refl, λ four. rw c (scan_file-zeros es k h four))
