-- ===== src/EventStore/Platform.antt =====
-- What the event store uses of the Python runtime and does not implement: the `json` module's text
-- format, SHA-256 and `str.lower`. Operating-system files are modelled here: a file opened with
-- O_APPEND, its content and the position of its descriptor.
use turtle_qts_execution.Base.{
  ℕ, zero, suc, ◌-◌, List, [], ◌∷◌, ◌++◌, Text, Json, Option, Outcome, ok, err, os_error, length,
  take, drop, Bool,
}
use turtle_qts_execution.EventStore.Codec.{Bytes}

pub record Platform : Type 0 where
  -- `_canonical_json`: json.dumps with sorted keys, in UTF-8
  pub dumps : Json → Bytes
  -- `json.loads(payload.decode("utf-8"))`, none where it raises ValueError
  pub loads : Bytes → Option Json
  pub sha256 : Bytes → Bytes
  pub lower : Text → Text

pub record File : Type 0 where
  pub content : Bytes
  pub position : ℕ

-- What the operating system answers during one append: the count that each `os.write` returns, a
-- call past the end of the list raising, and whether the `os.fsync` after them succeeds; and, where the
-- append is rolled back, whether the `os.ftruncate` and the `os.fsync` of the rollback succeed.
pub record Disk : Type 0 where
  pub writes : List ℕ
  pub fsync_works : Bool
  pub truncate_works : Bool
  pub rollback_fsync_works : Bool

unfoldable pub zeros : ℕ → Bytes
zeros zero = []
zeros (suc n) = 0 ∷ zeros n

-- `os.ftruncate(fd, n)`: cuts the content, or extends it by zero bytes; the position stays.
unfoldable pub ftruncate : File → ℕ → File
unfolding zeros
ftruncate f n = record f { content = take n f.content ++ zeros (n - length f.content) }

-- `os.write(fd, data)` that took the first `n` bytes. With O_APPEND they go to the end of the file,
-- and the position is moved behind them.
unfoldable pub write_bytes : File → Bytes → File
write_bytes f bytes = record {
  content = f.content ++ bytes;
  position = length (f.content ++ bytes);
}

-- `_write_full`: the loop over short writes, on what is left of the data.
unfoldable pub write_full : List ℕ → Bytes → File → Outcome (Unit {0}) × File
unfolding write_bytes
write_full ws [] f = (ok tt, f)
write_full [] (b ∷ bs) f = (err os_error, f)
write_full (zero ∷ ws) (b ∷ bs) f = (err os_error, f)
write_full (suc n ∷ ws) (b ∷ bs) f = write_full ws (drop n bs) (write_bytes f (b ∷ take n bs))
