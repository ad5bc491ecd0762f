-- ===== src/EventStore/Log/Fuel.antt =====
-- The scan loop ends by its own tests.
use turtle_qts_execution.Base.{
  ℕ, zero, suc, ◌-◌, ◌<◌, ◌≡◌, ◌≢◌, [], Option, none, some, List, err, out_of_fuel, arith, length,
}
use turtle_qts_execution.EventStore.Types.{Event}
use turtle_qts_execution.EventStore.Codec.{Bytes, decode_record, record_read}
use turtle_qts_execution.EventStore.Platform.{Platform}
use turtle_qts_execution.EventStore.Store.{envelope_to_event}
use turtle_qts_execution.EventStore.Log.{scan, scan_file, read_event}

decode_consumes :
    (sha256 : Bytes → Bytes) (buf : Bytes) (offset i n : ℕ) {payload : Bytes}
    → decode_record sha256 buf offset ≡ record_read i payload n
    → 0 < n
unfolding decode_record
decode_consumes sha256 buf offset i n h = ground arith

read_event-ne : (p : Platform) (i : ℕ) (payload : Bytes) → read_event p i payload ≢ err out_of_fuel
unfolding read_event envelope_to_event
read_event-ne p i payload = ground arith

-- Whatever the bytes are, fuel above the length of what is left is never used up.
scan-ne :
    (p : Platform) (buf : Bytes) (fuel offset : ℕ) (events : List Event) (last : Option ℕ)
    → length buf - offset < fuel
    → scan p buf fuel offset events last ≢ err out_of_fuel
unfolding scan
scan-ne p buf zero offset events last h = absurd (omega arith)
scan-ne p buf (suc fuel) offset events last h = grind (
  arith,
  decode_consumes p.sha256 buf offset,
  read_event-ne p,
  λ (o : ℕ) (es : List Event) (l : Option ℕ). scan-ne p buf fuel o es l,
)

-- Scanning a file ends, whatever bytes it holds: its fuel does not run out.
pub scan_file-ne-out_of_fuel :
    (p : Platform) (contents : Option Bytes) → scan_file p contents ≢ err out_of_fuel
unfolding scan_file
scan_file-ne-out_of_fuel p none = cc
scan_file-ne-out_of_fuel p (some buf) = ground (arith, scan-ne p buf (suc (length buf)) 0 [] none)
