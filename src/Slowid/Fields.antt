-- ===== src/Slowid/Fields.antt =====
-- The layout of an id: time above, then ten bits of worker, then one bit of sequence.
use sutil.Prelude.Bits.{or_shifted}
use sutil.Slowid.{Slowid, pack}
use sutil.Prelude.{◌+◌, ◌*◌, ◌/◌, ◌%◌, ◌^◌, ◌<◌, ◌≡◌, arith}

-- The fields fit: the time in 41 bits (until the year 2084), the worker in 10, the sequence in 1.
pub record Fits (sf : Slowid) : Type 0 where
  pub time : sf.last_timestamp < 2 ^ 41
  pub worker : sf.worker_id < 2 ^ 10
  pub seq : sf.sequence < 2

-- Where the fields fit, an id is their positional sum.
pub pack_sum :
    (sf : Slowid) → Fits sf → pack sf ≡ sf.last_timestamp * 2048 + sf.worker_id * 2 + sf.sequence
unfolding pack
pack_sum sf h = ground (
  arith,
  or_shifted 11 sf.last_timestamp (sf.worker_id * 2 ^ 1 % 2 ^ 64),
  or_shifted 1 (sf.last_timestamp * 2 ^ 10 + sf.worker_id) sf.sequence,
)

-- Where the time fits 41 bits, the worker 10 and the sequence 1, an id fits the 52 bits that the
-- package promises, so a double holds it exactly, and it gives back the time, the worker and the
-- sequence that it was made of.
pub pack_fields :
    (sf : Slowid)
    → Fits sf
    → (pack sf < 2 ^ 52)
      × (pack sf / 2048 ≡ sf.last_timestamp)
      × (pack sf / 2 % 1024 ≡ sf.worker_id)
      × (pack sf % 2 ≡ sf.sequence)
pack_fields sf h = omega (arith, pack_sum sf h, h.time, h.worker, h.seq)
