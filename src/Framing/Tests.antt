-- ===== src/Framing/Tests.antt =====
-- The framing at concrete inputs.
use sutil.Framing.Chunks.{concat, StandsAs, package_split-StandsAs, package_split-pack_all}
use sutil.Framing.RoundTrip.{before, pack_all, unpackdata-pack_all, unpackdata_returns}
use sutil.Framing.Uvarint.{uvarint, put_uvarint}
use sutil.Framing.{
  failed, panicked, stuck, too_long, too_short, pad_error, head_error, round, unpack, unpackdata,
  packdata, chunk, read_error, reading, closed, package_split,
}
use sutil.Prelude.{◌≡◌, refl, sym, ◌≢◌, List, [], ◌∷◌, ◌++◌, map, arith, replicate}
use sutil.Prelude.Text.{Bytes, codes}

abbrev messages : List Bytes
messages = codes "ab" ∷ codes "c" ∷ []

abbrev pieces : List Bytes
pieces = (2 ∷ b'a' ∷ []) ∷ (b'b' ∷ 0 ∷ 1 ∷ []) ∷ (b'c' ∷ 0 ∷ []) ∷ []

framed : pack_all messages ≡ concat pieces
unfolding packdata put_uvarint
framed = refl

long_header : put_uvarint 300 ≡ 172 ∷ 2 ∷ []
unfolding put_uvarint
long_header = refl

refused :
    ((unpackdata 1 5 (6 ∷ [])).stop ≡ failed too_long)
    × ((unpackdata 1 5 (0 ∷ [])).stop ≡ failed too_short)
    × ((unpackdata 1 5 (1 ∷ 7 ∷ 9 ∷ [])).stop ≡ failed pad_error)
    × ((unpackdata 1 5 (replicate 11 255)).stop ≡ failed head_error)
unfolding unpackdata unpack round uvarint
refused = (refl, refl, refl, refl)

read_error_drops_the_rest :
    package_split (chunk (2 ∷ b'a' ∷ []) ∷ read_error ∷ []) ≡ record { calls = []; state = closed }
unfolding package_split unpackdata unpack round uvarint
read_error_drops_the_rest = refl

unpackdata-pack_all_example :
    unpackdata 1 5120 (pack_all messages ++ (3 ∷ [])) ≡ before messages (unpackdata 1 5120 (3 ∷ []))
unpackdata-pack_all_example =
    unpackdata-pack_all 1 5120 messages (3 ∷ []) (omega arith) (omega arith)

unpackdata_returns_example :
    ((unpackdata 1 5 (6 ∷ [])).stop ≢ stuck) × ((unpackdata 1 5 (6 ∷ [])).stop ≢ panicked)
unpackdata_returns_example = unpackdata_returns 1 5 (6 ∷ []) (omega arith)

package_split-StandsAs_example :
    StandsAs (package_split (map chunk pieces)) (unpackdata 1 5120 (concat pieces))
package_split-StandsAs_example = package_split-StandsAs pieces

package_split-pack_all_example :
    package_split (map chunk pieces) ≡ record { calls = messages; state = reading [] }
package_split-pack_all_example = package_split-pack_all pieces messages (sym framed) (omega arith)
