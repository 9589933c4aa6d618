-- ===== src/Framing/RoundTrip.antt =====
-- What `Packdata` frames, `UnPackdata` hands to its callback; and `UnPackdata` always returns.
use sutil.Framing.Step.{unpackdata_halt, unpackdata_took, unpackdata_induction}
use sutil.Framing.Uvarint.{
  uvarint, uvarint-put_uvarint, uvarint-append_head, put_uvarint, Header-cases,
}
use sutil.Framing.{
  Stop, failed, panicked, stuck, halt, took, cut_frame, round, Unpacked, called, unpackdata,
  packdata, pad_error,
}
use sutil.Prelude.{
  List, ℕ, ◌∷◌, ◌≤◌, ◌<◌, ◌++◌, length, ◌^◌, ◌≡◌, All, ◌≢◌, ◌+◌, ◌-◌, if◌then◌else◌, ◌==◌, suc,
  refl, ap, ◌∙◌, some, [], append-nil, append_assoc, arith, get_elem?, drop, length-append,
  take-append_front, drop-append_front, zero, ◌%◌, inl, inr, none,
}
use sutil.Prelude.Text.{Bytes}

-- a callback's messages, framed one behind the other
abbrev pub pack_all : List Bytes → Bytes
pack_all [] = []
pack_all (m ∷ ms) = packdata m ++ pack_all ms

abbrev pub InRange : ℕ → ℕ → Bytes → Type 0
InRange lenmin lenmax m = (lenmin ≤ length m) × (length m ≤ lenmax)

abbrev pub before : List Bytes → Unpacked → Unpacked
before ms u = record u { calls = ms ++ u.calls }

get_elem?_behind :
    (xs : Bytes) (y : ℕ) (ys : Bytes) → get_elem? (xs ++ (y ∷ ys)) (length xs) ≡ some y
get_elem?_behind [] y ys = refl
get_elem?_behind (x ∷ xs) y ys = get_elem?_behind xs y ys

drop_behind : (xs : Bytes) (y : ℕ) (ys : Bytes) → drop (suc (length xs)) (xs ++ (y ∷ ys)) ≡ ys
drop_behind [] y ys = refl
drop_behind (x ∷ xs) y ys = drop_behind xs y ys

cut_frame-packed :
    (h m rest : Bytes) (pad : ℕ)
    → 1 ≤ length h
    → length h + length m < 2 ^ 64 - 1
    → cut_frame (h ++ (m ++ (pad ∷ rest))) (length h) (length h + length m + 1)
      ≡ (if pad == 0 then took m rest else halt (failed pad_error))
unfolding cut_frame
cut_frame-packed h m rest pad pos fits = ground (
  arith,
  length-append h (m ++ (pad ∷ rest)),
  length-append m (pad ∷ rest),
  get_elem?_behind (h ++ m) pad rest,
  append_assoc h m (pad ∷ rest),
  length-append h m,
  drop-append_front (length h) h (m ++ (pad ∷ rest)),
  take-append_front (length m) m (pad ∷ rest),
  drop_behind (h ++ m) pad rest,
)

round-packdata :
    (lenmin lenmax : ℕ) (m rest : Bytes)
    → lenmax < 2 ^ 63
    → InRange lenmin lenmax m
    → round lenmin lenmax (packdata m ++ rest) ≡ took m rest
unfolding round packdata
round-packdata lenmin lenmax m rest small h = ground (
  arith,
  append_assoc (put_uvarint (length m)) (m ++ (0 ∷ [])) rest,
  append_assoc m (0 ∷ []) rest,
  uvarint-put_uvarint (length m) (m ++ (0 ∷ rest)),
  uvarint-append_head (put_uvarint (length m)) [] (length m) (length (put_uvarint (length m))),
  uvarint-put_uvarint (length m) [],
  append-nil (put_uvarint (length m)),
  cut_frame-packed (put_uvarint (length m)) m rest 0,
)

-- Frames that lie behind one another, with payloads whose lengths are within the limits of
-- UnPackdata, are handed to the callback in their order, each with the very bytes that were packed,
-- and what follows them is unpacked as if it stood alone, where the upper limit is below 2^63.
pub unpackdata-pack_all :
    (lenmin lenmax : ℕ) (ms : List Bytes) (rest : Bytes)
    → lenmax < 2 ^ 63
    → All (InRange lenmin lenmax) ms
    → unpackdata lenmin lenmax (pack_all ms ++ rest) ≡ before ms (unpackdata lenmin lenmax rest)
unpackdata-pack_all lenmin lenmax [] rest small h = refl
unpackdata-pack_all lenmin lenmax (m ∷ ms) rest small (hm, hs) =
    rw (append_assoc (packdata m) (pack_all ms) rest) (
      unpackdata_took lenmin lenmax _ m _ (round-packdata lenmin lenmax m _ small hm)
      ∙ ap (called m) (unpackdata-pack_all lenmin lenmax ms rest small hs))

get_elem?_within : (xs : Bytes) (i : ℕ) → i < length xs → get_elem? xs i ≢ none
get_elem?_within [] i h = absurd (omega arith)
get_elem?_within (x ∷ xs) zero h = λ e. cc
get_elem?_within (x ∷ xs) (suc i) h = get_elem?_within xs i (omega arith)

cut_frame_halts :
    (buf : Bytes) (sz n : ℕ) (s : Stop)
    → sz < n
    → n < 2 ^ 64
    → cut_frame buf sz n ≡ halt s
    → (s ≢ stuck) × (s ≢ panicked)
unfolding cut_frame
cut_frame_halts buf sz n s pos fits e =
    ground (arith, get_elem?_within buf ((n + 2 ^ 64 - 1) % 2 ^ 64))

-- A round that ends does so by a `return`.
round_halts :
    (lenmin lenmax : ℕ) (buf : Bytes) (s : Stop)
    → lenmax < 2 ^ 63
    → round lenmin lenmax buf ≡ halt s
    → (s ≢ stuck) × (s ≢ panicked)
unfolding round
round_halts lenmin lenmax buf s small e = elim (Header-cases (uvarint buf)) [
  | inl e' ↦ ground arith
  | inr (inl e') ↦ ground arith
  | inr (inr (v, n, e')) ↦
      ground
        (arith, uvarint-append_head buf [] v n e', cut_frame_halts buf n ((n + v + 1) % 2 ^ 64) s)
]

-- Where its upper limit is below 2^63, `UnPackdata` returns on every input: its loop ends, and no
-- slice is out of range.
pub unpackdata_returns :
    (lenmin lenmax : ℕ) (buf : Bytes)
    → lenmax < 2 ^ 63
    → ((unpackdata lenmin lenmax buf).stop ≢ stuck)
      × ((unpackdata lenmin lenmax buf).stop ≢ panicked)
unpackdata_returns lenmin lenmax buf small =
    unpackdata_induction lenmin lenmax
      (λ b.
        ((unpackdata lenmin lenmax b).stop ≢ stuck)
        × ((unpackdata lenmin lenmax b).stop ≢ panicked))
      (λ b s e. rw (unpackdata_halt lenmin lenmax b s e) (round_halts lenmin lenmax b s small e))
      (λ b m r e ih. rw (unpackdata_took lenmin lenmax b m r e) ih) (suc (length buf)) buf
      (omega arith)
