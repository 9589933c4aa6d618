-- ===== src/Framing/Step.antt =====
-- One round of `UnPackdata`, and its loop on any amount of fuel that is enough.
use sutil.Framing.Uvarint.{Header-cases, uvarint, uvarint-append_head, uvarint-append_bad}
use sutil.Framing.{Stop, drained, Round, halt, took, cut_frame, round, unpack, unpackdata, called}
use sutil.Prelude.{
  ℕ, zero, suc, ◌+◌, ◌-◌, ◌%◌, ◌^◌, ◌≤◌, ◌<◌, ◌≡◌, ◌≢◌, ◌⊎◌, inl, inr, refl, arith, none, List, [],
  ◌∷◌, ◌++◌, length, drop, get_elem?, length-append, length-drop, take_append, drop_append,
}
use sutil.Prelude.Text.{Bytes}

get_elem?-none {ℓ} : {A : Type ℓ} (xs : List A) (i : ℕ) → length xs ≤ i → get_elem? xs i ≡ none
get_elem?-none [] i h = refl
get_elem?-none (x ∷ xs) zero h = absurd (omega arith)
get_elem?-none (x ∷ xs) (suc i) h = get_elem?-none xs i (omega arith)

pub get_elem?-append {ℓ} :
    {A : Type ℓ} (xs ys : List A) (i : ℕ) → i < length xs → get_elem? (xs ++ ys) i ≡ get_elem? xs i
get_elem?-append [] ys i h = absurd (omega arith)
get_elem?-append (x ∷ xs) ys zero h = refl
get_elem?-append (x ∷ xs) ys (suc i) h = get_elem?-append xs ys i (omega arith)

Round-cases :
    (r : Round) → ((s : Stop) × (r ≡ halt s)) ⊎ ((m : Bytes) × (q : Bytes) × (r ≡ took m q))
Round-cases (halt s) = inl (s, refl)
Round-cases (took m q) = inr (m, q, refl)

-- the same of the part behind the length checks
length-cut_frame :
    (buf : Bytes) (sz n : ℕ) (m r : Bytes)
    → 1 ≤ sz
    → cut_frame buf sz n ≡ took m r
    → length r < length buf
unfolding cut_frame
length-cut_frame buf sz n m r h e = ground (arith, length-drop n buf)

cut_frame-append_took :
    (buf more : Bytes) (sz n : ℕ) (m r : Bytes)
    → cut_frame buf sz n ≡ took m r
    → cut_frame (buf ++ more) sz n ≡ took m (r ++ more)
unfolding cut_frame
cut_frame-append_took buf more sz n m r e = ground (
  arith,
  length-append buf more,
  get_elem?-append buf more ((n + 2 ^ 64 - 1) % 2 ^ 64),
  get_elem?-none buf ((n + 2 ^ 64 - 1) % 2 ^ 64),
  drop_append n buf more,
  drop_append sz buf more,
  take_append (n - 1 - sz) (drop sz buf) more,
  length-drop sz buf,
)

cut_frame-append_failed :
    (buf more : Bytes) (sz n : ℕ) (s : Stop)
    → n < 2 ^ 64
    → 1 ≤ n
    → cut_frame buf sz n ≡ halt s
    → s ≢ drained
    → cut_frame (buf ++ more) sz n ≡ halt s
unfolding cut_frame
cut_frame-append_failed buf more sz n s fits pos e h =
    ground (arith, length-append buf more, get_elem?-append buf more ((n + 2 ^ 64 - 1) % 2 ^ 64))

module _ (lenmin lenmax : ℕ) where
  -- a round that goes on leaves fewer bytes
  pub length-round : (buf m r : Bytes) → round lenmin lenmax buf ≡ took m r → length r < length buf
  unfolding round
  length-round buf m r e = elim (Header-cases (uvarint buf)) [
    | inl e' ↦ ground arith
    | inr (inl e') ↦ ground arith
    | inr (inr (v, n, e')) ↦ ground (
      arith,
      uvarint-append_head buf [] v n e',
      length-cut_frame buf n ((n + v + 1) % 2 ^ 64) m r,
    )
  ]

  -- bytes that arrive later stay behind the rest
  pub round-append_took :
      (buf more m r : Bytes)
      → round lenmin lenmax buf ≡ took m r
      → round lenmin lenmax (buf ++ more) ≡ took m (r ++ more)
  unfolding round
  round-append_took buf more m r e = elim (Header-cases (uvarint buf)) [
    | inl e' ↦ ground arith
    | inr (inl e') ↦ ground arith
    | inr (inr (v, n, e')) ↦ ground (
      arith,
      uvarint-append_head buf more v n e',
      cut_frame-append_took buf more n ((n + v + 1) % 2 ^ 64) m r,
    )
  ]

  pub round-append_failed :
      (buf more : Bytes) (s : Stop)
      → round lenmin lenmax buf ≡ halt s
      → s ≢ drained
      → lenmax < 2 ^ 63
      → round lenmin lenmax (buf ++ more) ≡ halt s
  unfolding round
  round-append_failed buf more s e h small = elim (Header-cases (uvarint buf)) [
    | inl e' ↦ ground (arith, uvarint-append_bad buf more e')
    | inr (inl e') ↦ ground arith
    | inr (inr (v, n, e')) ↦ ground (
      arith,
      uvarint-append_head buf more v n e',
      cut_frame-append_failed buf more n ((n + v + 1) % 2 ^ 64) s,
    )
  ]

module _ (lenmin lenmax : ℕ) where
  -- any fuel above the number of bytes gives the same run
  unpack_fuel :
      (f g : ℕ) (buf : Bytes)
      → length buf < f
      → length buf < g
      → unpack f lenmin lenmax buf ≡ unpack g lenmin lenmax buf
  unfolding unpack
  unpack_fuel zero g buf hf hg = absurd (omega arith)
  unpack_fuel (suc f) zero buf hf hg = absurd (omega arith)
  unpack_fuel (suc f) (suc g) buf hf hg = elim (Round-cases (round lenmin lenmax buf)) [
    | inl (s, e) ↦ ground arith
    | inr (m, r, e) ↦ ground (arith, length-round lenmin lenmax buf m r e, unpack_fuel f g r)
  ]

  -- the loop by its rounds
  pub unpackdata_halt :
      (buf : Bytes) (s : Stop)
      → round lenmin lenmax buf ≡ halt s
      → unpackdata lenmin lenmax buf ≡ record { calls = []; rest = buf; stop = s }
  unfolding unpackdata unpack
  unpackdata_halt buf s e = ground arith

  pub unpackdata_took :
      (buf m r : Bytes)
      → round lenmin lenmax buf ≡ took m r
      → unpackdata lenmin lenmax buf ≡ called m (unpackdata lenmin lenmax r)
  unfolding unpackdata unpack
  unpackdata_took buf m r e =
      ground
        (arith, length-round lenmin lenmax buf m r e, unpack_fuel (length buf) (suc (length r)) r)

  -- Induction along the rounds that go on.
  pub unpackdata_induction {ℓ} :
      (P : Bytes → Type ℓ)
      → ((buf : Bytes) (s : Stop) → round lenmin lenmax buf ≡ halt s → P buf)
      → ((buf m r : Bytes) → round lenmin lenmax buf ≡ took m r → P r → P buf)
      → (fuel : ℕ) (buf : Bytes) → length buf < fuel
      → P buf
  unpackdata_induction P at_halt at_took zero buf h = absurd (omega arith)
  unpackdata_induction P at_halt at_took (suc fuel) buf h =
      elim (Round-cases (round lenmin lenmax buf)) [
        | inl (s, e) ↦ at_halt buf s e
        | inr (m, r, e) ↦ at_took buf m r e (
            unpackdata_induction P at_halt at_took fuel r
              (omega (arith, length-round lenmin lenmax buf m r e)))
      ]
