-- ===== src/Stext/Pieces.antt =====
-- stext/loctext.go: a format as a list of its pieces, and the text that LocationText makes of it.
use sutil.Prelude.{
  ℕ, Option, none, some, List, [], ◌∷◌, suc, ◌-◌, ◌≡◌, refl, sym, ap, ◌∙◌, ◌≢◌, inl, inr, false,
  ◌||◌, ◌++◌, append-nil, append_assoc, arith, ◌==◌, if◌then◌else◌, ==_iff, Bool-cases, length,
  get_elem?, All, ◌<◌, ltb, take, length-append, take-append_front, ◌+◌, All-append, ◌^◌,
}
use sutil.Prelude.Text.{Bytes, codes}
use sutil.Mq.{ℤ, pos}
use sutil.Stext.Streaming.{reads}
use sutil.Stext.{do_fmt, numbered, replaced, or_minus_one, given, location_text}
use sutil.Stext.Positions.{location_text-reads}

pub data Piece : Type 0 where
  literal : Bytes → Piece
  in_turn : Piece
  numbered_piece : ℕ → Piece

abbrev pub escape : Bytes → Bytes
escape [] = []
escape (c ∷ s) = if c == b'%' then b'%' ∷ b'%' ∷ escape s else c ∷ escape s

-- the format of the pieces; the first parameter has the number 0 here and 1 in the format
abbrev pub render : (ℕ → Bytes) → List Piece → Bytes
render itoa [] = []
render itoa (literal t ∷ ps) = escape t ++ render itoa ps
render itoa (in_turn ∷ ps) = b'%' ∷ b's' ∷ render itoa ps
render itoa (numbered_piece k ∷ ps) =
    b'%' ∷ ((itoa (suc k) ++ b'$' ∷ []) ++ (b's' ∷ render itoa ps))

abbrev param_or_nil : Option Bytes → Bytes
param_or_nil (some p) = p
param_or_nil none = []

-- the number behind one that is used up
abbrev counted_on : Option Bytes → ℕ → ℕ
counted_on (some p) n = suc n
counted_on none n = n

-- the text of the pieces, where `n` parameters have been used in turn
abbrev pub text_of : List Bytes → ℕ → List Piece → Bytes
text_of params n [] = []
text_of params n (literal t ∷ ps) = t ++ text_of params n ps
text_of params n (in_turn ∷ ps) =
    param_or_nil (get_elem? params n) ++ text_of params (counted_on (get_elem? params n) n) ps
text_of params n (numbered_piece k ∷ ps) = param_or_nil (get_elem? params k) ++ text_of params n ps

-- a byte that does not end a number
abbrev pub IsInner : ℕ → Type 0
IsInner c = (c ≢ b'%') × (c ≢ b'@') × (c ≢ b's')

-- up to the largest int, `itoa` prints what `atoi` reads, in a text that is not empty and ends no
-- format
abbrev pub Prints : (ℕ → Bytes) → (Bytes → Option ℤ) → Type 0
Prints itoa atoi =
    (n : ℕ) → n < 2 ^ 63 → (atoi (itoa n) ≡ some (pos n)) × All IsInner (itoa n) × (itoa n ≢ [])

-- the number of a format is an int
abbrev pub InInt : Piece → Type 0
InInt (literal t) = Unit {0}
InInt in_turn = Unit {0}
InInt (numbered_piece k) = suc k < 2 ^ 63

filled_length : (d : Bytes) → d ≢ [] → 0 < length d
filled_length [] h = absurd (h refl)
filled_length (c ∷ d) h = ground arith

given_in_turn :
    (o : Option Bytes) (n : ℕ)
    → given o (suc n + 1) (suc n) ≡ (param_or_nil o, suc (counted_on o n))
unfolding given
given_in_turn none n = refl
given_in_turn (some p) n = ap (λ m. (p, m)) (omega arith)

given_nth : (o : Option Bytes) (n : ℕ) → given o n n ≡ (param_or_nil o, n)
unfolding given
given_nth none n = refl
given_nth (some p) n = refl

at_length : (d : Bytes) → get_elem? (d ++ b'$' ∷ []) (length d) ≡ some b'$'
at_length [] = refl
at_length (c ∷ d) = at_length d

module _ (atoi : Bytes → Option ℤ) (params : List Bytes) where
  reads-escape :
      (t rest : Bytes) (next : ℕ)
      → reads atoi params (escape t ++ rest) next none ≡ t ++ reads atoi params rest next none
  unfolding reads
  reads-escape [] rest next = refl
  reads-escape (c ∷ t) rest next = elim (Bool-cases (c == b'%')) [
    | inl e ↦ rw e (
        ap (◌∷◌ b'%') (reads-escape t rest next)
        ∙ ap (λ x. x ∷ (t ++ reads atoi params rest next none)) (sym ((==_iff c b'%').0 e)))
    | inr e ↦ rw (e, e) (ap (◌∷◌ c) (reads-escape t rest next))
  ]

  reads-inner :
      (d rest acc : Bytes) (next : ℕ)
      → All IsInner d
      → reads atoi params (d ++ rest) next (some acc)
        ≡ reads atoi params rest next (some (acc ++ d))
  unfolding reads
  reads-inner [] rest acc next h =
      ap (λ x. reads atoi params rest next (some x)) (sym (append-nil acc))
  reads-inner (c ∷ d) rest acc next ((p, q, r), hs) =
      let e1 : (c == b'%') ≡ false = ground (arith, p) in
      let e2 : (c == b'@' || c == b's') ≡ false = ground (arith, q, r) in
      rw (e1, e2)
        (reads-inner d rest (acc ++ c ∷ []) next hs
          ∙ ap (λ x. reads atoi params rest next (some x)) (append_assoc acc (c ∷ []) d))

  last-dollar : (d : Bytes) → get_elem? (d ++ b'$' ∷ []) (length (d ++ b'$' ∷ []) - 1) ≡ some b'$'
  last-dollar d =
      ap (get_elem? (d ++ b'$' ∷ [])) (omega (arith, length-append d (b'$' ∷ []))) ∙ at_length d

  do_fmt-dollar :
      (d : Bytes) (n : ℕ) → d ≢ [] → atoi d ≡ some (pos n) → do_fmt atoi (d ++ b'$' ∷ []) ≡ pos n
  unfolding do_fmt numbered or_minus_one
  do_fmt-dollar d n h e =
      let filled = filled_length d h in
      let longer = length-append d (b'$' ∷ []) in
      let some_length : (length (d ++ b'$' ∷ []) == 0) ≡ false = ground (arith, filled, longer) in
      let two : ltb (length (d ++ b'$' ∷ [])) 2 ≡ false = ground (arith, filled, longer) in
      let front : take (length (d ++ b'$' ∷ []) - 1) (d ++ b'$' ∷ []) ≡ d =
        take-append_front (length (d ++ b'$' ∷ []) - 1) d (b'$' ∷ []) (omega (arith, longer)) in
      rw (some_length, two, last-dollar d, front, e) refl

  replaced_in_turn :
      (v : Bytes) (n : ℕ)
      → replaced params v (pos 0) (suc n)
        ≡ (param_or_nil (get_elem? params n), suc (counted_on (get_elem? params n) n))
  unfolding replaced
  replaced_in_turn v n =
      ap (λ m. given (get_elem? params m) (suc n + 1) (suc n)) (omega arith)
      ∙ given_in_turn (get_elem? params n) n

  replaced_nth :
      (v : Bytes) (k next : ℕ)
      → replaced params v (pos (suc k)) next ≡ (param_or_nil (get_elem? params k), next)
  unfolding replaced
  replaced_nth v k next = given_nth (get_elem? params k) next

  reads-render :
      (itoa : ℕ → Bytes) (ps : List Piece) (n : ℕ)
      → Prints itoa atoi
      → All InInt ps
      → reads atoi params (render itoa ps) (suc n) none ≡ text_of params n ps
  unfolding reads do_fmt
  reads-render itoa [] n h is = refl
  reads-render itoa (literal t ∷ ps) n h (_, is) =
      reads-escape t (render itoa ps) (suc n) ∙ ap (◌++◌ t) (reads-render itoa ps n h is)
  reads-render itoa (in_turn ∷ ps) n h (_, is) = rw (replaced_in_turn (codes "%s") n) (
      ap (◌++◌ (param_or_nil (get_elem? params n)))
        (reads-render itoa ps (counted_on (get_elem? params n) n) h is))
  reads-render itoa (numbered_piece k ∷ ps) n h (small, is) =
      let (e, inner, filled) = h (suc k) small in
      let digits = itoa (suc k) in
      let ends : All IsInner (digits ++ b'$' ∷ []) =
        All-append IsInner digits (b'$' ∷ []) inner
          ((ground arith, ground arith, ground arith), tt) in
      reads-inner (digits ++ b'$' ∷ []) (b's' ∷ render itoa ps) [] (suc n) ends
      ∙ rw
          (
            do_fmt-dollar digits (suc k) filled e,
            replaced_nth (b'%' ∷ ((digits ++ b'$' ∷ []) ++ b's' ∷ [])) k (suc n),
          )
          (ap (◌++◌ (param_or_nil (get_elem? params k))) (reads-render itoa ps n h is))

-- Of a format that is made of literal texts, with their percent signs doubled, and of formats in
-- turn or with a number below 2^63, LocationText makes the literal texts and the parameters in their
-- places, and nothing for a format without a parameter, where the numbers are printed as strconv.Atoi
-- reads them.
pub location_text-render :
    (itoa : ℕ → Bytes) (atoi : Bytes → Option ℤ) (ps : List Piece) (params : List Bytes)
    → Prints itoa atoi
    → All InInt ps
    → location_text atoi (render itoa ps) params ≡ text_of params 0 ps
location_text-render itoa atoi ps params h is =
    location_text-reads atoi (render itoa ps) params ∙ reads-render atoi params itoa ps 0 h is
