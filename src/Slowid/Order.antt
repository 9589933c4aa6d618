-- ===== src/Slowid/Order.antt =====
-- The ids of one generator grow from call to call, as long as no call in between has failed; behind
-- a failed call an id can come back.
use Prim.Native.Nat.{bit_and}
use sutil.Slowid.{
  Slowid, pack, timestamp, til_greater, til_next_millis, next, issued, max_sequence, Outcome,
  precedes, waiting,
}
use sutil.Prelude.{
  ℕ, zero, suc, ◌+◌, ◌-◌, ◌%◌, ◌^◌, ◌<◌, ◌≡◌, refl, ◌⊎◌, inl, inr, some, List, [], ◌∷◌, arith, leb,
  Bool-cases, Option-cases, Option, none, ap, ◌∙◌,
}
use sutil.Slowid.Fields.{Fits, pack_sum}

next_sequence : (s : ℕ) → s < 2 → bit_and ((s + 1) % 2 ^ 32) max_sequence ≡ 1 - s
next_sequence zero h = refl
next_sequence (suc zero) h = refl
next_sequence (suc (suc s)) h = absurd (omega arith)

lt-til_greater : (ts : ℕ) (clock : List ℕ) {t : ℕ} → til_greater ts clock ≡ some t → ts < t
unfolding til_greater
lt-til_greater ts [] e = cc
lt-til_greater ts (now ∷ clock) e = elim (Bool-cases (leb (timestamp now) ts)) [
  | inl low ↦ lt-til_greater ts clock (ground arith)
  | inr high ↦ ground arith
]

lt-til_next_millis : (ts : ℕ) (clock : List ℕ) {t : ℕ} → til_next_millis ts clock ≡ some t → ts < t
unfolding til_next_millis
lt-til_next_millis ts [] e = cc
lt-til_next_millis ts (un ∷ clock) e = lt-til_greater ts clock e

-- what a call that issues an id does to the state: time goes on, or the sequence does
record Advances (sf sf' : Slowid) : Type 0 where
  same_worker : sf'.worker_id ≡ sf.worker_id
  seq : sf'.sequence < 2
  later :
      (sf.last_timestamp < sf'.last_timestamp)
      ⊎ ((sf'.last_timestamp ≡ sf.last_timestamp) × (sf.sequence < sf'.sequence))

next-Advances :
    (sf sf' : Slowid) (clock : List ℕ) {id : ℕ}
    → sf.sequence < 2
    → next sf clock ≡ (sf', issued id)
    → Advances sf sf' × (id ≡ pack sf')
unfolding next
next-Advances sf sf' [] h e = cc
next-Advances sf sf' (now ∷ clock) h e =
    elim (Option-cases (til_next_millis (timestamp now) clock)) [
      | inl stuck ↦ ground (arith, next_sequence sf.sequence h)
      | inr (t, found) ↦
          ground
            (arith, next_sequence sf.sequence h, lt-til_next_millis (timestamp now) clock found)
    ]

Fits-back : {sf sf' : Slowid} → Advances sf sf' → sf.sequence < 2 → Fits sf' → Fits sf
Fits-back a s f = record {
  time = omega (arith, a.later, f.time);
  worker = omega (arith, a.same_worker, f.worker);
  seq = s;
}

pack-Advances : (sf sf' : Slowid) → Advances sf sf' → Fits sf → Fits sf' → pack sf < pack sf'
pack-Advances sf sf' a f f' =
    omega
      (arith, pack_sum sf f, pack_sum sf' f', a.later, a.same_worker, f.worker, f.seq, f'.worker)

-- The calls of `Next` on one generator, each with the clock that it sees: the state behind them and
-- the ids, where every call issues one.
issued_id : Outcome → Option ℕ
issued_id (issued id) = some id
issued_id precedes = none
issued_id waiting = none

unfoldable pub ids : Slowid → List (List ℕ) → Option (Slowid × List ℕ)
unfolding issued_id
ids sf [] = some (sf, [])
ids sf (clock ∷ calls) = elim (issued_id (next sf clock).1) [
  | none ↦ none
  | some id ↦ elim (ids (next sf clock).0 calls) [
    | none ↦ none
    | some (sf', out) ↦ some (sf', id ∷ out)
  ]
]

-- every number is above the one before it, the first above `low`
abbrev pub Increasing : ℕ → List ℕ → Type 0
Increasing low [] = Unit
Increasing low (x ∷ xs) = (low < x) × Increasing x xs

Outcome-cases :
    (r : Slowid × Outcome)
    → ((s : Slowid) × (id : ℕ) × (r ≡ (s, issued id))) ⊎ (issued_id r.1 ≡ none)
unfolding issued_id
Outcome-cases (s, issued id) = inl (s, id, refl)
Outcome-cases (s, precedes) = inr refl
Outcome-cases (s, waiting) = inr refl

ids_step :
    (sf s : Slowid) (id : ℕ) (clock : List ℕ) (calls : List (List ℕ)) {r : Slowid × List ℕ}
    → next sf clock ≡ (s, issued id)
    → ids sf (clock ∷ calls) ≡ some r
    → (out : List ℕ) × (ids s calls ≡ some (r.0, out)) × (r.1 ≡ id ∷ out)
unfolding ids
ids_step sf s id clock calls e h = elim (Option-cases (ids s calls)) [
  | inl n ↦ ground arith
  | inr ((sf', out), found) ↦ (out, ground arith, ground arith)
]

ids_failed :
    (sf : Slowid) (clock : List ℕ) (calls : List (List ℕ)) {r : Slowid × List ℕ}
    → issued_id (next sf clock).1 ≡ none
    → ids sf (clock ∷ calls) ≡ some r
    → ⊥
unfolding ids
ids_failed sf clock calls failed e = ground arith

ids_grow :
    (calls : List (List ℕ)) (sf sf' : Slowid) (out : List ℕ)
    → sf.sequence < 2
    → ids sf calls ≡ some (sf', out)
    → Fits sf'
    → Fits sf × Increasing (pack sf) out
ids_grow [] sf sf' out s e f = unfold ids in ground arith
ids_grow (clock ∷ calls) sf sf' out s e f = elim (Outcome-cases (next sf clock)) [
  | inl (m, id, n) ↦
      let (later, more, whole) = ids_step sf m id clock calls n e in
      let (a, packed) = next-Advances sf m clock s n in
      let (fits, grows) = ids_grow calls m sf' later a.seq more f in
      let fits' = Fits-back a s fits in
      (fits', rw (whole, packed) (pack-Advances sf m a fits' fits, grows))
  | inr failed ↦ absurd (ids_failed sf clock calls failed e)
]

-- Over calls of `Next` that each issue an id, the ids strictly increase (so none comes twice), all
-- above the id that the state packed before, as long as the last time fits 41 bits and the worker 10.
pub ids-Increasing :
    (calls : List (List ℕ)) (sf sf' : Slowid) (out : List ℕ)
    → sf.sequence < 2
    → ids sf calls ≡ some (sf', out)
    → Fits sf'
    → Increasing (pack sf) out
ids-Increasing calls sf sf' out s e f = (ids_grow calls sf sf' out s e f).1

-- the failed call: the sequence is reset all the same
next_back :
    (sf : Slowid) (back : ℕ) (rest : List ℕ)
    → timestamp back < sf.last_timestamp
    → next sf (back ∷ rest) ≡ (record sf { sequence = 0 }, precedes)
unfolding next
next_back sf back rest b = ground arith

next_same :
    (sf : Slowid) (now : ℕ) (rest : List ℕ)
    → sf.sequence ≡ 0
    → timestamp now ≡ sf.last_timestamp
    → next sf (now ∷ rest)
      ≡ (record sf { sequence = 1 }, issued (pack (record sf { sequence = 1 })))
unfolding next
next_same sf now rest s n = ground (arith, next_sequence sf.sequence (omega arith))

-- Where the state has issued the second id of its millisecond, a call
-- that sees an earlier time fails, yet has set the sequence to 0: a call that then sees the same
-- millisecond again issues the id that was issued last, once more.
pub reissue_after_failure :
    (sf : Slowid) (now back : ℕ) (rest rest' : List ℕ)
    → sf.sequence ≡ 1
    → timestamp back < sf.last_timestamp
    → timestamp now ≡ sf.last_timestamp
    → ((next sf (back ∷ rest)).1 ≡ precedes)
      × (next (next sf (back ∷ rest)).0 (now ∷ rest') ≡ (sf, issued (pack sf)))
reissue_after_failure sf now back rest rest' s b n = rw (next_back sf back rest b) (
  refl,
  next_same (record sf { sequence = 0 }) now rest' refl n
      ∙ ap (λ (t : Slowid). (t, issued (pack t))) (same_sequence sf s),
)
  where
    same_sequence : (t : Slowid) → t.sequence ≡ 1 → record t { sequence = 1 } ≡ t
    same_sequence t h = ground arith
