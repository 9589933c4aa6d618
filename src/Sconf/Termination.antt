-- ===== src/Sconf/Termination.antt =====
-- The expansion of references ends: every level that finds its property adds one name to the history
-- that was not there, and a configuration has only so many properties.
use sutil.Sconf.Refs.{Found, find_all, trim}
use sutil.Sconf.{
  Conf, Result, ok, err, stuck, find, in_history, one_ref, parse_refs, parse_var, expand, size,
  to_string,
}
use sutil.Prelude.{
  ℕ, ◌+◌, ◌≤◌, ◌<◌, ◌≡◌, ◌≢◌, false, ◌||◌, some, List, [], ◌∷◌, ◌++◌, arith, if◌then◌else◌, zero,
  suc, refl, ◌⊎◌, inl, inr, Bool-cases, Option-cases, length, take, drop,
}
use sutil.Prelude.Text.{Bytes, text_eq, codes, text_eq_iff, text_eq_refl, index}
use sutil.Prelude.Maps.{Dict, lookup}

abbrev pub full_name : Bytes → Bytes → Bytes
full_name section property = section ++ (b'.' ∷ property)

-- the number of properties whose names are not in the history
unfoldable pub fresh_in : List Bytes → Bytes → Dict Bytes → ℕ
fresh_in history name [] = 0
fresh_in history name ((k, v) ∷ s) =
    (if in_history (full_name name k) history then 0 else 1) + fresh_in history name s

unfoldable pub fresh : List Bytes → Conf → ℕ
unfolding fresh_in
fresh history [] = 0
fresh history ((name, s) ∷ conf) = fresh_in history name s + fresh history conf

pub in_history-append :
    (a : Bytes) (history : List Bytes) (b : Bytes)
    → in_history a (history ++ b ∷ []) ≡ (in_history a history || text_eq a b)
unfolding in_history
in_history-append a [] b = ground arith
in_history-append a (h ∷ history) b = ground (arith, in_history-append a history b)

module _ (history : List Bytes) (x : Bytes) where
  fresh_in-le :
      (name : Bytes) (s : Dict Bytes)
      → fresh_in (history ++ x ∷ []) name s ≤ fresh_in history name s
  unfolding fresh_in
  fresh_in-le name [] = omega arith
  fresh_in-le name ((k, v) ∷ s) =
      ground (arith, in_history-append (full_name name k) history x, fresh_in-le name s)

  fresh-le : (conf : Conf) → fresh (history ++ x ∷ []) conf ≤ fresh history conf
  unfolding fresh
  fresh-le [] = omega arith
  fresh-le ((name, s) ∷ conf) = omega (arith, fresh_in-le name s, fresh-le conf)

module _ (history : List Bytes) (section property : Bytes)
    (unseen : in_history (full_name section property) history ≡ false) where
  fresh_in-lt :
      (s : Dict Bytes) {v : Bytes}
      → lookup property s ≡ some v
      → fresh_in (history ++ full_name section property ∷ []) section s < fresh_in history section s
  unfolding fresh_in lookup
  fresh_in-lt [] {v = w} e = cc
  fresh_in-lt ((k, v) ∷ s) {v = w} e = ground (
    arith,
    text_eq_iff k property,
    in_history-append (full_name section k) history (full_name section property),
    text_eq_refl (full_name section property),
    fresh_in-le history (full_name section property) section s,
    fresh_in-lt s {v = w},
  )

  fresh-lt :
      (conf : Conf) {v : Bytes}
      → find conf section property ≡ ok v
      → fresh (history ++ full_name section property ∷ []) conf < fresh history conf
  unfolding fresh find lookup
  fresh-lt [] e = cc
  fresh-lt ((name, s) ∷ conf) {v = w} e = elim (Bool-cases (text_eq name section)) [
    | inl here ↦ elim (Option-cases (lookup property s)) [
      | inl missing ↦ ground arith
      | inr (v, found) ↦ ground (
        arith,
        text_eq_iff name section,
        fresh_in-lt s found,
        fresh-le history (full_name section property) conf,
      )
    ]
    | inr other ↦
        ground
          (arith, fresh-lt conf {v = w}, fresh_in-le history (full_name section property) name s)
  ]

fresh_in-length : (name : Bytes) (s : Dict Bytes) → fresh_in [] name s ≤ length s
unfolding fresh_in in_history
fresh_in-length name [] = omega arith
fresh_in-length name ((k, v) ∷ s) = omega (arith, fresh_in-length name s)

fresh-size : (conf : Conf) → fresh [] conf ≤ size conf
unfolding fresh size
fresh-size [] = omega arith
fresh-size ((name, s) ∷ conf) = omega (arith, fresh_in-length name s, fresh-size conf)

-- One reference is expanded where its own expansion is, under a history that it is not in.
one_ref-ne-stuck :
    (ex : List Bytes → Bytes → Bytes → Result) (history : List Bytes) (pv : Bytes)
    → ((s p : Bytes)
        → in_history (full_name s p) history ≡ false
        → ex (history ++ full_name s p ∷ []) s p ≢ stuck)
    → one_ref ex history pv ≢ stuck
unfolding one_ref
one_ref-ne-stuck ex history pv h = elim (Option-cases (index (trim (codes " \t${}") pv) b'.')) [
  | inl bare ↦ ground arith
  | inr (tmp, dot) ↦
      let v = trim (codes " \t${}") pv in
      ground (arith, h (trim (codes " \t") (take tmp v)) (trim (codes " \t") (drop (suc tmp) v)))
]

parse_refs-ne-stuck :
    (ex : List Bytes → Bytes → Bytes → Result) (history : List Bytes)
    → ((s p : Bytes)
        → in_history (full_name s p) history ≡ false
        → ex (history ++ full_name s p ∷ []) s p ≢ stuck)
    → (fs : List Found) (behind : Bytes) → parse_refs ex history fs behind ≢ stuck
unfolding parse_refs
parse_refs-ne-stuck ex history h [] behind = λ e. cc
parse_refs-ne-stuck ex history h (f ∷ fs) behind =
    ground (arith, one_ref-ne-stuck ex history f.ref h, parse_refs-ne-stuck ex history h fs behind)

pub find-ne-stuck : (conf : Conf) (s p : Bytes) → find conf s p ≢ stuck
unfolding find
find-ne-stuck conf s p = ground arith

-- a property that is not there costs one unit of fuel
pub expand_missing :
    (fuel : ℕ) (conf : Conf) (history : List Bytes) (s p : Bytes) {e : Bytes}
    → 0 < fuel
    → find conf s p ≡ err e
    → expand fuel conf history s p ≡ err e
unfolding expand
expand_missing zero conf history s p pos h = absurd (omega arith)
expand_missing (suc fuel) conf history s p pos h = ground arith

pub expand_found :
    (fuel : ℕ) (conf : Conf) (history : List Bytes) (s p : Bytes) {v : Bytes}
    → find conf s p ≡ ok v
    → expand (suc fuel) conf history s p
      ≡ parse_refs (expand fuel conf) history (find_all v).0 (find_all v).1
unfolding expand parse_var
expand_found fuel conf history s p h = ground arith

pub Result-cases :
    (r : Result) → ((v : Bytes) × (r ≡ ok v)) ⊎ (((e : Bytes) × (r ≡ err e)) ⊎ (r ≡ stuck))
Result-cases (ok v) = inl (v, refl)
Result-cases (err e) = inr (inl (e, refl))
Result-cases stuck = inr (inr refl)

expand-ne-stuck :
    (fuel : ℕ) (conf : Conf) (history : List Bytes) (s p : Bytes)
    → suc (fresh history conf) < fuel
    → expand fuel conf history s p ≢ stuck
expand-ne-stuck zero conf history s p h = absurd (omega arith)
expand-ne-stuck (suc fuel) conf history s p h = elim (Result-cases (find conf s p)) [
  | inl (v, e) ↦ rw (expand_found fuel conf history s p e) (
      parse_refs-ne-stuck (expand fuel conf) history (below (expand-ne-stuck fuel conf))
        (find_all v).0 (find_all v).1)
  | inr (inl (x, e)) ↦ rw (expand_missing (suc fuel) conf history s p (omega arith) e) (λ q. cc)
  | inr (inr e) ↦ absurd (find-ne-stuck conf s p e)
]
  where
    below :
        ((hs : List Bytes) (s' p' : Bytes)
          → suc (fresh hs conf) < fuel
          → expand fuel conf hs s' p' ≢ stuck)
        → (s' p' : Bytes) → in_history (full_name s' p') history ≡ false
        → expand fuel conf (history ++ full_name s' p' ∷ []) s' p' ≢ stuck
    below ih s' p' unseen = elim (Result-cases (find conf s' p')) [
      | inl (v, e) ↦ ih _ s' p' (omega (arith, fresh-lt history s' p' unseen conf e))
      | inr (inl (x, e)) ↦ rw (expand_missing fuel conf _ s' p' (omega arith) e) (λ q. cc)
      | inr (inr e) ↦ absurd (find-ne-stuck conf s' p' e)
    ]

-- `ToString` returns on every configuration, section and property, however its references point at
-- one another: one level of references for each property, and two more, is enough.
pub to_string-ne-stuck : (conf : Conf) (s p : Bytes) → to_string conf s p ≢ stuck
unfolding to_string
to_string-ne-stuck conf s p = expand-ne-stuck _ conf [] s p (omega (arith, fresh-size conf))
