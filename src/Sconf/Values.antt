-- ===== src/Sconf/Values.antt =====
-- sconf/TierConf.go: what the typed getters return.
use sutil.Prelude.Text.{Bytes, codes, split}
use sutil.Prelude.Decimal.{parse_uint}
use native.Mathlib.Nat.{one-le-pow}
use sutil.Mq.{ℤ, pos, negsuc}
use sutil.Sconf.{Conf, Result, ok, err, stuck, to_string}
use sutil.Sconf.Termination.{to_string-ne-stuck}
use sutil.Sconf.Refs.{trim}
use sutil.Sconf.Getters.{
  Got, got, failed, lost, signed, parse_int, of_option, parsed, then_each, parse_all, bind_got,
  to_int, to_int32, to_slice_string, to_slice_int,
}
use sutil.Prelude.{
  ℕ, zero, suc, ◌-◌, ◌^◌, ◌<◌, ◌≡◌, refl, ◌≢◌, ◌↔◌, Bool, true, false, Option, none, some, List, [],
  ◌∷◌, ltb→lt, ◌==◌, map, arith, Bool-cases, inl, inr,
}

-- an integer of two's complement
abbrev pub Fits : ℕ → ℤ → Type 0
Fits bits (pos n) = n < 2 ^ (bits - 1)
Fits bits (negsuc n) = n < 2 ^ (bits - 1)

two_power_pos : (k : ℕ) → 0 < 2 ^ k
two_power_pos k = one-le-pow k 2 (omega arith)

signed-Fits :
    (minus : Bool) (bits : ℕ) (o : Option ℕ) (n : ℤ) → signed minus bits o ≡ some n → Fits bits n
unfolding signed
signed-Fits minus bits none n h = absurd (cc)
signed-Fits false bits (some m) (pos n) h = ground (arith, ltb→lt m (2 ^ (bits - 1)))
signed-Fits false bits (some m) (negsuc n) h = ground arith
signed-Fits true bits (some zero) (pos n) h = ground (arith, two_power_pos (bits - 1))
signed-Fits true bits (some zero) (negsuc n) h = ground arith
signed-Fits true bits (some (suc m)) (pos n) h = ground arith
signed-Fits true bits (some (suc m)) (negsuc n) h = ground (arith, ltb→lt m (2 ^ (bits - 1)))

parse_int-Fits : (s : Bytes) (bits : ℕ) (n : ℤ) → parse_int s bits ≡ some n → Fits bits n
unfolding parse_int
parse_int-Fits [] bits n h = absurd (cc)
parse_int-Fits (c ∷ s) bits n h = elim (Bool-cases (c == b'-')) [
  | inl e ↦ signed-Fits true bits (parse_uint s bits) n (rw e at h)
  | inr e ↦ elim (Bool-cases (c == b'+')) [
    | inl p ↦ signed-Fits false bits (parse_uint s bits) n (rw (e, p) at h)
    | inr p ↦ signed-Fits false bits (parse_uint (c ∷ s) bits) n (rw (e, p) at h)
  ]
]

then_each_iff :
    (o : Option ℤ) (r : Option (List ℤ)) (m : List (Option ℤ)) (n : ℤ) (ns : List ℤ)
    → ((r ≡ some ns) ↔ (m ≡ map some ns))
    → (then_each o r ≡ some (n ∷ ns)) ↔ (o ∷ m ≡ some n ∷ map some ns)
then_each_iff none r m n ns ih = (λ h. cc, λ h. cc)
then_each_iff (some x) none m n ns ih = (λ h. cc, λ h. let k = ih.1 (cc) in cc)
then_each_iff (some x) (some ys) m n ns ih =
    (λ h. let k = ih.0 (cc) in cc, λ h. let k = ih.1 (cc) in cc)

then_each_more : (o : Option ℤ) (r : Option (List ℤ)) → then_each o r ≢ some []
then_each_more none r h = cc
then_each_more (some x) none h = cc
then_each_more (some x) (some ys) h = cc

parse_all_iff :
    (vs : List Bytes) (ns : List ℤ)
    → (parse_all vs ≡ some ns) ↔ (map (λ v. parse_int v 64) vs ≡ map some ns)
unfolding parse_all
parse_all_iff [] [] = (λ h. refl, λ h. refl)
parse_all_iff [] (n ∷ ns) = (λ h. cc, λ h. cc)
parse_all_iff (v ∷ vs) [] =
    (λ h. absurd (then_each_more (parse_int v 64) (parse_all vs) h), λ h. cc)
parse_all_iff (v ∷ vs) (n ∷ ns) =
    then_each_iff (parse_int v 64) (parse_all vs) (map (λ v. parse_int v 64) vs) n ns
      (parse_all_iff vs ns)

of_option-got : {A : Type 0} (o : Option A) (a : A) → of_option o ≡ got a → o ≡ some a
of_option-got none a h = cc
of_option-got (some b) a h = cc

of_option-ne-lost : {A : Type 0} (o : Option A) → of_option o ≢ lost
of_option-ne-lost none h = cc
of_option-ne-lost (some b) h = cc

parsed-got :
    {A : Type 0} (parse : Bytes → Option A) (r : Result) (a : A)
    → parsed parse r ≡ got a
    → (v : Bytes) × (r ≡ ok v) × (parse v ≡ some a)
parsed-got parse (ok v) a h = (v, refl, of_option-got (parse v) a h)
parsed-got parse (err e) a h = absurd (cc)
parsed-got parse stuck a h = absurd (cc)

parsed-ne-lost :
    {A : Type 0} (parse : Bytes → Option A) (r : Result) → r ≢ stuck → parsed parse r ≢ lost
parsed-ne-lost parse (ok v) n h = of_option-ne-lost (parse v) h
parsed-ne-lost parse (err e) n h = cc
parsed-ne-lost parse stuck n h = n refl

bind_got_iff :
    (g : Got (List Bytes)) (ns : List ℤ)
    → (bind_got g parse_all ≡ got ns)
      ↔ ((vs : List Bytes) × (g ≡ got vs) × (map (λ v. parse_int v 64) vs ≡ map some ns))
bind_got_iff (got vs) ns = (
  λ h. (vs, refl, (parse_all_iff vs ns).0 (of_option-got (parse_all vs) ns h)),
  λ (xs, e, p).
      let read = (parse_all_iff xs ns).1 p in
      let same : parse_all vs ≡ some ns = cc in rw same refl,
)
bind_got_iff failed ns = (λ h. cc, λ (vs, e, p). cc)
bind_got_iff lost ns = (λ h. cc, λ (vs, e, p). cc)

module _ (conf : Conf) (section property : Bytes) where
  -- The integers that the getters return fit the width that they are converted to.
  pub to_int-Fits :
      (n : ℤ)
      → (to_int conf section property ≡ got n → Fits 64 n)
        × (to_int32 conf section property ≡ got n → Fits 32 n)
  unfolding to_int to_int32
  to_int-Fits n = (
    λ h.
        let (v, r, p) = parsed-got (λ v. parse_int v 64) (to_string conf section property) n h in
        parse_int-Fits v 64 n p,
    λ h.
        let (v, r, p) = parsed-got (λ v. parse_int v 32) (to_string conf section property) n h in
        parse_int-Fits v 32 n p,
  )

  -- `ToSliceInt` gives a list exactly if `ToSliceString` gives one whose elements are all integers: it is
  -- the list of these, in order. Neither is left without a result.
  pub to_slice_int_iff :
      (sep : ℕ) (ns : List ℤ)
      → ((to_slice_int conf section property sep ≡ got ns) ↔ (
          (vs : List Bytes) × (to_slice_string conf section property sep ≡ got vs)
          × (map (λ v. parse_int v 64) vs ≡ map some ns)))
        × (to_slice_string conf section property sep ≢ lost)
  unfolding to_slice_int to_slice_string
  to_slice_int_iff sep ns = (
    bind_got_iff (to_slice_string conf section property sep) ns,
    parsed-ne-lost (λ v. some (map (trim (codes " \t")) (split v sep)))
        (to_string conf section property) (to_string-ne-stuck conf section property),
  )
