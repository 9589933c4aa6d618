-- ===== src/Version/Ordering.antt =====
-- sutil.go: versions are ordered by the numbers that their parts are.
use sutil.Prelude.Text.{Bytes, split}
use sutil.Version.{pad, fmt_parts, fmtver, new_version_cmp, less, lt, lte, gt, gte, hash_v}
use sutil.Prelude.{
  ℕ, zero, suc, ◌+◌, ◌-◌, ◌*◌, ◌%◌, ◌<◌, ◌≤◌, ◌≡◌, refl, ap, Bool, true, false, not, some, List, [],
  ◌∷◌, ◌++◌, ltb, ◌==◌, if◌then◌else◌, length, replicate, All, arith, length-append,
  length-replicate, map, get_elem?, All-append,
}

abbrev pub IsDigits : Bytes → Type 0
IsDigits s = All (λ c. (b'0' ≤ c) × (c ≤ b'9')) s

-- the number that digits write, behind what was read before
unfoldable pub value_from : ℕ → Bytes → ℕ
value_from n [] = n
value_from n (c ∷ s) = value_from (10 * n + (c - b'0')) s

-- the order of lists of numbers: by the first that differs, and a beginning before the whole
unfoldable pub numbers_less : List ℕ → List ℕ → Bool
numbers_less [] [] = false
numbers_less [] (y ∷ ys) = true
numbers_less (x ∷ xs) [] = false
numbers_less (x ∷ xs) (y ∷ ys) = if x == y then numbers_less xs ys else ltb x y

value_from-lt :
    (s t : Bytes) (n m : ℕ)
    → length s ≡ length t
    → IsDigits s
    → IsDigits t
    → n < m
    → value_from n s < value_from m t
unfolding value_from
value_from-lt [] [] n m e ds dt h = h
value_from-lt [] (d ∷ t) n m e ds dt h = absurd (omega (arith, e))
value_from-lt (c ∷ s) [] n m e ds dt h = absurd (omega (arith, e))
value_from-lt (c ∷ s) (d ∷ t) n m e ds dt h =
    value_from-lt s t (10 * n + (c - b'0')) (10 * m + (d - b'0')) (omega (arith, e)) ds.1 dt.1
      (omega (arith, h, ds.0, dt.0))

less-append :
    (s t x y : Bytes) (n : ℕ)
    → length s ≡ length t
    → IsDigits s
    → IsDigits t
    → less (s ++ x) (t ++ y) ≡ (
        if value_from n s == value_from n t
        then less x y
        else ltb (value_from n s) (value_from n t))
unfolding less value_from
less-append [] [] x y n e ds dt = ground arith
less-append [] (d ∷ t) x y n e ds dt = absurd (omega (arith, e))
less-append (c ∷ s) [] x y n e ds dt = absurd (omega (arith, e))
less-append (c ∷ s) (d ∷ t) x y n e ds dt = ground (
  arith,
  less-append s t x y (10 * n + (c - b'0')) (omega (arith, e)) ds.1 dt.1,
  value_from-lt s t (10 * n + (c - b'0')) (10 * n + (d - b'0')) (omega (arith, e)) ds.1 dt.1,
  value_from-lt t s (10 * n + (d - b'0')) (10 * n + (c - b'0')) (omega (arith, e)) dt.1 ds.1,
)

-- the parts that the width leaves whole
abbrev pub IsPart : Bytes → Type 0
IsPart s = IsDigits s × (length s ≤ 20)

zeros-IsDigits : (n : ℕ) → IsDigits (replicate n b'0')
zeros-IsDigits zero = tt
zeros-IsDigits (suc n) = (omega arith, zeros-IsDigits n)

value_from-zeros : (n : ℕ) (s : Bytes) → value_from 0 (replicate n b'0' ++ s) ≡ value_from 0 s
unfolding value_from
value_from-zeros zero s = refl
value_from-zeros (suc n) s = value_from-zeros n s

pad_lem :
    (s : Bytes)
    → IsPart s
    → (length (pad s) ≡ 20) × IsDigits (pad s) × (value_from 0 (pad s) ≡ value_from 0 s)
unfolding pad
pad_lem s (ds, short) = (
  omega (
    arith,
    length-append (replicate (20 - length s) b'0') s,
    length-replicate {A = ℕ} (20 - length s) b'0',
    short,
  ),
  All-append (λ c. (b'0' ≤ c) × (c ≤ b'9')) (replicate (20 - length s) b'0') s
      (zeros-IsDigits (20 - length s)) ds,
  value_from-zeros (20 - length s) s,
)

less_behind-nil :
    (s t : Bytes) → 0 < length s → (less [] (s ++ t) ≡ true) × (less (s ++ t) [] ≡ false)
unfolding less
less_behind-nil [] t h = absurd (omega (arith, h))
less_behind-nil (c ∷ s) t h = (refl, refl)

less-fmt_parts :
    (ps qs : List Bytes)
    → All IsPart ps
    → All IsPart qs
    → less (fmt_parts ps) (fmt_parts qs)
      ≡ numbers_less (map (value_from 0) ps) (map (value_from 0) qs)
unfolding fmt_parts numbers_less
less-fmt_parts [] [] hp hq = unfold less in refl
less-fmt_parts [] (q ∷ qs) hp (hq, hqs) =
    (less_behind-nil (pad q) (fmt_parts qs) (omega (arith, (pad_lem q hq).0))).0
less-fmt_parts (p ∷ ps) [] (hp, hps) hq =
    (less_behind-nil (pad p) (fmt_parts ps) (omega (arith, (pad_lem p hp).0))).1
less-fmt_parts (p ∷ ps) (q ∷ qs) (hp, hps) (hq, hqs) =
    let (lp, dp, vp) = pad_lem p hp in
    let (lq, dq, vq) = pad_lem q hq in
    let step =
      less-append (pad p) (pad q) (fmt_parts ps) (fmt_parts qs) 0 (omega (arith, lp, lq)) dp dq in
    rw (step, vp, vq, less-fmt_parts ps qs hps hqs) refl

-- Where the parts between the dots are digits, at most twenty each, versions are ordered by the numbers
-- of their parts, the first difference deciding, and a version before the longer ones that begin with
-- it. `Lt`, `Lte`, `Gt` and `Gte` follow this order.
pub lt-numbers_less :
    (v w : Bytes)
    → All IsPart (split v b'.')
    → All IsPart (split w b'.')
    → (lt (new_version_cmp v) w
        ≡ numbers_less (map (value_from 0) (split v b'.')) (map (value_from 0) (split w b'.')))
      × (gt (new_version_cmp v) w
          ≡ numbers_less (map (value_from 0) (split w b'.')) (map (value_from 0) (split v b'.')))
      × (lte (new_version_cmp v) w
          ≡ not (
              numbers_less (map (value_from 0) (split w b'.')) (map (value_from 0) (split v b'.'))))
      × (gte (new_version_cmp v) w
          ≡ not (
              numbers_less (map (value_from 0) (split v b'.')) (map (value_from 0) (split w b'.'))))
unfolding lt gt lte gte new_version_cmp fmtver
lt-numbers_less v w hv hw =
    let up = less-fmt_parts (split v b'.') (split w b'.') hv hw in
    let down = less-fmt_parts (split w b'.') (split v b'.') hw hv in
    (up, down, ap not down, ap not up)

get_elem?-in {ℓ} :
    {A : Type ℓ} (xs : List A) (i : ℕ) → i < length xs → (x : A) × (get_elem? xs i ≡ some x)
get_elem?-in [] i h = absurd (omega (arith, h))
get_elem?-in (x ∷ xs) zero h = (x, refl)
get_elem?-in (x ∷ xs) (suc i) h = get_elem?-in xs i (omega (arith, h))

-- For every hash function and key an address is found: the index never runs out of the list.
pub hash_v_returns :
    (hash : Bytes → ℕ) (addrs : List Bytes) (key : Bytes)
    → (addr : Bytes) × (hash_v hash addrs key ≡ some addr)
unfolding hash_v
hash_v_returns hash [] key = ([], refl)
hash_v_returns hash (a ∷ addrs) key =
    get_elem?-in (a ∷ addrs) (hash key % length (a ∷ addrs)) (grind arith)
