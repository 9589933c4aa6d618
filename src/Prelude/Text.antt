-- ===== src/Prelude/Text.antt =====
-- Go's byte strings as lists of byte values, and the functions of package strings that the modelled
-- code calls on them.
use Prim.Native.Char.{code}
use Prim.Native.Nat.{ℕ, zero, suc, ◌<◌}
use Prim.Native.String.{String}
use mathlib.Core.Bool.{Bool, true, false, ◌&&◌, ◌||◌}
use mathlib.Core.List.{List, [], ◌∷◌, ◌++◌}
use mathlib.Core.Logic.{◌↔◌, ◌≢◌, inl, inr}
use mathlib.Core.Option
use mathlib.Core.Option.{Option, none, some}
use mathlib.Core.Path.{◌≡◌, refl, ap, ◌∙◌}
use native.Mathlib.Omega.{arith}
use sutil.Prelude.Booleans.{◌==◌, if◌then◌else◌, Bool-cases}
use sutil.Prelude.Lists.{length, take, drop, All}

abbrev pub Bytes : Type 0
Bytes = List ℕ

-- the bytes of an ASCII literal
abbrev pub codes : String → Bytes
codes String.[] = []
codes (String.◌∷◌ c s) = code c ∷ codes s

-- `a == b` on strings
unfoldable pub text_eq : Bytes → Bytes → Bool
text_eq [] [] = true
text_eq (x ∷ xs) (y ∷ ys) = x == y && text_eq xs ys
text_eq _ _ = false

pub text_eq_iff : (a b : Bytes) → (text_eq a b ≡ true) ↔ (a ≡ b)
unfolding text_eq
text_eq_iff (x ∷ a) (y ∷ b) = ground (arith, text_eq_iff a b)
text_eq_iff _ _ = ground arith

pub text_eq_refl : (a : Bytes) → text_eq a a ≡ true
text_eq_refl a = (text_eq_iff a a).1 refl

-- `strings.HasPrefix(s, pre)`
unfoldable pub has_prefix : Bytes → Bytes → Bool
has_prefix s [] = true
has_prefix [] (p ∷ pre) = false
has_prefix (c ∷ s) (p ∷ pre) = c == p && has_prefix s pre

-- `strings.Contains(s, sub)`
unfoldable pub contains : Bytes → Bytes → Bool
unfolding has_prefix
contains [] sub = has_prefix [] sub
contains (c ∷ s) sub = has_prefix (c ∷ s) sub || contains s sub

-- `strings.Index` of one byte; none stands for -1
unfoldable pub index : Bytes → ℕ → Option ℕ
index [] b = none
index (c ∷ s) b = if c == b then some 0 else Option.map suc (index s b)

last_or : Option ℕ → Bool → Option ℕ
last_or (some i) here = some (suc i)
last_or none here = if here then some 0 else none

-- `strings.LastIndex` of one byte; none stands for -1
unfoldable pub last_index : Bytes → ℕ → Option ℕ
unfolding last_or
last_index [] b = none
last_index (c ∷ s) b = last_or (last_index s b) (c == b)

abbrev pub Lacks : ℕ → Bytes → Type 0
Lacks b s = All (λ c. c ≢ b) s

abbrev onto_head : ℕ → List Bytes → List Bytes
onto_head c [] = (c ∷ []) ∷ []
onto_head c (p ∷ ps) = (c ∷ p) ∷ ps

-- `strings.Split` at one byte
unfoldable pub split : Bytes → ℕ → List Bytes
split [] sep = [] ∷ []
split (c ∷ s) sep = if c == sep then [] ∷ split s sep else onto_head c (split s sep)

-- `strings.Join` with one byte
unfoldable pub join : List Bytes → ℕ → Bytes
join [] sep = []
join (p ∷ []) sep = p
join (p ∷ q ∷ ps) sep = p ++ (sep ∷ join (q ∷ ps) sep)

Lacks-split_whole : (p : Bytes) (sep : ℕ) → Lacks sep p → split p sep ≡ p ∷ []
unfolding split
Lacks-split_whole [] sep h = refl
Lacks-split_whole (c ∷ p) sep (h, hs) = ground (arith, Lacks-split_whole p sep hs)

split-append :
    (p rest : Bytes) (sep : ℕ) → Lacks sep p → split (p ++ (sep ∷ rest)) sep ≡ p ∷ split rest sep
unfolding split
split-append [] rest sep h = ground arith
split-append (c ∷ p) rest sep (h, hs) = ground (arith, split-append p rest sep hs)

-- Splitting what was joined gives the parts back, where no part holds the separator.
pub split-join :
    (p : Bytes) (ps : List Bytes) (sep : ℕ)
    → Lacks sep p
    → All (Lacks sep) ps
    → split (join (p ∷ ps) sep) sep ≡ p ∷ ps
unfolding join
split-join p [] sep h hs = Lacks-split_whole p sep h
split-join p (q ∷ ps) sep h (hq, hs) =
    split-append p _ sep h ∙ ap (◌∷◌ p) (split-join q ps sep hq hs)

pub split-ne-nil : (s : Bytes) (sep : ℕ) → (p : Bytes) × (ps : List Bytes) × (split s sep ≡ p ∷ ps)
unfolding split
split-ne-nil [] sep = ([], [], refl)
split-ne-nil (c ∷ s) sep = elim (Bool-cases (c == sep)) [
  | inl e ↦ ([], split s sep, rw e)
  | inr e ↦ let (p, ps, q) = split-ne-nil s sep in (c ∷ p, ps, rw (e, q))
]

join-onto_head :
    (c : ℕ) (p : Bytes) (ps : List Bytes) (sep : ℕ)
    → join ((c ∷ p) ∷ ps) sep ≡ c ∷ join (p ∷ ps) sep
unfolding join
join-onto_head c p [] sep = refl
join-onto_head c p (q ∷ ps) sep = refl

join_behind_nil :
    (p : Bytes) (ps : List Bytes) (sep : ℕ) → join ([] ∷ p ∷ ps) sep ≡ sep ∷ join (p ∷ ps) sep
unfolding join
join_behind_nil p ps sep = refl

-- The parts of a split, joined again, are the text.
pub join-split : (s : Bytes) (sep : ℕ) → join (split s sep) sep ≡ s
unfolding split
join-split [] sep = unfold join in refl
join-split (c ∷ s) sep =
    let (p, ps, e) = split-ne-nil s sep in
    let ih : join (p ∷ ps) sep ≡ s = rw e at (join-split s sep) in
    ground (arith, join-onto_head c p ps sep, ih, e, join_behind_nil p ps sep)

-- A hit of `index` cuts the text at the byte: what stands before does not hold it.
pub index_cut :
    (s : Bytes) (b i : ℕ)
    → index s b ≡ some i
    → (s ≡ take i s ++ (b ∷ drop (suc i) s)) × Lacks b (take i s) × (i < length s)
unfolding index
index_cut [] b i h = cc
index_cut (c ∷ s) b zero h = ground arith
index_cut (c ∷ s) b (suc i) h = ground (arith, index_cut s b i)

pub index-none : (s : Bytes) (b : ℕ) → index s b ≡ none → Lacks b s
unfolding index
index-none [] b h = tt
index-none (c ∷ s) b h = ground (arith, index-none s b)

last_index-none : (rest : Bytes) (b : ℕ) → Lacks b rest → last_index rest b ≡ none
unfolding last_index
last_index-none [] b h = refl
last_index-none (c ∷ rest) b (h, hs) = ground (arith, last_index-none rest b hs)

-- `last_index` finds the byte behind which the text holds no other.
pub last_index-append :
    (p rest : Bytes) (b : ℕ) → Lacks b rest → last_index (p ++ (b ∷ rest)) b ≡ some (length p)
unfolding last_index
last_index-append [] rest b h = ground (arith, last_index-none rest b h)
last_index-append (c ∷ p) rest b h = ground (arith, last_index-append p rest b h)

pub text_ne : (a b : Bytes) → text_eq a b ≡ false → a ≢ b
text_ne a b h e = ground (arith, text_eq_iff a b)

split-onto_head :
    (c : ℕ) (ps qs : List Bytes) → ps ≢ [] → onto_head c (ps ++ qs) ≡ onto_head c ps ++ qs
split-onto_head c [] qs h = ground (arith, h)
split-onto_head c (p ∷ ps) qs h = refl

-- Splitting at one occurrence of the byte and then both sides gives the parts in their order.
pub split-append_parts :
    (s t : Bytes) (sep : ℕ) → split (s ++ (sep ∷ t)) sep ≡ split s sep ++ split t sep
unfolding split
split-append_parts [] t sep = ground arith
split-append_parts (c ∷ s) t sep =
    let (p, ps, e) = split-ne-nil s sep in
    ground (
      arith,
      split-append_parts s t sep,
      e,
      split-onto_head c (p ∷ ps) (split t sep) (ground arith),
    )
