-- ===== src/Download/Ranges.antt =====
-- snetutil/snetutil.go, HttpRangeDownload: what the file holds in the end.
use sutil.Prelude.Text.{Bytes}
use sutil.Download.{
  Range, whole, between, onwards, Fetch, copied, do_get, then_count, get_steps, get_rest,
  http_range_download,
}
use sutil.Prelude.{
  ℕ, zero, suc, ◌+◌, ◌-◌, ◌*◌, ◌/◌, ◌%◌, ◌<◌, ◌≤◌, ◌≡◌, refl, ◌∙◌, ap, some, [], ◌∷◌, ◌++◌, ltb,
  length, take, drop, arith, length-take, length-drop, take-append-drop, lt→ltb, append_assoc,
  append-nil, inl, inr, ltb→lt, Bool-cases, take-append_front,
}

-- what a range of a content is
unfoldable pub slice : Range → Bytes → Bytes
slice whole content = content
slice (between lo hi) content = take (hi + 1 - lo) (drop lo content)
slice (onwards lo) content = drop lo content

take-nil : (n : ℕ) → take {A = ℕ} n [] ≡ []
take-nil zero = refl
take-nil (suc n) = refl

take-add : (n m : ℕ) (xs : Bytes) → take n xs ++ take m (drop n xs) ≡ take (n + m) xs
take-add zero m xs = let e : 0 + m ≡ m = omega arith in rw e refl
take-add (suc n) m [] = rw (take-nil m, take-nil (suc n + m)) refl
take-add (suc n) m (x ∷ xs) =
    let e : suc n + m ≡ suc (n + m) = omega arith in rw e (ap (◌∷◌ x) (take-add n m xs))

suc_mul : (i s : ℕ) → suc i * s ≡ i * s + s
suc_mul i s = grind arith

div_parts : (n s : ℕ) → 0 < s → n / s * s + n % s ≡ n
div_parts n s p = grind arith

take_whole : (xs : Bytes) → take (length xs) xs ≡ xs
take_whole xs = rw append-nil at (take-append_front (length xs) xs [] refl)

rounds_before : (i rounds s : ℕ) → suc i * s ≤ (i + suc rounds) * s
rounds_before i rounds s = grind arith

-- the ranges that a server can satisfy for a content: RFC 7233 has it answer any other with 416
abbrev pub Satisfiable : Range → Bytes → Type 0
Satisfiable whole content = Unit {0}
Satisfiable (between lo hi) content = (lo ≤ hi) × (hi < length content)
Satisfiable (onwards lo) content = lo < length content

module _ (serve : Range → Fetch) (split_size : ℕ) (content : Bytes)
    (serves : (r : Range) → Satisfiable r content → serve r ≡ copied (slice r content)) where
  slice_between :
      (a : ℕ)
      → a + split_size ≤ length content
      → 0 < split_size
      → (length (slice (between a (a + split_size - 1)) content) ≡ split_size)
        × (take a content ++ slice (between a (a + split_size - 1)) content
            ≡ take (a + split_size) content)
  unfolding slice
  slice_between a h p =
      let width : a + split_size - 1 + 1 - a ≡ split_size = omega arith in
      (
        rw width ground (arith, length-take split_size (drop a content), length-drop a content),
        rw width (take-add a split_size content),
      )

  get_step :
      (i : ℕ)
      → suc i * split_size ≤ length content
      → 0 < split_size
      → do_get
          (serve (between (i * split_size) (i * split_size + split_size - 1)))
          (take (i * split_size) content)
        ≡ (some split_size, take (suc i * split_size) content)
  unfolding do_get
  get_step i h p =
      let (size, joined) = slice_between (i * split_size) (omega (arith, suc_mul i split_size)) p in
      rw
        (
          serves (between (i * split_size) (i * split_size + split_size - 1))
              (omega arith, omega (arith, h, p, suc_mul i split_size)),
          do_get,
          size,
          joined,
          suc_mul i split_size,
        )
        refl

  get_steps_lem :
      (rounds i : ℕ)
      → (i + rounds) * split_size ≤ length content
      → 0 < split_size
      → get_steps serve split_size rounds i (i * split_size) (take (i * split_size) content)
        ≡ (some ((i + rounds) * split_size), take ((i + rounds) * split_size) content)
  unfolding get_steps
  get_steps_lem zero i h p = let e : i + 0 ≡ i = omega arith in rw e refl
  get_steps_lem (suc rounds) i h p =
      let e : suc i + rounds ≡ i + suc rounds = omega arith in
      rw
        (
          get_step i (omega (arith, rounds_before i rounds split_size)) p,
          then_count,
          ← suc_mul i split_size,
          ← e,
        )
        (get_steps_lem rounds (suc i) (rw e h) p)

  rest_lem :
      0 < split_size
      → get_rest serve split_size
          (length content)
          (length content / split_size * split_size)
          (take (length content / split_size * split_size) content)
        ≡ (some (length content), content)
  unfolding get_rest slice
  rest_lem p = elim (Bool-cases (ltb 0 (length content % split_size))) [
    | inl more ↦
        rw
          (
            more,
            serves (onwards (length content / split_size * split_size))
                (omega (arith, div_parts (length content) split_size p, ltb→lt 0 _ more)),
            do_get,
            then_count,
            slice,
            take-append-drop (length content / split_size * split_size) content,
          )
          (ground (
            arith,
            length-drop (length content / split_size * split_size) content,
            div_parts (length content) split_size p,
          ))
    | inr none_left ↦
        let e : length content / split_size * split_size ≡ length content =
          ground (arith, div_parts (length content) split_size p) in
        rw (none_left, e, take_whole content) refl
  ]

  all_steps :
      0 < split_size
      → get_steps serve split_size (length content / split_size) 0 0 [] ≡ (
        some (length content / split_size * split_size),
        take (length content / split_size * split_size) content,
      )
  all_steps p =
      let none_yet : 0 * split_size ≡ 0 = omega arith in
      let plain : 0 + length content / split_size ≡ length content / split_size = omega arith in
      rw (none_yet, plain) at
        (get_steps_lem (length content / split_size) 0
          (rw plain (omega (arith, div_parts (length content) split_size p))) p)

  -- From a server that answers a request without a range with the content, and each range that lies
  -- within the content with its bytes, whatever it makes of other ranges, the download writes the
  -- whole content, in order and each byte once, and returns its length, for every split size, where
  -- the HEAD request tells that length.
  pub http_range_download-content :
      http_range_download serve split_size (length content) ≡ (some (length content), content)
  unfolding http_range_download do_get slice
  http_range_download-content = elim (Bool-cases (ltb 0 split_size)) [
    | inl p ↦
        let full = length content / split_size * split_size in
        let plain : 0 + full ≡ full = omega arith in
        rw (p, all_steps (ltb→lt 0 split_size p), then_count)
          (ap (λ (n : ℕ). get_rest serve split_size (length content) n (take full content)) plain
            ∙ rest_lem (ltb→lt 0 split_size p))
    | inr p ↦ rw (p, serves whole tt) refl
  ]

-- a content, several times over
unfoldable pub copies : ℕ → Bytes → Bytes
copies zero content = []
copies (suc n) content = content ++ copies n content

module _ (serve : Range → Fetch) (split_size : ℕ) (content : Bytes)
    (ignores : (r : Range) → serve r ≡ copied content) where
  get_steps-copies :
      (rounds i getlen : ℕ) (file : Bytes)
      → get_steps serve split_size rounds i getlen file
        ≡ (some (getlen + rounds * length content), file ++ copies rounds content)
  unfolding get_steps copies
  get_steps-copies zero i getlen file =
      let e : getlen + 0 * length content ≡ getlen = omega arith in rw (e, append-nil) refl
  get_steps-copies (suc rounds) i getlen file =
      rw (ignores (between (i * split_size) (i * split_size + split_size - 1)), do_get, then_count)
        (rw (get_steps-copies rounds (suc i) (getlen + length content) (file ++ content)) (
          let e : getlen + length content + rounds * length content
              ≡ getlen + suc rounds * length content =
            grind arith in
          rw (e, append_assoc) refl))

  -- A server that does not know ranges, and answers each request with the whole content, gives a file
  -- with the content once for each range, and no error, where the ranges divide the content evenly.
  pub http_range_download-ignored :
      0 < split_size
      → length content % split_size ≡ 0
      → http_range_download serve split_size (length content) ≡ (
        some (length content / split_size * length content),
        copies (length content / split_size) content,
      )
  unfolding http_range_download get_rest
  http_range_download-ignored p e =
      rw
        (
          lt→ltb 0 split_size p,
          get_steps-copies (length content / split_size) 0 0 [],
          then_count,
          e,
        )
        (let plain : 0 + (0 + length content / split_size * length content)
              ≡ length content / split_size * length content =
            omega arith in
          rw plain refl)
