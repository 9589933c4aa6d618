-- ===== src/Stext/Positions.antt =====
-- stext/loctext.go: that the positions of LocationText cut out what it has read.
use sutil.Prelude.{
  ℕ, Option, none, some, List, [], ◌∷◌, suc, ◌+◌, ◌≡◌, inl, inr, ◌++◌, arith, ◌==◌, Bool-cases,
  length, ◌-◌, append-nil, ltb, if◌then◌else◌, length-append, take-append_front, drop-append_front,
  sym, ap, ◌∙◌, true, false, ◌||◌, append_assoc, ==_iff, refl,
}
use sutil.Prelude.Text.{Bytes}
use sutil.Stext.{
  slice, finish, loop, LocState, step, on_percent, on_verb, replaced, location_text, do_fmt,
}
use sutil.Mq.{ℤ}
use sutil.Stext.Streaming.{reads}

slice_of :
    (a b c : Bytes) (m n : ℕ) (t : Bytes)
    → t ≡ a ++ (b ++ c)
    → m ≡ length a
    → n ≡ length a + length b
    → slice m n t ≡ b
slice_of a b c m n t ht hm hn =
    rw (ht, drop-append_front m a (b ++ c) hm)
      (take-append_front (n - m) b c (omega (arith, hm, hn)))

-- what is unread of the format, behind a percent sign that is open
abbrev tail_of : Option Bytes → Bytes → Bytes
tail_of none s = s
tail_of (some acc) s = b'%' ∷ (acc ++ s)

abbrev mark : Option Bytes → ℕ → Option ℕ
mark none n = none
mark (some acc) n = some n

abbrev width : Option Bytes → ℕ
width none = 0
width (some acc) = suc (length acc)

finished :
    (done rest res : Bytes) (cb : ℕ)
    → cb ≡ length done
    → (if ltb cb (length (done ++ rest)) then res ++ rest else res) ≡ res ++ rest
finished done [] res cb hc = ground (arith, append-nil res, append-nil done, hc)
finished done (c ∷ rest) res cb hc = ground (arith, length-append done (c ∷ rest), hc)

module _ (atoi : Bytes → Option ℤ) (params : List Bytes) (format : Bytes) where
  finish-append :
      (done rest : Bytes) (st : LocState)
      → format ≡ done ++ rest
      → st.cb ≡ length done
      → finish atoi params format st ≡ st.res ++ rest
  unfolding finish
  finish-append done rest st hf hc =
      rw (hf, drop-append_front st.cb done rest hc) (finished done rest st.res st.cb hc)

  -- the statement for the rest `s` of the format, behind what is open
  abbrev Follows : Bytes → Option Bytes → Type 0
  Follows s o =
      (done mid res : Bytes) (cb n i next : ℕ)
      → format ≡ done ++ (mid ++ tail_of o s)
      → cb ≡ length done
      → n ≡ length done + length mid
      → i ≡ n + width o
      → finish atoi params format
          (loop atoi params format s i (record { res = res; fb = mark o n; cb = cb; pi = next }))
        ≡ res ++ (mid ++ reads atoi params s next o)

  plain-Follows : (c : ℕ) (s : Bytes) → (c == b'%') ≡ false → Follows s none → Follows (c ∷ s) none
  unfolding loop step on_verb reads
  plain-Follows c s e ih done mid res cb n i next hf hc hn hi =
      let longer =
        ih done (mid ++ c ∷ []) res cb (i + 1) (i + 1) next
          (hf ∙ ap (◌++◌ done) (sym (append_assoc mid (c ∷ []) s))) hc
          (omega (arith, length-append mid (c ∷ []), hn, hi)) (ground arith)
        ∙ ap (◌++◌ res) (append_assoc mid (c ∷ []) (reads atoi params s next none)) in
      elim (Bool-cases (c == b'@' || c == b's')) [
        | inl k ↦ rw (e, k) longer
        | inr k ↦ rw (e, k) longer
      ]

  open-Follows :
      (c : ℕ) (s : Bytes) → (c == b'%') ≡ true → Follows s (some []) → Follows (c ∷ s) none
  unfolding loop step on_percent reads
  open-Follows c s e ih done mid res cb n i next hf hc hn hi = rw e (
      ih done mid res cb i (i + 1) next
        (hf ∙ ap (λ x. done ++ (mid ++ (x ∷ s))) ((==_iff c b'%').0 e)) hc (omega (arith, hn, hi))
        (ground arith))

  longer-Follows :
      (c : ℕ) (s acc : Bytes)
      → (c == b'%') ≡ false
      → (c == b'@' || c == b's') ≡ false
      → Follows s (some (acc ++ c ∷ []))
      → Follows (c ∷ s) (some acc)
  unfolding loop step reads
  longer-Follows c s acc e k ih done mid res cb n i next hf hc hn hi =
      rw (e, k)
        (ih done mid res cb n (i + 1) next
          (hf ∙ ap (λ x. done ++ (mid ++ (b'%' ∷ x))) (sym (append_assoc acc (c ∷ []) s))) hc hn
          (omega (arith, length-append acc (c ∷ []), hi)))

  again-Follows :
      (c : ℕ) (s : Bytes) (a : ℕ) (acc : Bytes)
      → (c == b'%') ≡ true
      → Follows s (some [])
      → Follows (c ∷ s) (some (a ∷ acc))
  unfolding loop step on_percent reads
  again-Follows c s a acc e ih done mid res cb n i next hf hc hn hi =
      let later : (suc n == i) ≡ false = ground (arith, hi) in
      let filled : (length (a ∷ acc) == 0) ≡ false = ground arith in
      rw (e, later, filled)
        (ih done (mid ++ (b'%' ∷ a ∷ acc)) res cb i (i + 1) next
            (hf
              ∙ ap (λ x. done ++ (mid ++ (b'%' ∷ a ∷ (acc ++ (x ∷ s))))) ((==_iff c b'%').0 e)
              ∙ ap (◌++◌ done) (sym (append_assoc mid (b'%' ∷ a ∷ acc) (b'%' ∷ s))))
            hc (omega (arith, length-append mid (b'%' ∷ a ∷ acc), hn, hi)) (ground arith)
          ∙ ap (◌++◌ res) (append_assoc mid (b'%' ∷ a ∷ acc) (reads atoi params s next (some []))))

  escape-Follows :
      (c : ℕ) (s : Bytes) → (c == b'%') ≡ true → Follows s none → Follows (c ∷ s) (some [])
  unfolding loop step on_percent reads
  escape-Follows c s e ih done mid res cb n i next hf hc hn hi =
      let now : (suc n == i) ≡ true = ground (arith, hi) in
      let cut : slice cb i format ≡ mid ++ b'%' ∷ [] =
        slice_of done (mid ++ b'%' ∷ []) (c ∷ s) cb i format
          (hf ∙ ap (◌++◌ done) (sym (append_assoc mid (b'%' ∷ []) (c ∷ s)))) hc
          (omega (arith, length-append mid (b'%' ∷ []), hn, hi)) in
      let behind : i + 1 ≡ length (done ++ (mid ++ (b'%' ∷ b'%' ∷ []))) = omega (
        arith,
        length-append done (mid ++ (b'%' ∷ b'%' ∷ [])),
        length-append mid (b'%' ∷ b'%' ∷ []),
        hn,
        hi,
      ) in
      let rest = reads atoi params s next none in
      rw (e, now, cut)
        (ih (done ++ (mid ++ (b'%' ∷ b'%' ∷ []))) [] (res ++ (mid ++ b'%' ∷ [])) (i + 1) (i + 1)
            (i + 1) next
            (hf
              ∙ ap (λ x. done ++ (mid ++ (b'%' ∷ x ∷ s))) ((==_iff c b'%').0 e)
              ∙ sym (
                  append_assoc done (mid ++ (b'%' ∷ b'%' ∷ [])) s
                  ∙ ap (◌++◌ done) (append_assoc mid (b'%' ∷ b'%' ∷ []) s)))
            behind (omega (arith, behind)) (ground arith)
          ∙ append_assoc res (mid ++ b'%' ∷ []) rest
          ∙ ap (◌++◌ res) (append_assoc mid (b'%' ∷ []) rest))

  verb-Follows :
      (c : ℕ) (s acc : Bytes)
      → (c == b'%') ≡ false
      → (c == b'@' || c == b's') ≡ true
      → Follows s none
      → Follows (c ∷ s) (some acc)
  unfolding loop step on_verb reads
  verb-Follows c s acc e k ih done mid res cb n i next hf hc hn hi =
      let verb = b'%' ∷ (acc ++ c ∷ []) in
      let whole : format ≡ done ++ (mid ++ (verb ++ s)) =
        hf ∙ ap (λ x. done ++ (mid ++ (b'%' ∷ x))) (sym (append_assoc acc (c ∷ []) s)) in
      let before : slice cb n format ≡ mid =
        slice_of done mid (b'%' ∷ (acc ++ c ∷ s)) cb n format hf hc hn in
      let all : slice n (i + 1) format ≡ verb =
        slice_of (done ++ mid) verb s n (i + 1) format
          (whole ∙ sym (append_assoc done mid (verb ++ s)))
          (omega (arith, length-append done mid, hn))
          (omega (arith, length-append done mid, length-append acc (c ∷ []), hn, hi)) in
      let inner : slice (n + 1) i format ≡ acc =
        slice_of (done ++ (mid ++ b'%' ∷ [])) acc (c ∷ s) (n + 1) i format
          (hf
            ∙ sym (
                append_assoc done (mid ++ b'%' ∷ []) (acc ++ c ∷ s)
                ∙ ap (◌++◌ done) (append_assoc mid (b'%' ∷ []) (acc ++ c ∷ s))))
          (omega (arith, length-append done (mid ++ b'%' ∷ []), length-append mid (b'%' ∷ []), hn))
          (omega (
            arith,
            length-append done (mid ++ b'%' ∷ []),
            length-append mid (b'%' ∷ []),
            hn,
            hi,
          )) in
      let (text, after) = replaced params verb (do_fmt atoi acc) next in
      let rest = reads atoi params s after none in
      let behind : i + 1 ≡ length (done ++ (mid ++ verb)) = omega (
        arith,
        length-append done (mid ++ verb),
        length-append mid verb,
        length-append acc (c ∷ []),
        hn,
        hi,
      ) in
      rw (e, k, before, all, inner)
        (ih (done ++ (mid ++ verb)) [] ((res ++ mid) ++ text) (i + 1) (i + 1) (i + 1) after
            (whole
              ∙ sym (append_assoc done (mid ++ verb) s ∙ ap (◌++◌ done) (append_assoc mid verb s)))
            behind (omega (arith, behind)) (ground arith)
          ∙ append_assoc (res ++ mid) text rest
          ∙ append_assoc res mid (text ++ rest))

  percent-Follows :
      (c : ℕ) (s acc : Bytes)
      → (c == b'%') ≡ true
      → Follows s none
      → Follows s (some [])
      → Follows (c ∷ s) (some acc)
  percent-Follows c s [] e p q = escape-Follows c s e p
  percent-Follows c s (a ∷ acc) e p q = again-Follows c s a acc e q

  nil-Follows : Follows [] none
  unfolding loop reads
  nil-Follows done mid res cb n i next hf hc hn hi = finish-append done (mid ++ []) _ hf hc

  nil_open-Follows : (acc : Bytes) → Follows [] (some acc)
  unfolding loop reads
  nil_open-Follows acc done mid res cb n i next hf hc hn hi =
      finish-append done (mid ++ (b'%' ∷ acc)) _
        (hf ∙ ap (λ x. done ++ (mid ++ (b'%' ∷ x))) (append-nil acc)) hc

  follows : (s : Bytes) → Follows s none × ((acc : Bytes) → Follows s (some acc))
  follows [] = (nil-Follows, nil_open-Follows)
  follows (c ∷ s) = elim (Bool-cases (c == b'%')) [
    | inl e ↦ (
      open-Follows c s e ((follows s).1 []),
      λ acc. percent-Follows c s acc e (follows s).0 ((follows s).1 []),
    )
    | inr e ↦ elim (Bool-cases (c == b'@' || c == b's')) [
      | inl k ↦ (plain-Follows c s e (follows s).0, λ acc. verb-Follows c s acc e k (follows s).0)
      | inr k ↦ (
        plain-Follows c s e (follows s).0,
        λ acc. longer-Follows c s acc e k ((follows s).1 (acc ++ c ∷ [])),
      )
    ]
  ]

-- LocationText, which cuts its format at positions, gives what is read of it from left to right
-- without them, where each format stands for its parameter and `%%` for one percent sign.
pub location_text-reads :
    (atoi : Bytes → Option ℤ) (format : Bytes) (params : List Bytes)
    → location_text atoi format params ≡ reads atoi params format 1 none
unfolding location_text
location_text-reads atoi format params =
    (follows atoi params format format).0 [] [] [] 0 0 0 1 refl refl refl refl
