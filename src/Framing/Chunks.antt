-- ===== src/Framing/Chunks.antt =====
-- `PackageSplit` over a connection: how the bytes are cut into reads does not matter.
use sutil.Framing.Step.{
  unpackdata_halt, unpackdata_took, unpackdata_induction, round-append_took, round-append_failed,
}
use sutil.Framing.RoundTrip.{before, pack_all, InRange, unpackdata-pack_all}
use sutil.Framing.Uvarint.{uvarint}
use sutil.Framing.{
  panicked, stuck, failed, Stop, drained, halt, took, round, called, unpackdata, Session,
  split_loop, package_split, Unpacked, chunk, reading, broke, unpack, failed, after_unpack, uvarint,
}
use sutil.Prelude.{
  ℕ, suc, ◌^◌, ◌<◌, ◌≡◌, refl, ap, ◌≢◌, ◌++◌, arith, length, ◌∷◌, List, [], map, append-nil, sym,
  ◌⊎◌, inl, inr, append_assoc, All,
}
use sutil.Prelude.Text.{Bytes}

-- The input `buf`, with `more` arriving behind it, runs as `buf` alone does and then goes on from
-- what that run left. A run that failed stays as it is.
abbrev Continues : (lenmin lenmax : ℕ) → Bytes → Bytes → Type 0
Continues lenmin lenmax more buf =
    ((unpackdata lenmin lenmax buf).stop ≡ drained
      → unpackdata lenmin lenmax (buf ++ more)
        ≡ before (unpackdata lenmin lenmax buf).calls
            (unpackdata lenmin lenmax ((unpackdata lenmin lenmax buf).rest ++ more)))
    × ((unpackdata lenmin lenmax buf).stop ≢ drained
        → ((unpackdata lenmin lenmax (buf ++ more)).calls ≡ (unpackdata lenmin lenmax buf).calls)
          × ((unpackdata lenmin lenmax (buf ++ more)).stop ≡ (unpackdata lenmin lenmax buf).stop))

module _ (lenmin lenmax : ℕ) (small : lenmax < 2 ^ 63) (more : Bytes) where
  Continues-halt :
      (buf : Bytes) (s : Stop) → round lenmin lenmax buf ≡ halt s → Continues lenmin lenmax more buf
  Continues-halt buf s e = rw (unpackdata_halt lenmin lenmax buf s e) (
    (λ h. refl),
    (λ h.
        rw
          (unpackdata_halt lenmin lenmax (buf ++ more) s
            (round-append_failed lenmin lenmax buf more s e h small))
          (refl, refl)),
  )

  Continues-took :
      (buf m r : Bytes)
      → round lenmin lenmax buf ≡ took m r
      → Continues lenmin lenmax more r
      → Continues lenmin lenmax more buf
  Continues-took buf m r e ih =
      rw
        (
          unpackdata_took lenmin lenmax buf m r e,
          unpackdata_took lenmin lenmax (buf ++ more) m (r ++ more)
              (round-append_took lenmin lenmax buf more m r e),
        )
        ((λ h. ap (called m) (ih.0 h)), (λ h. (ap (◌∷◌ m) (ih.1 h).0, (ih.1 h).1)))

  unpackdata-Continues : (buf : Bytes) → Continues lenmin lenmax more buf
  unpackdata-Continues buf =
      unpackdata_induction lenmin lenmax (Continues lenmin lenmax more) Continues-halt
        Continues-took (suc (length buf)) buf (omega arith)

-- what is left of a run that drained its input is one unfinished frame
abbrev IsSettled : Bytes → Type 0
IsSettled b = unpackdata 1 5120 b ≡ record { calls = []; rest = b; stop = drained }

rest-IsSettled :
    (buf : Bytes) → (unpackdata 1 5120 buf).stop ≡ drained → IsSettled (unpackdata 1 5120 buf).rest
rest-IsSettled buf =
    unpackdata_induction 1 5120
      (λ b. (unpackdata 1 5120 b).stop ≡ drained → IsSettled (unpackdata 1 5120 b).rest)
      (λ b s e. rw (unpackdata_halt 1 5120 b s e) (λ h. rw (unpackdata_halt 1 5120 b s e, h)))
      (λ b m r e ih. rw (unpackdata_took 1 5120 b m r e) ih) (suc (length buf)) buf (omega arith)

nil-IsSettled : IsSettled []
unfolding unpackdata unpack round uvarint
nil-IsSettled = refl

abbrev pub concat : List Bytes → Bytes
concat [] = []
concat (c ∷ cs) = c ++ concat cs

-- A session that has read exactly some chunks stands as one run over their bytes says.
abbrev pub StandsAs : Session → Unpacked → Type 0
StandsAs s u =
    (s.calls ≡ u.calls)
    × (u.stop ≡ drained → s.state ≡ reading u.rest)
    × (u.stop ≢ drained → (b : Bytes) × (s.state ≡ broke b u.stop))

Stop-cases : (s : Stop) → (s ≡ drained) ⊎ (s ≢ drained)
Stop-cases drained = inl refl
Stop-cases (failed e) = inr (λ h. cc)
Stop-cases panicked = inr (λ h. cc)
Stop-cases stuck = inr (λ h. cc)

module _ (next : Bytes → Session) (u : Unpacked) where
  after_unpack_drained :
      u.stop ≡ drained
      → after_unpack next u
        ≡ record { calls = u.calls ++ (next u.rest).calls; state = (next u.rest).state }
  unfolding after_unpack
  after_unpack_drained h = ground arith

  after_unpack_broke :
      u.stop ≢ drained
      → after_unpack next u ≡ record { calls = u.calls; state = broke u.rest u.stop }
  unfolding after_unpack
  after_unpack_broke h = ground arith

StandsAs-before :
    (ms : List Bytes) (s : Session) (w : Unpacked)
    → StandsAs s w
    → StandsAs (record { calls = ms ++ s.calls; state = s.state }) (before ms w)
StandsAs-before ms s w (c, d, b) = (ap (λ xs. ms ++ xs) c, d, b)

split_loop-StandsAs :
    (cs : List Bytes) (pack_buff : Bytes)
    → IsSettled pack_buff
    → StandsAs (split_loop (map chunk cs) pack_buff) (unpackdata 1 5120 (pack_buff ++ concat cs))
unfolding split_loop
split_loop-StandsAs [] pb settled =
    rw (append-nil pb, settled) (refl, (λ h. refl), (λ h. absurd (h refl)))
split_loop-StandsAs (c ∷ cs) pb settled =
    let u = unpackdata 1 5120 (pb ++ c) in
    let (go_on, stay) = unpackdata-Continues 1 5120 (omega arith) (concat cs) (pb ++ c) in
    elim (Stop-cases u.stop) [
      | inl d ↦
          rw
            (
              after_unpack_drained (split_loop (map chunk cs)) u d,
              sym (append_assoc pb c (concat cs)),
              go_on d,
            )
            (StandsAs-before u.calls _ _
              (split_loop-StandsAs cs u.rest (rest-IsSettled (pb ++ c) d)))
      | inr n ↦
          rw
            (
              after_unpack_broke (split_loop (map chunk cs)) u n,
              sym (append_assoc pb c (concat cs)),
              (stay n).0,
              (stay n).1,
            )
            (refl, (λ h. absurd (n h)), (λ h. (u.rest, refl)))
    ]

-- However a connection cuts its bytes into reads, `PackageSplit` makes the calls of one `UnPackdata`
-- over all of them, and ends, or waits with the same unfinished frame, as that run does.
pub package_split-StandsAs :
    (cs : List Bytes) → StandsAs (package_split (map chunk cs)) (unpackdata 1 5120 (concat cs))
unfolding package_split
package_split-StandsAs cs = split_loop-StandsAs cs [] nil-IsSettled

-- Whatever reads a connection cuts them into, framed messages of 1 to 5120 bytes come out of
-- `PackageSplit` in their order, once each and unchanged, and no byte is left over.
pub package_split-pack_all :
    (cs ms : List Bytes)
    → concat cs ≡ pack_all ms
    → All (InRange 1 5120) ms
    → package_split (map chunk cs) ≡ record { calls = ms; state = reading [] }
package_split-pack_all cs ms e h =
    let whole = unpackdata-pack_all 1 5120 ms [] (omega arith) h in
    let stands = package_split-StandsAs cs in
    ground
      (arith, whole, stands.0, stands.1, e, append-nil (pack_all ms), nil-IsSettled, append-nil ms)
