-- ===== src/HttpReq/Body.antt =====
-- snetutil/httpreq.go: the body of a request, which the first read of it keeps. What is left of the
-- stream is part of the state; decompression is a parameter, which gives the content, none where the
-- stream has no header of gzip, and what it leaves of the stream. So is the decoding of JSON.
use sutil.Prelude.{
  Option, none, some, List, [], ◌∷◌, ◌≡◌, refl, ap, inl, inr, arith, Option-cases, length,
  replicate, suc, ◌∙◌, ◌↔◌,
}
use sutil.Prelude.Text.{Bytes}

pub record ReqBody : Type 0 where
  pub stream : Bytes
  pub kept : Option Bytes

-- a read gives bytes or panics
pub data Read : Type 0 where
  bytes : Bytes → Read
  read_panics : Read

unfoldable pub keep_body : Bytes → ReqBody
keep_body body = record { stream = []; kept = some body }

unfoldable pub binary_in : Option Bytes → ReqBody → ReqBody × Read
unfolding keep_body
binary_in (some body) m = (m, bytes body)
binary_in none m = (keep_body m.stream, bytes m.stream)

unfoldable pub binary : ReqBody → ReqBody × Read
unfolding binary_in
binary m = binary_in m.kept m

unfoldable pub unzipped : Option Bytes × Bytes → ReqBody × Read
unzipped (some body, left) = (record { stream = left; kept = some body }, bytes body)
unzipped (none, left) = (record { stream = left; kept = none }, read_panics)

unfoldable pub unzipped_in :
    (Bytes → Option Bytes × Bytes) → Option Bytes → ReqBody → ReqBody × Read
unfolding unzipped
unzipped_in gunzip (some body) m = (m, bytes body)
unzipped_in gunzip none m = unzipped (gunzip m.stream)

-- Without a header of gzip the reader is nil, and reading from it panics.
unfoldable pub binary_un_gzip : (Bytes → Option Bytes × Bytes) → ReqBody → ReqBody × Read
unfolding unzipped_in
binary_un_gzip gunzip m = unzipped_in gunzip m.kept m

-- `Json` and `JsonUnGzip`: what is decoded, or an error
pub data Decoding (J : Type 0) : Type 0 where
  decoded : J → Decoding J
  decode_error : Decoding J
  decoding_panics : Decoding J

unfoldable pub decode_option : {J : Type 0} → Option J → Decoding J
decode_option (some js) = decoded js
decode_option none = decode_error

unfoldable pub decode_read : {J : Type 0} → (Bytes → Option J) → Read → Decoding J
unfolding decode_option
decode_read decode (bytes b) = decode_option (decode b)
decode_read decode read_panics = decoding_panics

unfoldable pub json : {J : Type 0} → (Bytes → Option J) → ReqBody → ReqBody × Decoding J
unfolding binary decode_read
json decode m = let (after, r) = binary m in (after, decode_read decode r)

unfoldable pub json_un_gzip :
    {J : Type 0}
    → (Bytes → Option Bytes × Bytes)
    → (Bytes → Option J)
    → ReqBody
    → ReqBody × Decoding J
unfolding binary_un_gzip decode_read
json_un_gzip gunzip decode m =
    let (after, r) = binary_un_gzip gunzip m in (after, decode_read decode r)

-- The reads of one body, plain or through gzip.
pub data Way : Type 0 where
  plain : Way
  zipped : Way

unfoldable pub read_body : (Bytes → Option Bytes × Bytes) → Way → ReqBody → ReqBody × Read
unfolding binary binary_un_gzip
read_body gunzip plain m = binary m
read_body gunzip zipped m = binary_un_gzip gunzip m

unfoldable pub read_all : (Bytes → Option Bytes × Bytes) → List Way → ReqBody → ReqBody × List Read
unfolding read_body
read_all gunzip [] m = (m, [])
read_all gunzip (w ∷ ways) m =
    let (after, r) = read_body gunzip w m in
    let (last, rs) = read_all gunzip ways after in (last, r ∷ rs)

kept_again :
    (gunzip : Bytes → Option Bytes × Bytes) (w : Way) (m : ReqBody) (body : Bytes)
    → m.kept ≡ some body
    → read_body gunzip w m ≡ (m, bytes body)
unfolding read_body binary binary_un_gzip
kept_again gunzip plain m body h = rw h refl
kept_again gunzip zipped m body h = rw h refl

binary_kept :
    (o : Option Bytes) (m : ReqBody) (body : Bytes)
    → m.kept ≡ o
    → (binary_in o m).1 ≡ bytes body
    → (binary_in o m).0.kept ≡ some body
unfolding binary_in keep_body
binary_kept none m body e h = ground (arith, h)
binary_kept (some b) m body e h = ground (arith, e, h)

unzipped_kept :
    (o : Option Bytes × Bytes) (body : Bytes)
    → (unzipped o).1 ≡ bytes body
    → (unzipped o).0.kept ≡ some body
unfolding unzipped
unzipped_kept (none, left) body h = absurd (ground (arith, h))
unzipped_kept (some b, left) body h = ground (arith, h)

zipped_kept :
    (gunzip : Bytes → Option Bytes × Bytes) (o : Option Bytes) (m : ReqBody) (body : Bytes)
    → m.kept ≡ o
    → (unzipped_in gunzip o m).1 ≡ bytes body
    → (unzipped_in gunzip o m).0.kept ≡ some body
unfolding unzipped_in
zipped_kept gunzip none m body e h = unzipped_kept (gunzip m.stream) body h
zipped_kept gunzip (some b) m body e h = ground (arith, e, h)

read_kept :
    (gunzip : Bytes → Option Bytes × Bytes) (w : Way) (m : ReqBody) (body : Bytes)
    → (read_body gunzip w m).1 ≡ bytes body
    → (read_body gunzip w m).0.kept ≡ some body
unfolding read_body binary binary_un_gzip
read_kept gunzip plain m body h = binary_kept m.kept m body refl h
read_kept gunzip zipped m body h = zipped_kept gunzip m.kept m body refl h

read_again :
    (gunzip : Bytes → Option Bytes × Bytes) (ways : List Way) (m : ReqBody) (body : Bytes)
    → m.kept ≡ some body
    → (read_all gunzip ways m).1 ≡ replicate (length ways) (bytes body)
unfolding read_all
read_again gunzip [] m body h = refl
read_again gunzip (w ∷ ways) m body h =
    rw (kept_again gunzip w m body h) (ap (◌∷◌ (bytes body)) (read_again gunzip ways m body h))

-- Once a read of a body, plain or through gzip, has given bytes, every later read of either kind
-- gives the same bytes: what was read plainly is never decompressed, and what was decompressed is
-- never given as it was sent.
pub read_all-replicate :
    (gunzip : Bytes → Option Bytes × Bytes) (w : Way) (ways : List Way) (m : ReqBody) (body : Bytes)
    → (read_body gunzip w m).1 ≡ bytes body
    → (read_all gunzip (w ∷ ways) m).1 ≡ replicate (suc (length ways)) (bytes body)
unfolding read_all
read_all-replicate gunzip w ways m body h =
    ap (λ r. r ∷ (read_all gunzip ways (read_body gunzip w m).0).1) h
    ∙ ap (◌∷◌ (bytes body))
        (read_again gunzip ways (read_body gunzip w m).0 body (read_kept gunzip w m body h))

-- `BinaryUnGzip` panics exactly if nothing was read before and the stream has no header of gzip.
pub binary_un_gzip_panics_iff :
    (gunzip : Bytes → Option Bytes × Bytes) (m : ReqBody)
    → ((binary_un_gzip gunzip m).1 ≡ read_panics) ↔ ((m.kept ≡ none) × ((gunzip m.stream).0 ≡ none))
unfolding binary_un_gzip unzipped_in unzipped
binary_un_gzip_panics_iff gunzip m = elim (Option-cases m.kept) [
  | inl e ↦ elim (Option-cases (gunzip m.stream).0) [
    | inl g ↦ (λ h. (e, g), λ h. rw (e, g) refl)
    | inr (b, g) ↦ (λ h. absurd (ground (arith, e, g, h)), λ h. absurd (ground (arith, g, h)))
  ]
  | inr (b, e) ↦ (λ h. absurd (ground (arith, e, h)), λ h. absurd (ground (arith, e, h)))
]
