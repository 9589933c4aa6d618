-- ===== src/Download.antt =====
-- snetutil/snetutil.go, HttpRangeDownload: a file fetched range by range. The server is a parameter,
-- which says what a request for a range comes to; the file is the bytes written so far. The content
-- length is that of the response to the HEAD request, a number that is not negative; a split size that
-- is not positive is 0. Opening the file, the HEAD request and the time limit are left out, and of an
-- error only that there is one is kept.
pub mod Ranges
mod Tests
use sutil.Prelude.Text.{Bytes}
use sutil.Prelude.{
  ℕ, zero, suc, ◌+◌, ◌-◌, ◌*◌, ◌/◌, ◌%◌, Option, none, some, ◌++◌, ltb, if◌then◌else◌, length, [],
}

-- the `Range` header of a request: none, `bytes=lo-hi`, or `bytes=lo-`
pub data Range : Type 0 where
  whole : Range
  between : ℕ → ℕ → Range
  onwards : ℕ → Range

-- a request fails, or its body is copied, in full or up to an error
pub data Fetch : Type 0 where
  refused : Fetch
  copied : Bytes → Fetch
  broken : Bytes → Fetch

-- `doGet`: the number of bytes written, and the file. The status of the response is not looked at.
unfoldable pub do_get : Fetch → Bytes → Option ℕ × Bytes
do_get refused file = (none, file)
do_get (copied body) file = (some (length body), file ++ body)
do_get (broken body) file = (none, file ++ body)

-- An error ends the download; the file stays.
abbrev pub then_count : ℕ → Option ℕ × Bytes → (ℕ → Bytes → Option ℕ × Bytes) → Option ℕ × Bytes
then_count getlen (none, file) rest = (none, file)
then_count getlen (some n, file) rest = rest (getlen + n) file

module _ (serve : Range → Fetch) (split_size : ℕ) where
  -- the loop from round `i`, with the rounds that are left
  unfoldable pub get_steps : ℕ → ℕ → ℕ → Bytes → Option ℕ × Bytes
  unfolding do_get
  get_steps zero i getlen file = (some getlen, file)
  get_steps (suc rounds) i getlen file =
      then_count getlen
        (do_get (serve (between (i * split_size) (i * split_size + split_size - 1))) file)
        (get_steps rounds (suc i))

  -- the bytes behind the last full range
  unfoldable pub get_rest : ℕ → ℕ → Bytes → Option ℕ × Bytes
  unfolding do_get
  get_rest contlen getlen file =
      if ltb 0 (contlen % split_size)
      then then_count getlen (do_get (serve (onwards (contlen / split_size * split_size))) file)
          (λ n f. (some n, f))
      else (some getlen, file)

  -- `HttpRangeDownload`, behind the HEAD request, into an empty file
  unfoldable pub http_range_download : ℕ → Option ℕ × Bytes
  unfolding get_steps get_rest do_get
  http_range_download contlen =
      if ltb 0 split_size
      then then_count 0 (get_steps (contlen / split_size) 0 0 []) (get_rest contlen)
      else do_get (serve whole) []
