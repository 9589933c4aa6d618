-- ===== src/HttpReq/Tests.antt =====
-- Concrete requests and responses.
use sutil.Prelude.{Option, none, some, List, [], ◌∷◌, ◌≡◌, refl, ◌==◌, if◌then◌else◌, replicate}
use sutil.Prelude.Text.{Bytes, codes, text_eq}
use sutil.Prelude.Maps.{Dict, lookup}
use sutil.HttpReq.Body.{
  ReqBody, read_body, read_all, binary, plain, binary_in, zipped, bytes, read_all-replicate,
}
use sutil.HttpReq.{query_get, to_int32, query_of, signed32, first_value, pos, negsuc}
use sutil.Mq.{pos, negsuc}

-- a body that starts with a one is compressed
abbrev strip : Bytes → Option Bytes × Bytes
strip [] = (none, [])
strip (c ∷ s) = if c == 1 then (some s, []) else (none, s)

abbrev compressed : ReqBody
compressed = record { stream = 1 ∷ codes "ab"; kept = none }

plainly_first : (read_body strip plain compressed).1 ≡ bytes (1 ∷ codes "ab")
unfolding read_body binary binary_in
plainly_first = refl

read_all-replicate_example :
    (read_all strip (plain ∷ zipped ∷ plain ∷ []) compressed).1
    ≡ replicate 3 (bytes (1 ∷ codes "ab"))
read_all-replicate_example =
    read_all-replicate strip plain (zipped ∷ plain ∷ []) compressed (1 ∷ codes "ab") plainly_first

-- a lookup of a query parses it once
abbrev one_value : Bytes → Dict (List Bytes)
one_value raw = (codes "a", raw ∷ []) ∷ []

query_get_run :
    query_get one_value (some (codes "7")) (codes "a") none
    ≡ (some (one_value (codes "7")), codes "7")
unfolding query_get query_of first_value lookup text_eq
query_get_run = refl

int32_wraps : to_int32 (pos 4294967295) ≡ negsuc 0
unfolding to_int32 signed32
int32_wraps = refl
