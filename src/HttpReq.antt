-- ===== src/HttpReq.antt =====
-- snetutil/httpreq.go: the typed arguments of a request, and where they come from. strconv's
-- parsers are parameters, with the number they give also where there is an error; url.ParseQuery
-- and the lookups of net/http and httprouter are parameters as well. Logging is left out.
pub mod Body
pub mod Responses
mod Tests
use sutil.Prelude.Text.{Bytes}
use sutil.Prelude.Maps.{Dict, lookup}
use sutil.Mq.{ℤ, pos, negsuc}
use sutil.Prelude.{
  ℕ, ◌-◌, ◌%◌, ◌^◌, Bool, false, Option, none, some, List, [], ◌∷◌, ltb, ◌==◌, if◌then◌else◌,
  length,
}

-- an int32 of its 32 bits
unfoldable pub signed32 : ℕ → ℤ
signed32 bits = if ltb bits (2 ^ 31) then pos bits else negsuc (2 ^ 32 - 1 - bits)

-- the conversion of an int64 to int32
unfoldable pub to_int32 : ℤ → ℤ
unfolding signed32
to_int32 (pos n) = signed32 (n % 2 ^ 32)
to_int32 (negsuc n) = signed32 (2 ^ 32 - 1 - n % 2 ^ 32)

-- `reqArgs` over a `keyGet`
module _ (get : Bytes → Bytes) where
  unfoldable pub string_arg : Bytes → Bytes
  string_arg key = get key

  unfoldable pub int_arg : (Bytes → ℤ × Bool) → Bytes → ℤ
  int_arg atoi key = if length (get key) == 0 then pos 0 else (atoi (get key)).0

  unfoldable pub int32_arg : (Bytes → ℕ → ℤ × Bool) → Bytes → ℤ
  unfolding to_int32
  int32_arg parse_int key =
      if length (get key) == 0 then pos 0 else to_int32 (parse_int (get key) 32).0

  unfoldable pub int64_arg : (Bytes → ℕ → ℤ × Bool) → Bytes → ℤ
  int64_arg parse_int key = if length (get key) == 0 then pos 0 else (parse_int (get key) 64).0

  unfoldable pub bool_arg : (Bytes → Bool × Bool) → Bytes → Bool
  bool_arg parse_bool key = if length (get key) == 0 then false else (parse_bool (get key)).0

-- `url.Values.Get`
unfoldable pub first_value : Option (List Bytes) → Bytes
first_value (some (v ∷ vs)) = v
first_value _ = []

-- the parsed query of a `reqQuery`, or none before its first use; `url` is the raw query, or none
-- where the request has no URL
unfoldable pub query_of :
    (Bytes → Dict (List Bytes)) → Option Bytes → Option (Dict (List Bytes)) → Dict (List Bytes)
query_of parse_query url (some q) = q
query_of parse_query (some raw) none = parse_query raw
query_of parse_query none none = []

unfoldable pub query_get :
    (Bytes → Dict (List Bytes))
    → Option Bytes
    → Bytes
    → Option (Dict (List Bytes))
    → Option (Dict (List Bytes)) × Bytes
unfolding query_of first_value
query_get parse_query url key q =
    let values = query_of parse_query url q in (some values, first_value (lookup key values))

-- what `Request.Cookie` gives
pub data Cookie : Type 0 where
  cookie : Bytes → Cookie
  no_cookie : Cookie
  cookie_error : Cookie

unfoldable pub cookie_get : (Bytes → Cookie) → Bytes → Bytes
cookie_get cookies key = elim (cookies key) [ cookie v ↦ v | no_cookie ↦ [] | cookie_error ↦ [] ]
