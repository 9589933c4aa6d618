-- ===== src/HttpReq/Responses.antt =====
-- snetutil/httpreq.go: the responses, what they write, and the wrappers of a handler. Encoding to
-- JSON is a parameter, which gives the text or that of its error; http.Redirect and http.Error are
-- calls of the library.
use sutil.Prelude.{
  Bool, Option, none, some, ◌⊎◌, inl, inr, false, ◌&&◌, leb, if◌then◌else◌, ◌≡◌, refl, true, arith,
}
use sutil.Prelude.Text.{Bytes}
use sutil.Mq.{ℤ, pos, negsuc}
use sutil.HttpReq.Body.{json, ReqBody, decoded, decode_error, decoding_panics}

unfoldable pub is_valid_status_code : ℤ → Bool
is_valid_status_code (pos code) = leb 100 code && leb code 999
is_valid_status_code (negsuc n) = false

unfoldable pub valid_status_code : ℤ → ℤ
unfolding is_valid_status_code
valid_status_code code = if is_valid_status_code code then code else pos 500

-- the types of response, as their constructors make them: without headers and cookies
pub data Response (Any : Type 0) : Type 0 where
  resp_json : ℤ → Any → Response Any
  resp_bytes : ℤ → Bytes → Response Any
  resp_string : ℤ → Bytes → Response Any
  resp_redirect : ℤ → Bytes → Response Any

module _ {Any : Type 0} where
  unfoldable pub new_http_resp_json200 : Any → Response Any
  new_http_resp_json200 body = resp_json (pos 200) body

  unfoldable pub new_http_resp_json : ℤ → Any → Response Any
  unfolding valid_status_code
  new_http_resp_json status body = resp_json (valid_status_code status) body

  unfoldable pub new_http_resp_bytes : ℤ → Bytes → Response Any
  unfolding valid_status_code
  new_http_resp_bytes status body = resp_bytes (valid_status_code status) body

  unfoldable pub new_http_resp_string : ℤ → Bytes → Response Any
  unfolding valid_status_code
  new_http_resp_string status body = resp_string (valid_status_code status) body

  unfoldable pub new_http_resp_redirect : ℤ → Bytes → Response Any
  unfolding valid_status_code
  new_http_resp_redirect status url = resp_redirect (valid_status_code status) url

-- the calls of the library that an answer consists of
pub data Answered : Type 0 where
  written : ℤ → Bytes → Answered
  redirected : ℤ → Bytes → Answered
  http_error : Bytes → ℤ → Answered

-- the text of an encoding, or of its error
unfoldable pub encoded : Bytes ⊎ Bytes → Bytes
encoded (inl text) = text
encoded (inr error) = error

-- `WriteResponse`; `DoWriteResponse` sends the status and then the body
unfoldable pub write_response : {Any : Type 0} → (Any → Bytes ⊎ Bytes) → Response Any → Answered
unfolding encoded
write_response marshal (resp_json status body) = written status (encoded (marshal body))
write_response marshal (resp_bytes status body) = written status body
write_response marshal (resp_string status body) = written status body
write_response marshal (resp_redirect status url) = redirected status url

unfoldable pub status_of : Answered → ℤ
status_of (written status body) = status
status_of (redirected status url) = status
status_of (http_error text status) = status

-- `HttpRequestJsonBodyWrapper`: `handle` is the handler that was decoded, and `error` the text for
-- a body that does not decode
unfoldable pub json_body_wrapper :
    {Any Handler : Type 0}
    → (Any → Bytes ⊎ Bytes)
    → (Bytes → Option Handler)
    → Bytes
    → (Handler → ReqBody → Response Any)
    → ReqBody
    → Option Answered
unfolding json write_response
json_body_wrapper marshal decode error handle m =
    let (after, d) = json decode m in
    elim d [
      | decoded h ↦ some (write_response marshal (handle h after))
      | decode_error ↦ some (http_error error (pos 400))
      | decoding_panics ↦ none
    ]

-- a response that a constructor of the file made
pub data Made {Any : Type 0} : Response Any → Type 0 where
  made_json200 : (body : Any) → Made (new_http_resp_json200 body)
  made_json : (status : ℤ) (body : Any) → Made (new_http_resp_json status body)
  made_bytes : (status : ℤ) (body : Bytes) → Made (new_http_resp_bytes status body)
  made_string : (status : ℤ) (body : Bytes) → Made (new_http_resp_string status body)
  made_redirect : (status : ℤ) (url : Bytes) → Made (new_http_resp_redirect status url)

is_valid-valid : (code : ℤ) → is_valid_status_code (valid_status_code code) ≡ true
unfolding is_valid_status_code valid_status_code
is_valid-valid (pos code) = ground arith
is_valid-valid (negsuc n) = refl

-- A response that a constructor of the file made writes or redirects with a status from 100 to 999,
-- which net/http accepts, whatever the status that was asked for.
pub status_of-Made :
    {Any : Type 0} (marshal : Any → Bytes ⊎ Bytes) (r : Response Any)
    → Made r
    → is_valid_status_code (status_of (write_response marshal r)) ≡ true
unfolding status_of write_response new_http_resp_json200 new_http_resp_json new_http_resp_bytes
    new_http_resp_string new_http_resp_redirect
status_of-Made marshal _ (made_json200 body) = unfold is_valid_status_code in refl
status_of-Made marshal _ (made_json status body) = is_valid-valid status
status_of-Made marshal _ (made_bytes status body) = is_valid-valid status
status_of-Made marshal _ (made_string status body) = is_valid-valid status
status_of-Made marshal _ (made_redirect status url) = is_valid-valid status
