-- ===== src/Api/Errors.antt =====
-- The transport of web/src/api.ts: what a request returns or throws, and the message that the
-- console shows for it. `JSON.parse` is an argument.
pub mod Laws
use prox_back.Prelude.{
  ℕ, ◌+◌, Bool, true, false, List, [], ◌∷◌, ◌++◌, ◌&&◌, ◌||◌, ◌==◌, leb, map, if◌then◌else◌,
  is_empty, any,
}
use prox_back.Js.Text.{Text, codes, same_text, trim, trim_start, print_nat}
use prox_back.Js.Value.{Value, undefined, null, str, property, lookup}

-- `class ApiError`.
pub record ApiError : Type 0 where
  pub status : ℕ
  pub message : Text
  pub url : Text
  pub body : Value

abbrev pub is_forbidden : ApiError → Bool
is_forbidden e = e.status == 403

-- What can be thrown: an `ApiError`, the `DOMException` of an aborted fetch, another `Error` with
-- its message, and a value that is no `Error`, with its text.
pub data Thrown : Type 0 where
  api : ApiError → Thrown
  aborted : Text → Thrown
  error : Text → Thrown
  other : Text → Thrown

-- What a step of the engine gives: a value, or an `Error` with its message.
pub data Read (A : Type 0) : Type 0 where
  failed : Text → Read A
  got : A → Read A

-- The response to a fetch, with what `res.text()` gives.
pub record Response : Type 0 where
  pub status : ℕ
  pub text : Read Text

-- `res.ok`.
abbrev pub is_ok : Response → Bool
is_ok res = leb 200 res.status && leb res.status 299

abbrev pub forbidden_message : Text
forbidden_message = codes "Your role does not allow this."

-- What `parseError` puts in place of an empty message.
generic_message : ℕ → Text
generic_message status =
    if status == 401
    then codes "Not signed in."
    else if status == 403
    then forbidden_message
    else codes "Request failed with status " ++ (print_nat status ++ codes ".")

-- `typeof parsed.error === 'string' && parsed.error ? parsed.error : text`.
stated_error : Value → Text → Text
stated_error (str []) text = text
stated_error (str (c ∷ s)) text = c ∷ s
stated_error _ text = text

-- The message and the body that `parseError` reads from a text that is not empty. For `null` the
-- reading of `parsed.error` throws after the body was set, and the text is the message.
read_body : Read Value → Text → Text × Value
unfolding stated_error lookup
read_body (failed message) text = (text, undefined)
read_body (got null) text = (text, null)
read_body (got parsed) text = (stated_error (property (codes "error") parsed) text, parsed)

or_generic : Text → ℕ → Text
unfolding generic_message
or_generic [] status = generic_message status
or_generic (c ∷ s) status = c ∷ s

unfoldable pub parse_error : (Text → Read Value) → Response → Text → ApiError
unfolding read_body or_generic
parse_error parse res url = elim res.text [
  | failed message ↦ record {
    status = res.status;
    message = or_generic [] res.status;
    url = url;
    body = undefined;
  }
  | got text ↦
      let (message, body) =
        if is_empty text then ([], undefined) else read_body (parse text) text in
      record {
        status = res.status;
        message = or_generic message res.status;
        url = url;
        body = body;
      }
]

-- What `fetch` gives.
pub data Fetched : Type 0 where
  answered : Response → Fetched
  stopped : Text → Fetched
  unreachable : Fetched

pub data Outcome : Type 0 where
  returned : Value → Outcome
  thrown : Thrown → Outcome

-- The reading of a successful response.
read_success : (Text → Read Value) → Response → Outcome
read_success parse res = if res.status == 204 then returned undefined else elim res.text [
  | failed message ↦ thrown (error message)
  | got text ↦ if is_empty text then returned undefined else elim (parse text) [
    | failed message ↦ thrown (error message)
    | got value ↦ returned value
  ]
]

-- `request`, given what its fetch of `url` gives.
unfoldable pub request : (Text → Read Value) → Text → Fetched → Outcome
unfolding parse_error read_success
request parse url (stopped message) = thrown (aborted message)
request parse url unreachable = thrown (
    api (record {
      status = 0;
      message = codes "Cannot reach the ProxBack server.";
      url = url;
      body = undefined;
    }))
request parse url (answered res) =
    if is_ok res then read_success parse res else thrown (api (parse_error parse res url))

-- The lower case of a code unit, as far as a pattern of ASCII letters can tell.
lower : ℕ → ℕ
lower c = if leb b'A' c && leb c b'Z' then c + 32 else c

drop_403 : Text → Text
unfolding trim_start
drop_403 (a ∷ b ∷ c ∷ s) =
    if a == b'4' && b == b'0' && c == b'3' then trim_start s else a ∷ b ∷ c ∷ s
drop_403 s = s

-- One dot at the end may be there or not.
drop_dot : Text → Text
drop_dot [] = []
drop_dot (c ∷ []) = if c == b'.' then [] else c ∷ []
drop_dot (c ∷ d ∷ s) = c ∷ drop_dot (d ∷ s)

abbrev pub refusals : List Text
refusals =
    codes "forbidden"
    ∷ codes "unauthorized"
    ∷ codes "unauthorised"
    ∷ codes "access denied"
    ∷ codes "permission denied"
    ∷ codes "not allowed"
    ∷ codes "insufficient permission"
    ∷ codes "insufficient permissions"
    ∷ []

-- `BARE_FORBIDDEN.test(detail)`: no refusal begins with 403 or ends in a dot, so that the optional
-- parts of the pattern can be taken off first.
unfoldable pub is_bare_forbidden : Text → Bool
unfolding lower drop_403 drop_dot same_text
is_bare_forbidden detail = any (same_text (drop_dot (drop_403 (map lower detail)))) refusals

forbidden_text : Text → Text
forbidden_text detail =
    if is_empty detail || is_bare_forbidden detail
    then forbidden_message
    else forbidden_message ++ (codes " " ++ detail)

-- `errorMessage`.
unfoldable pub error_message : Thrown → Text
unfolding forbidden_text
error_message (api e) = if is_forbidden e then forbidden_text (trim e.message) else e.message
error_message (aborted message) = message
error_message (error message) = message
error_message (other text) = text
