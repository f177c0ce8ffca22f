-- ===== src/Api/Errors/Laws.antt =====
-- The errors of `request` and `errorMessage` of web/src/api.ts.
use prox_back.Prelude.{ℕ, ◌≡◌, refl, ◌≢◌, ◌⊎◌, true, false, [], ◌∷◌, ◌++◌, arith}
use prox_back.Js.Text.{Text, codes, trim}
use prox_back.Js.Value.{Value}
use prox_back.Api.Errors.{
  ApiError, is_forbidden, api, Read, failed, got, Response, is_ok, forbidden_message,
  generic_message, or_generic, parse_error, answered, thrown, request, is_bare_forbidden,
  forbidden_text, error_message,
}

or_generic-ne-nil : (s : Text) (status : ℕ) → or_generic s status ≢ []
unfolding or_generic generic_message
or_generic-ne-nil [] status = ground arith
or_generic-ne-nil (c ∷ s) status = cc

module _ (parse : Text → Read Value) (url : Text) where
  parse_error-message :
      (res : Response)
      → (s : Text) × ((parse_error parse res url).message ≡ or_generic s res.status)
  unfolding parse_error
  parse_error-message res = read res.text
    where
      read :
          (text : Read Text)
          → (s : Text) × ((parse_error parse (record res { text = text }) url).message
              ≡ or_generic s res.status)
      read (failed message) = ([], refl)
      read (got text) = (_, refl)

  parse_error-status :
      (res : Response)
      → ((parse_error parse res url).status ≡ res.status) × ((parse_error parse res url).url ≡ url)
  unfolding parse_error
  parse_error-status res = read res.text
    where
      read :
          (text : Read Text)
          → ((parse_error parse (record res { text = text }) url).status ≡ res.status)
            × ((parse_error parse (record res { text = text }) url).url ≡ url)
      read (failed message) = (refl, refl)
      read (got text) = (refl, refl)

  -- A response whose status is no success makes the request throw an `ApiError` with that status,
  -- the URL and a message that is not empty, whatever the body is.
  pub request-failure :
      (res : Response)
      → is_ok res ≡ false
      → (e : ApiError) × (request parse url (answered res) ≡ thrown (api e))
        × (e.status ≡ res.status)
        × (e.url ≡ url)
        × (e.message ≢ [])
  unfolding request
  request-failure res h =
      let (s, same) = parse_error-message res in
      let (status, at) = parse_error-status res in
      (parse_error parse res url, rw h, status, at, rw same (or_generic-ne-nil s res.status))

-- The explanation of a role refusal: alone, or with the server's words, which then say more.
abbrev pub IsRefusal : Text → Text → Type 0
IsRefusal shown detail =
    (shown ≡ forbidden_message)
    ⊎ ((shown ≡ forbidden_message ++ (codes " " ++ detail))
        × (detail ≢ [])
        × (is_bare_forbidden detail ≡ false))

error_message-forbidden :
    (e : ApiError) → is_forbidden e ≡ true → IsRefusal (error_message (api e)) (trim e.message)
unfolding error_message forbidden_text
error_message-forbidden e h = ground arith

-- A response of status 403 makes the request throw an error for which the console shows that the
-- role does not allow this, whatever the body is; the server's words follow only if they are neither
-- blank nor a bare refusal.
pub request-forbidden :
    (parse : Text → Read Value) (url : Text) (res : Response)
    → res.status ≡ 403
    → (e : ApiError) × (request parse url (answered res) ≡ thrown (api e))
      × IsRefusal (error_message (api e)) (trim e.message)
request-forbidden parse url res h =
    let (e, same, status, at, some_message) = request-failure parse url res (ground arith) in
    (e, same, error_message-forbidden e (ground arith))
