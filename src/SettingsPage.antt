-- ===== src/SettingsPage.antt =====
-- web/src/pages/SettingsPage.tsx: the settings form, what is checked of it and posted, and the form of
-- the password.
pub mod Posted
use prox_back.Prelude.{
  ℕ, zero, suc, ◌+◌, ◌*◌, ◌%◌, Bool, true, false, not, List, [], ◌∷◌, ◌++◌, Option, none, some,
  ◌&&◌, ◌||◌, ◌==◌, leb, ltb, if◌then◌else◌, is_empty, length, pos,
}
use prox_back.Js.Text.{Text, codes, same_text, trim}
use prox_back.Js.Number.{Number, nan, finite}
use prox_back.Forms.{Submission, invalid, posted, refuse_if}
use prox_back.Js.Text.Start.{is_web_url}

-- `NotifyOn`, and `Compression`, which is 'zstd' or 'off'.
pub data NotifyOn : Type 0 where
  off failures every : NotifyOn

pub data Compression : Type 0 where
  zstd uncompressed : Compression

pub record Settings : Type 0 where
  pub server_name : Text
  pub concurrency : Number
  pub webhook_url : Text
  pub notify_on : NotifyOn
  pub upload_concurrency : Number
  pub compression : Compression
  pub upload_limit_mbps : Number

-- The three cards that save.
pub data Card : Type 0 where
  server notifications performance : Card

-- `Number.isInteger(n) && !(n < low || n > high)`.
unfoldable pub is_whole_between : ℕ → ℕ → Number → Bool
is_whole_between low high (finite (pos n) d) =
    n % suc d == 0 && (leb (low * suc d) n && leb n (high * suc d))
is_whole_between low high _ = false

abbrev pub is_off : NotifyOn → Bool
is_off off = true
is_off _ = false

-- `persist` up to the request.
unfoldable pub persist : Settings → Submission Settings
unfolding trim is_web_url is_whole_between refuse_if
persist form =
    let server_name = trim form.server_name in
    let webhook_url = trim form.webhook_url in
    refuse_if (is_empty server_name) (codes "Give this server a display name.") (
      refuse_if (not (is_whole_between 1 32 form.concurrency))
        (codes "Concurrency must be a whole number between 1 and 32.")
        (refuse_if (not (is_empty webhook_url) && not (is_web_url webhook_url))
          (codes "The webhook URL must start with http:// or https://.")
          (refuse_if (is_empty webhook_url && not (is_off form.notify_on))
            (codes "Add a webhook URL, or set notifications to Off.")
            (refuse_if (not (is_whole_between 1 16 form.upload_concurrency))
              (codes "Parallel transfers must be a whole number between 1 and 16.")
              (refuse_if (not (is_whole_between 0 10000 form.upload_limit_mbps))
                (codes "The upload limit must be a whole number between 0 and 10000 Mbps.")
                (posted (record form { server_name = server_name; webhook_url = webhook_url })))))))

-- The state of the page, with the error under each card.
pub record Page : Type 0 where
  pub form : Settings
  pub submitting : Option Card
  pub form_error : Option Text
  pub notify_error : Option Text
  pub perf_error : Option Text
  -- The name that the session shows.
  pub shown_name : Text

-- `fail`.
unfoldable pub fail : Page → Card → Text → Page
fail page server message = record page { form_error = some message }
fail page notifications message = record page { notify_error = some message }
fail page performance message = record page { perf_error = some message }

unfoldable pub clear_errors : Page → Page
clear_errors page = record page { form_error = none; notify_error = none; perf_error = none }

-- What the server answers to `putSettings`.
pub data Answer : Type 0 where
  saved : Settings → Answer
  failed : Text → Answer

-- `persist` with the request, and without the `reload` behind it.
unfoldable pub save : Page → Card → Answer → Page
unfolding persist fail clear_errors
save page card answer = after (clear_errors page) (persist page.form)
  where
    after : Page → Submission Settings → Page
    after cleared (invalid message) = fail cleared card message
    after cleared (posted settings) = elim answer [
      | saved settings ↦ record cleared { form = settings; shown_name = settings.server_name }
      | failed message ↦ fail cleared card message
    ]

-- What `onSubmit` of `ChangePasswordCard` says before it asks the server, if anything.
unfoldable pub password_error : Text → Text → Text → Option Text
unfolding same_text
password_error current next confirm =
    if is_empty current || is_empty next
    then some (codes "Enter your current password and the new one.")
    else if ltb (length next) 8
    then some (codes "The new password must be at least 8 characters.")
    else if not (same_text next confirm)
    then some (codes "The new passwords do not match.")
    else none
