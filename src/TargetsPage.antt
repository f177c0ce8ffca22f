-- ===== src/TargetsPage.antt =====
-- The forms of web/src/pages/TargetsPage.tsx and web/src/pages/HostsPage.tsx, and the lists without
-- rows that repeat an ID.
pub mod Posted
use prox_back.Prelude.{
  ℕ, Bool, true, false, not, List, [], ◌∷◌, ◌++◌, ◌&&◌, ◌||◌, ◌==◌, leb, if◌then◌else◌, is_empty,
  any, keep,
}
use prox_back.Js.Text.{Text, codes, same_text, trim}
use prox_back.Js.Text.Start.{starts_with, is_web_url, strip_end, is_slash, is_separator}
use prox_back.Forms.{Submission, invalid, posted, refuse_if}

pub record S3Form : Type 0 where
  pub name : Text
  pub endpoint : Text
  pub region : Text
  pub bucket : Text
  pub access_key : Text
  pub secret_key : Text
  pub path_style : Bool

pub record FilesystemForm : Type 0 where
  pub name : Text
  pub path : Text
  pub allow_same_filesystem : Bool

-- `submitS3` up to the request; the body has the fields of the form.
unfoldable pub submit_s3 : S3Form → Submission S3Form
unfolding refuse_if trim strip_end
submit_s3 form = refuse_if (is_empty (trim form.name)) (codes "Give the target a display name.") (
    refuse_if (is_empty (trim form.endpoint)) (codes "Enter the S3 endpoint URL.") (
      refuse_if (is_empty (trim form.bucket)) (codes "Enter the bucket name.") (
        refuse_if (is_empty (trim form.access_key)) (codes "Enter the access key.") (
          refuse_if (is_empty (trim form.secret_key)) (codes "Enter the secret key.") (
            posted (record {
              name = trim form.name;
              endpoint = strip_end is_slash (trim form.endpoint);
              region = trim form.region;
              bucket = trim form.bucket;
              access_key = trim form.access_key;
              secret_key = form.secret_key;
              path_style = form.path_style;
            }))))))

-- `path.replace(/(?!^)[/\\]+$/, '')`: the first code is kept.
unfoldable pub strip_separators : Text → Text
unfolding strip_end
strip_separators [] = []
strip_separators (c ∷ s) = c ∷ strip_end is_separator s

-- `[A-Za-z]`.
unfoldable pub is_letter : ℕ → Bool
is_letter c = (leb b'A' c && leb c b'Z') || (leb b'a' c && leb c b'z')

unfoldable pub is_drive : Text → Bool
unfolding is_letter
is_drive (c ∷ d ∷ e ∷ s) = is_letter c && (d == b':' && is_separator e)
is_drive _ = false

-- `/^([/~]|[A-Za-z]:[/\\]|\\\\)/`.
unfoldable pub is_absolute : Text → Bool
unfolding is_drive starts_with
is_absolute s =
    starts_with (b'/' ∷ []) s
    || starts_with (b'~' ∷ []) s
    || is_drive s
    || starts_with (b'\\' ∷ b'\\' ∷ []) s

-- `submitFilesystem` up to the request.
unfoldable pub submit_filesystem : FilesystemForm → Submission FilesystemForm
unfolding refuse_if trim strip_separators is_absolute
submit_filesystem form =
    let path = strip_separators (trim form.path) in
    refuse_if (is_empty (trim form.name)) (codes "Give the target a display name.") (
      refuse_if (is_empty path) (codes "Enter the directory ProxBack should write into.") (
        refuse_if (not (is_absolute path))
          (codes "Enter an absolute path, for example /mnt/nas/proxback.")
          (posted (record {
            name = trim form.name;
            path = path;
            allow_same_filesystem = form.allow_same_filesystem;
          }))))

-- `HostCreate`.
pub record HostForm : Type 0 where
  pub name : Text
  pub base_url : Text
  pub token_id : Text
  pub token_secret : Text
  pub insecure_tls : Bool

-- `onSubmit` of the host dialog up to the request.
unfoldable pub submit_host : HostForm → Submission HostForm
unfolding refuse_if trim is_web_url strip_end
submit_host form = refuse_if (is_empty (trim form.name)) (codes "Give the host a display name.") (
    refuse_if (not (is_web_url (trim form.base_url)))
      (codes "The base URL must start with https:// or http://.")
      (refuse_if (is_empty (trim form.token_id)) (codes "Enter the API token ID.") (
        refuse_if (is_empty (trim form.token_secret)) (codes "Enter the API token secret.") (
          posted (record {
            name = trim form.name;
            base_url = strip_end is_slash (trim form.base_url);
            token_id = trim form.token_id;
            token_secret = form.token_secret;
            insecure_tls = form.insecure_tls;
          })))))

-- `list.filter(…)` with the set `seen`: the first row of each ID.
unfoldable pub first_of_each : {A : Type 0} → (A → Text) → List Text → List A → List A
unfolding same_text
first_of_each id seen [] = []
first_of_each id seen (row ∷ rows) =
    let rest = first_of_each id (id row ∷ seen) rows in
    let others = first_of_each id seen rows in
    if any (λ s. same_text s (id row)) seen then others else row ∷ rest
