-- ===== src/Tests/Accounts.antt =====
-- The forms of the pages and the figures of targets and runs at concrete inputs.
use prox_back.Prelude.{suc, ◌≡◌, ◌≢◌, refl, ◌⊎◌, inl, inr, true, false, List, [], ◌∷◌, none, some}
use prox_back.Js.Text.{Text, codes, same_text, trim, trim_start, trim_end, is_space}
use prox_back.Js.Text.Start.{strip_end, starts_with, is_web_url, fold_case}
use prox_back.Js.Number.{whole}
use prox_back.Js.Value.{num, number_of}
use prox_back.Forms.{posted, refuse_if}
use prox_back.Api.Roles.{admin}
use prox_back.Api.Targets.{filesystem, s3, Target, TargetCapacity, capacity_of}
use prox_back.Api.Targets.Capacity.{IsDrawn, capacity_of-IsDrawn}
use prox_back.SettingsPage.{failures, zstd, Settings, is_whole_between, persist}
use prox_back.SettingsPage.Posted.{IsAccepted, persist-IsAccepted}
use prox_back.TargetsPage.{
  FilesystemForm, strip_separators, is_absolute, is_drive, submit_filesystem,
}
use prox_back.TargetsPage.Posted.{HasNoTail, submit_filesystem-IsTidy}
use prox_back.UsersPage.{
  UserAccount, admin_count, confirm_delete, can_happen, loaded_site, handle_all, can_all_happen,
}
use prox_back.UsersPage.Admins.{HaveOwnIds, both_deleted, admin_count-both_deleted}

abbrev settings : Text → Settings
settings name = record {
  server_name = name;
  concurrency = whole 2;
  webhook_url = codes "https://hook";
  notify_on = failures;
  upload_concurrency = whole 4;
  compression = zstd;
  upload_limit_mbps = whole 0;
}

settings-posted : persist (settings (codes "vault ")) ≡ posted (settings (codes "vault"))
unfolding persist refuse_if trim trim_start trim_end is_space is_whole_between is_web_url
    starts_with fold_case
settings-posted = refl

persist_example :
    IsAccepted (settings (codes "vault"))
    × (settings (codes "vault") ≡ record (settings (codes "vault ")) {
      server_name = trim (codes "vault ");
      webhook_url = trim (codes "https://hook");
    })
persist_example =
    persist-IsAccepted (settings (codes "vault ")) (settings (codes "vault")) settings-posted

abbrev directory : Text → FilesystemForm
directory path = record { name = codes "nas"; path = path; allow_same_filesystem = false }

directory-posted :
    submit_filesystem (directory (codes "/mnt/nas//")) ≡ posted (directory (codes "/mnt/nas"))
unfolding submit_filesystem refuse_if trim trim_start trim_end is_space strip_separators strip_end
    is_absolute is_drive starts_with
directory-posted = refl

directory_example :
    ((directory (codes "/mnt/nas")).name ≢ [])
    × (is_absolute (directory (codes "/mnt/nas")).path ≡ true)
    × HasNoTail (directory (codes "/mnt/nas")).path
    × (strip_separators (directory (codes "/mnt/nas")).path ≡ (directory (codes "/mnt/nas")).path)
directory_example =
    submit_filesystem-IsTidy (directory (codes "/mnt/nas//")) (directory (codes "/mnt/nas"))
      directory-posted

abbrev first_admin : UserAccount
first_admin = record { id = codes "1"; username = codes "root"; role = admin }

abbrev second_admin : UserAccount
second_admin = record { id = codes "2"; username = codes "ann"; role = admin }

abbrev accounts : List UserAccount
accounts = first_admin ∷ second_admin ∷ []

accounts-apart : HaveOwnIds accounts
unfolding same_text
accounts-apart = ((refl, tt), (tt, tt))

accounts-two : admin_count accounts ≡ 2
unfolding admin_count
accounts-two = refl

locked_out_example :
    (can_all_happen (loaded_site accounts) (both_deleted first_admin second_admin) ≡ true)
    × (admin_count
          (handle_all (loaded_site accounts) (both_deleted first_admin second_admin)).accounts
        ≡ 0)
unfolding same_text
locked_out_example =
    admin_count-both_deleted accounts first_admin second_admin accounts-apart (inl refl)
      (inr (inl refl)) refl refl refl accounts-two

-- With one administrator left the page offers neither.
last_test : can_happen (loaded_site (first_admin ∷ [])) (confirm_delete first_admin) ≡ false
unfolding can_happen loaded_site
last_test = refl

abbrev nas : Target
nas = record {
  id = codes "t";
  name = codes "nas";
  kind = filesystem;
  path = codes "/mnt/nas";
  endpoint = [];
  bucket = [];
  free_bytes = num (whole 50);
  total_bytes = num (whole 1000);
}

nas-sizes : (number_of nas.total_bytes ≡ whole (suc 999)) × (number_of nas.free_bytes ≡ whole 50)
unfolding number_of
nas-sizes = (refl, refl)

capacity_example :
    ((nas.kind ≡ s3) × (capacity_of nas ≡ none))
    ⊎ ((nas.kind ≡ filesystem)
        × ((c : TargetCapacity) × (capacity_of nas ≡ some c) × IsDrawn (suc 999) 50 c))
capacity_example = capacity_of-IsDrawn nas 999 50 nas-sizes.0 nas-sizes.1
