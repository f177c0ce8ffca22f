-- ===== src/SettingsPage/Posted.antt =====
-- The settings that web/src/pages/SettingsPage.tsx posts.
use prox_back.Prelude.{
  ℕ, suc, ◌*◌, ◌%◌, ◌≤◌, ◌≡◌, ◌≢◌, refl, sym, subst, ◌⊎◌, inl, inr, Bool, true, false, not, [], ◌∷◌,
  ◌&&◌, is_empty, pos, negsuc, ◌==◌, leb, arith,
}
use prox_back.Js.Text.{Text, trim}
use prox_back.Js.Text.Start.{is_web_url}
use prox_back.Js.Number.{Number, nan, infinity, minus_infinity, finite}
use prox_back.Forms.{posted}
use prox_back.Forms.Passed.{refuse_if-posted, body_of-posted}
use prox_back.SettingsPage.{
  NotifyOn, off, failures, every, Settings, is_whole_between, is_off, persist,
}

-- A fraction that is a whole number within limits.
abbrev pub IsWithin : ℕ → ℕ → Number → Type 0
IsWithin low high v =
    (n : ℕ) × (d : ℕ) × (v ≡ finite (pos n) d)
    × (n % suc d ≡ 0)
    × (low * suc d ≤ n)
    × (n ≤ high * suc d)

-- What the server is sent.
pub record IsAccepted (s : Settings) : Type 0 where
  pub named : s.server_name ≢ []
  pub streams : IsWithin 1 32 s.concurrency
  pub uploads : IsWithin 1 16 s.upload_concurrency
  pub limit : IsWithin 0 10000 s.upload_limit_mbps
  pub hooked : ((s.webhook_url ≡ []) × (s.notify_on ≡ off)) ⊎ (is_web_url s.webhook_url ≡ true)

is_whole_between-IsWithin :
    (low high : ℕ) (v : Number) → not (is_whole_between low high v) ≡ false → IsWithin low high v
unfolding is_whole_between
is_whole_between-IsWithin low high (finite (pos n) d) h =
    let (whole, above, below) = tests n (suc d) (low * suc d) (high * suc d) h in
    (n, d, refl, whole, above, below)
  where
    tests :
        (n d low high : ℕ)
        → not (n % d == 0 && (leb low n && leb n high)) ≡ false
        → (n % d ≡ 0) × (low ≤ n) × (n ≤ high)
    tests n d low high h = ground arith
is_whole_between-IsWithin low high (finite (negsuc n) d) h = absurd cc
is_whole_between-IsWithin low high nan h = absurd cc
is_whole_between-IsWithin low high infinity h = absurd cc
is_whole_between-IsWithin low high minus_infinity h = absurd cc

hooked_of :
    (url : Text) (notify_on : NotifyOn) (is_web : Bool)
    → (not (is_empty url) && not is_web) ≡ false
    → (is_empty url && not (is_off notify_on)) ≡ false
    → ((url ≡ []) × (notify_on ≡ off)) ⊎ (is_web ≡ true)
hooked_of [] off is_web h k = inl (refl, refl)
hooked_of [] failures is_web h k = absurd cc
hooked_of [] every is_web h k = absurd cc
hooked_of (c ∷ s) notify_on true h k = inr refl
hooked_of (c ∷ s) notify_on false h k = absurd cc

named_of : (name : Text) → is_empty name ≡ false → name ≢ []
named_of [] h = absurd cc
named_of (c ∷ s) h = cc

-- What is posted for the settings has a name, whole numbers within the limits that the page states, and
-- a webhook that is a web address, or none and no notifications; and apart from the white space
-- around two texts it is the whole form, whichever card it is saved from.
pub persist-IsAccepted :
    (form s : Settings)
    → persist form ≡ posted s
    → IsAccepted s
      × (s ≡ record form {
        server_name = trim form.server_name;
        webhook_url = trim form.webhook_url;
      })
unfolding persist
persist-IsAccepted form s e =
    let (named, e1) = refuse_if-posted _ _ _ s e in
    let (streams, e2) = refuse_if-posted _ _ _ s e1 in
    let (web, e3) = refuse_if-posted _ _ _ s e2 in
    let (hook, e4) = refuse_if-posted _ _ _ s e3 in
    let (uploads, e5) = refuse_if-posted _ _ _ s e4 in
    let (limit, e6) = refuse_if-posted _ _ _ s e5 in
    let is_s = body_of-posted _ s e6 in
    (
      subst IsAccepted is_s (record {
        named = named_of (trim form.server_name) named;
        streams = is_whole_between-IsWithin 1 32 form.concurrency streams;
        uploads = is_whole_between-IsWithin 1 16 form.upload_concurrency uploads;
        limit = is_whole_between-IsWithin 0 10000 form.upload_limit_mbps limit;
        hooked =
            hooked_of (trim form.webhook_url) form.notify_on (is_web_url (trim form.webhook_url))
              web hook;
      }),
      sym is_s,
    )
