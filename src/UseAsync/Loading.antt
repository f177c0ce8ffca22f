-- ===== src/UseAsync/Loading.antt =====
-- The loading state of `useAsync` in web/src/lib/useAsync.ts, and the order of its answers.
use prox_back.Prelude.{
  ℕ, ◌≡◌, refl, ◌≢◌, ◌⊎◌, inl, inr, Bool, true, false, [], none, some, ◌&&◌, ◌==◌, any, arith,
  is_empty,
}
use prox_back.Js.Text.{Text}
use prox_back.UseAsync.{
  Hook, begin, Answer, given, failed, done, finish, Event, pass, reload, refresh, set_data, ended,
  unmount, can_happen, handle, mount, Reached, mounted, handled,
}

-- Loading, on a page that is there, with no call under way.
abbrev is_stuck : Hook → Bool
is_stuck h = h.loading && (h.is_mounted && is_empty h.flights)

handle-is_stuck :
    (h : Hook) (event : Event) → is_stuck h ≡ false → is_stuck (handle h event) ≡ false
unfolding handle begin finish
handle-is_stuck h (pass loader) k = ground arith
handle-is_stuck h reload k = ground arith
handle-is_stuck h refresh k = ground arith
handle-is_stuck h (set_data text) k = k
handle-is_stuck h (ended loader answer) k = ground arith
handle-is_stuck h unmount k = ground arith

Reached-is_stuck : (h : Hook) → Reached h → is_stuck h ≡ false
unfolding mount begin
Reached-is_stuck _ (mounted loader) = refl
Reached-is_stuck _ (handled h event r c) = handle-is_stuck h event (Reached-is_stuck h r)

-- While a page that is there shows that it is loading, a call is under way; and whatever call ends
-- then, and however it ends, the page does not show that it is loading any more and shows what the
-- call gave or its error.
pub ended-settles :
    (h : Hook) (loader : ℕ) (answer : Answer)
    → Reached h
    → h.is_mounted ≡ true
    → h.loading ≡ true
    → (h.flights ≢ [])
      × ((handle h (ended loader answer)).loading ≡ false)
      × (((text : Text) × (answer ≡ given text)
            × ((handle h (ended loader answer)).shown ≡ some text)
            × ((handle h (ended loader answer)).error ≡ none))
          ⊎ ((message : Text) × (answer ≡ failed message)
              × ((handle h (ended loader answer)).error ≡ some message)
              × ((handle h (ended loader answer)).shown ≡ h.shown)))
unfolding handle finish
ended-settles h loader answer r m l = let (off, result) = settles answer in (under_way, off, result)
  where
    under_way : h.flights ≢ []
    under_way e = let k = Reached-is_stuck h r in ground arith

    settles :
        (answer : Answer)
        → ((finish h loader answer).loading ≡ false)
          × (((text : Text) × (answer ≡ given text)
                × ((finish h loader answer).shown ≡ some text)
                × ((finish h loader answer).error ≡ none))
              ⊎ ((message : Text) × (answer ≡ failed message)
                  × ((finish h loader answer).error ≡ some message)
                  × ((finish h loader answer).shown ≡ h.shown)))
    settles (given text) = rw m (refl, inl (text, refl, refl, refl))
    settles (failed message) = rw m (refl, inr (message, refl, refl, refl))

-- The answer of a loader that the page has replaced is taken like any other: if the page passes
-- another loader while a call is under way, both calls can end in either order, and if the old one
-- ends last, the page shows what it gave, under the new loader and with no sign of loading.
pub ended-stale :
    (h : Hook) (loader : ℕ) (new old : Text)
    → can_happen h (pass loader) ≡ true
    → any (λ l. l == h.loader) h.flights ≡ true
    → (can_happen
          (handle (handle h (pass loader)) (ended loader (given new)))
          (ended h.loader (given old))
        ≡ true)
      × ((handle
            (handle (handle h (pass loader)) (ended loader (given new)))
            (ended h.loader (given old))).shown
          ≡ some old)
      × ((handle
            (handle (handle h (pass loader)) (ended loader (given new)))
            (ended h.loader (given old))).loader
          ≡ loader)
      × ((handle
            (handle (handle h (pass loader)) (ended loader (given new)))
            (ended h.loader (given old))).loading
          ≡ false)
unfolding handle begin finish can_happen done
ended-stale h loader new old c under_way = ground arith
