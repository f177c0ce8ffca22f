-- ===== src/UseAsync.antt =====
-- `useAsync` of web/src/lib/useAsync.ts: a loader that runs on mount, whenever it changes and on
-- demand. Loaders are told apart by a number; what they give is a text.
pub mod Loading
use prox_back.Prelude.{
  ℕ, ◌≡◌, Bool, true, false, not, List, [], ◌∷◌, Option, none, some, ◌&&◌, ◌||◌, ◌==◌,
  if◌then◌else◌, any,
}
use prox_back.Js.Text.{Text}

-- The state of the hook; `flights` holds the loaders of the calls that are under way.
pub record Hook : Type 0 where
  pub shown : Option Text
  pub loading : Bool
  pub error : Option Text
  pub is_mounted : Bool
  pub loader : ℕ
  pub flights : List ℕ

-- `run`, up to the call of the loader.
unfoldable pub begin : Hook → Bool → Hook
begin h show_loading = record h {
  loading = show_loading || h.loading;
  flights = h.loader ∷ h.flights;
}

-- What the loader gives: data, or an error with its message.
pub data Answer : Type 0 where
  given : Text → Answer
  failed : Text → Answer

-- The list without the first call of that loader.
unfoldable pub done : ℕ → List ℕ → List ℕ
done loader [] = []
done loader (l ∷ ls) = let rest = done loader ls in if l == loader then ls else l ∷ rest

-- The rest of `run`.
unfoldable pub finish : Hook → ℕ → Answer → Hook
finish h loader answer =
    if not h.is_mounted then record h { flights = done loader h.flights } else elim answer [
      | given text ↦ record h {
        shown = some text;
        error = none;
        loading = false;
        flights = done loader h.flights;
      }
      | failed message ↦ record h {
        error = some message;
        loading = false;
        flights = done loader h.flights;
      }
    ]

-- What happens: the page passes another loader, whose effect runs it; `reload`, `refresh` and
-- `setData` are called; a call of a loader ends; the page goes away.
pub data Event : Type 0 where
  pass : ℕ → Event
  reload refresh : Event
  set_data : Text → Event
  ended : ℕ → Answer → Event
  unmount : Event

unfoldable pub can_happen : Hook → Event → Bool
can_happen h (pass loader) = h.is_mounted && not (loader == h.loader)
can_happen h (ended loader answer) = any (λ l. l == loader) h.flights
can_happen h unmount = h.is_mounted
can_happen h _ = true

unfoldable pub handle : Hook → Event → Hook
handle h (pass loader) = begin (record h { loader = loader }) true
handle h reload = begin h true
handle h refresh = begin h false
handle h (set_data text) = record h { shown = some text }
handle h (ended loader answer) = finish h loader answer
handle h unmount = record h { is_mounted = false }

-- The hook after its first effects.
unfoldable pub mount : ℕ → Hook
unfolding begin
mount loader =
    begin
      (record {
        shown = none;
        loading = true;
        error = none;
        is_mounted = true;
        loader = loader;
        flights = [];
      })
      true

pub data Reached : Hook → Type 0 where
  mounted : (loader : ℕ) → Reached (mount loader)
  handled :
      (h : Hook) (event : Event) → Reached h → can_happen h event ≡ true → Reached (handle h event)
