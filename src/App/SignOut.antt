-- ===== src/App/SignOut.antt =====
-- Signing out in web/src/App.tsx while the call of `getMe` after the sign-in is under way.
use prox_back.Prelude.{◌≡◌, true, false, ltb, arith}
use prox_back.Js.Value.{Value}
use prox_back.App.{
  login, ready, given, ready_of, Gate, set_phase, refreshed, sign_out, signed_out, can_happen,
  handle,
}

-- A sign-out does not cancel the call of `getMe` that a sign-in began: if that call gives its answer
-- after the operator is signed out and sees the login page, the session is shown again.
pub signed_out-revived :
    (g : Gate) (me : Value)
    → can_happen g sign_out ≡ true
    → ltb 0 g.refreshes ≡ true
    → (can_happen (handle g sign_out) signed_out ≡ true)
      × ((handle (handle g sign_out) signed_out).phase ≡ login false)
      × (can_happen (handle (handle g sign_out) signed_out) (refreshed (given me)) ≡ true)
      × ((handle (handle (handle g sign_out) signed_out) (refreshed (given me))).phase
          ≡ ready (ready_of me))
unfolding handle set_phase can_happen
signed_out-revived g me h k = ground arith
