-- ===== src/RestoreWizard/Reset.antt =====
-- The effect of web/src/components/RestoreWizard.tsx on a change of the mode, and late answers.
use prox_back.Prelude.{
  ℕ, ◌<◌, ◌≡◌, refl, ◌∙◌, ap, both_of_and, Bool, true, false, [], ◌∷◌, ◌||◌, is_empty, arith,
  Bool-cases, inl, inr,
}
use prox_back.Js.Text.{Text, same_text, print_nat}
use prox_back.RestoreWizard.Destination.{
  RestoreMode, alongside, overwrite, Props, Form, is_vm, is_overwrite_mode,
}
use prox_back.RestoreWizard.Steps.{
  Wizard, home_vmid, reset_form, suggest, aim, stale_aim, open_wizard, submission, Submission,
  shows, posts, submitted, Event, choose_mode, choose_host, type_node, type_vmid, type_storage,
  type_confirm, choose_agent, type_path, press_suggest, suggested, no_suggestion, back, go_on,
  submit, refused, step_name, is_offered, same_mode, handle, Reached, opened, handled,
}

-- An overwrite, or no text in the field of the confirmation.
abbrev clear : Form → Bool
clear form = is_overwrite_mode form.mode || is_empty form.confirm_name

suggest-clear : (w : Wizard) → clear (suggest w).form ≡ clear w.form
unfolding suggest
suggest-clear w = ground arith

aim-clear : (props : Props) (w : Wizard) → is_vm props ≡ true → clear (aim props w).form ≡ true
unfolding aim
aim-clear props w vm = elim (Bool-cases (is_overwrite_mode w.form.mode)) [
  | inl e ↦ rw (vm, e) (rw e refl)
  | inr e ↦
      rw (vm, e)
        (suggest-clear (record w { form = record w.form { confirm_name = [] } }) ∙ rw e refl)
]

aim-kept : (props : Props) (w : Wizard) → clear w.form ≡ true → clear (aim props w).form ≡ true
aim-kept props w h = elim (Bool-cases (is_vm props)) [
  | inl e ↦ aim-clear props w e
  | inr e ↦ (unfold aim in rw e h)
]

open_wizard-alongside :
    (props : Props) (old : Wizard)
    → ((open_wizard props old).form.mode ≡ alongside)
      × ((open_wizard props old).form.confirm_name ≡ [])
unfolding open_wizard aim stale_aim suggest reset_form
open_wizard-alongside props old = ground arith

choose_mode-vm :
    (props : Props) (w : Wizard) (m : RestoreMode)
    → is_offered props w (choose_mode m) ≡ true
    → is_vm props ≡ true
unfolding is_offered step_name
choose_mode-vm props w m o = ground arith

type_confirm-overwrite :
    (props : Props) (w : Wizard) (text : Text)
    → is_offered props w (type_confirm text) ≡ true
    → is_overwrite_mode w.form.mode ≡ true
unfolding is_offered
type_confirm-overwrite props w text o =
    let (here, over) = both_of_and _ _ o in let (vm, mode) = both_of_and _ _ over in mode

submitted-form : (w : Wizard) (s : Submission) → (submitted w s).form ≡ w.form
unfolding submitted
submitted-form w (posts request) = refl
submitted-form w (shows message) = refl

handle-clear :
    (props : Props) (w : Wizard) (event : Event)
    → is_offered props w event ≡ true
    → clear w.form ≡ true
    → clear (handle props w event).form ≡ true
unfolding handle
handle-clear props w (choose_mode m) o h = elim (Bool-cases (same_mode w.form.mode m)) [
  | inl e ↦ rw e h
  | inr e ↦ rw e (
      aim-clear props (record w { form = record w.form { mode = m } }) (choose_mode-vm props w m o))
]
handle-clear props w (choose_host id) o h = elim (Bool-cases (same_text w.form.host_id id)) [
  | inl e ↦ rw e h
  | inr e ↦ rw e (aim-kept props (record w { form = record w.form { host_id = id } }) h)
]
handle-clear props w (type_confirm text) o h = rw (type_confirm-overwrite props w text o) refl
handle-clear props w press_suggest o h = suggest-clear w ∙ h
handle-clear props w submit o h = ap clear (submitted-form w (submission props w.form)) ∙ h
handle-clear props w (type_node text) o h = h
handle-clear props w (type_vmid text) o h = h
handle-clear props w (type_storage text) o h = h
handle-clear props w (choose_agent id) o h = h
handle-clear props w (type_path text) o h = h
handle-clear props w (suggested vmid) o h = h
handle-clear props w (no_suggestion message) o h = h
handle-clear props w back o h = h
handle-clear props w go_on o h = h
handle-clear props w (refused message) o h = h

Reached-clear : (props : Props) (w : Wizard) → Reached props w → clear w.form ≡ true
Reached-clear props _ (opened old) =
    let (mode, typed) = open_wizard-alongside props old in rw (mode, typed) refl
Reached-clear props _ (handled w event r o) = handle-clear props w event o (Reached-clear props w r)

-- A restore point opens in `alongside` mode, whatever was shown before; and whenever the wizard is in
-- that mode, the field of the confirmation is empty: a name that was typed for an overwrite does not
-- outlive the mode.
pub Reached-unconfirmed :
    (props : Props) (w old : Wizard)
    → Reached props w
    → is_overwrite_mode w.form.mode ≡ false
    → (w.form.confirm_name ≡ []) × ((open_wizard props old).form.mode ≡ alongside)
Reached-unconfirmed props w old r m =
    let c = Reached-clear props w r in
    (nil_of w.form.confirm_name (rw m at c), (open_wizard-alongside props old).0)
  where
    nil_of : (t : Text) → is_empty t ≡ true → t ≡ []
    nil_of [] h = refl
    nil_of (c ∷ t) h = cc

-- An answer to a request for a free VMID that was made in `alongside` mode is taken whatever the mode
-- is by then: after the operator has chosen to overwrite, it replaces the VMID of the machine that
-- the restore point came from, and leaves the mode at `overwrite`.
pub suggested-overwrite :
    (props : Props) (w : Wizard) (vmid : ℕ)
    → is_vm props ≡ true
    → is_overwrite_mode w.form.mode ≡ false
    → 0 < w.asked
    → (is_offered props (handle props w (choose_mode overwrite)) (suggested vmid) ≡ true)
      × ((handle props w (choose_mode overwrite)).form.vmid ≡ home_vmid props)
      × ((handle props (handle props w (choose_mode overwrite)) (suggested vmid)).form.mode
          ≡ overwrite)
      × ((handle props (handle props w (choose_mode overwrite)) (suggested vmid)).form.vmid
          ≡ print_nat vmid)
unfolding handle aim is_offered same_mode
suggested-overwrite props w vmid vm m lt = ground arith
