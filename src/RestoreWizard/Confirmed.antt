-- ===== src/RestoreWizard/Confirmed.antt =====
-- The request that web/src/components/RestoreWizard.tsx posts.
use prox_back.Prelude.{
  ℕ, zero, suc, ◌≤◌, ◌≡◌, refl, ◌≢◌, ◌⊎◌, inl, inr, ◌∙◌, sym, ap, Bool, true, false, not, List, [],
  ◌∷◌, ◌==◌, Option, none, some, ◌&&◌, ◌||◌, ℤ, pos, negsuc, is_empty, arith, both_of_and,
  Bool-cases, if◌then◌else◌,
}
use prox_back.Js.Text.{Text, same_text, trim}
use prox_back.Js.Text.Equality.{eq_of_same_text, same_text_refl}
use prox_back.Api.Inventory.{CachedVm}
use prox_back.RestoreWizard.Destination.{
  RestoreMode, alongside, overwrite, Props, Form, is_vm, machine_at, destination_vm, integer_of,
  expected_name, name_of, confirm_satisfied, positive, vmid_of, is_some, destination_valid,
  is_overwrite_mode,
}
use prox_back.RestoreWizard.Steps.{
  VmTarget, Target, to_vm, to_agent, RestoreRequest, Submission, posts, submission, vm_request,
  agent_request, Wizard, submit, is_offered, step_valid, step_name, StepName, is_mode, is_review,
}

-- The name is that of the first machine of the list with that VMID on that host, if there is one and it
-- has a name.
abbrev pub IsNameAt : List CachedVm → VmTarget → Text → Type 0
IsNameAt [] t name = Unit
IsNameAt (v ∷ vs) t name =
    (((v.host_id ≡ t.host_id) × (v.vmid ≡ t.vmid)) × ((v.name ≡ []) ⊎ (name ≡ v.name)))
    ⊎ (¬ ((v.host_id ≡ t.host_id) × (v.vmid ≡ t.vmid)) × IsNameAt vs t name)

-- The typed name of an overwrite: that of the field, not blank, and the one in the cached inventory.
pub record IsName (props : Props) (form : Form) (t : VmTarget) (posted : Option Text) : Type 0 where
  pub is_typed : posted ≡ some (trim form.confirm_name)
  pub not_blank : trim form.confirm_name ≢ []
  pub matches : IsNameAt props.vms t (trim form.confirm_name)

pub record IsAimed (props : Props) (form : Form) (mode : RestoreMode) (posted : Option Text)
    (t : VmTarget) : Type 0 where
  pub is_host : t.host_id ≡ form.host_id
  pub is_node : t.node ≡ trim form.node
  pub is_number : integer_of form.vmid ≡ some (pos t.vmid)
  pub is_mode : mode ≡ form.mode
  pub has_host : t.host_id ≢ []
  pub has_node : t.node ≢ []
  pub has_vmid : 1 ≤ t.vmid
  pub is_confirmed :
      ((mode ≡ alongside) × (posted ≡ none)) ⊎ ((mode ≡ overwrite) × IsName props form t posted)

-- A request that may be posted.
abbrev pub IsConfirmed : Props → Form → RestoreMode → Option Text → Target → Type 0
IsConfirmed props form mode posted (to_vm t) = IsAimed props form mode posted t
IsConfirmed props form mode posted (to_agent t) =
    (mode ≡ alongside)
    × ((t.agent_id ≡ form.agent_id) × (t.dest_path ≡ trim form.dest_path))
    × ((t.agent_id ≢ []) × (t.dest_path ≢ []))

ne_nil : (t : Text) → not (is_empty t) ≡ true → t ≢ []
ne_nil [] h = cc
ne_nil (c ∷ t) h = λ e. cc

nil_of : (t : Text) → is_empty t ≡ true → t ≡ []
nil_of [] h = refl
nil_of (c ∷ t) h = cc

some_of : (z : Option ℕ) → is_some z ≡ true → (n : ℕ) × (z ≡ some n)
some_of none h = cc
some_of (some n) h = (n, refl)

positive_inv : (z : Option ℤ) (n : ℕ) → positive z ≡ some n → (z ≡ some (pos n)) × (1 ≤ n)
positive_inv none n h = cc
positive_inv (some (pos zero)) n h = cc
positive_inv (some (pos (suc k))) n h = ground arith
positive_inv (some (negsuc k)) n h = cc

-- The name that the wizard compares with is the recorded one of the machine that is posted.
expected_name_lem :
    (props : Props) (form : Form) (n : ℕ)
    → is_vm props ≡ true
    → vmid_of form.vmid ≡ some n
    → expected_name props form ≡ name_of (machine_at props.vms form.host_id (pos n))
unfolding expected_name destination_vm vmid_of
expected_name_lem props form n vm e =
    let (z, one) = positive_inv (integer_of form.vmid) n e in rw (vm, z) refl

same_number : (n : ℕ) → (n == n) ≡ true
same_number n = ground arith

both_clash : (a b : Bool) → a ≡ true → b ≡ true → (a && b) ≡ false → ⊥
both_clash a b p q r = absurd (ground arith)

number_of_vmid :
    (form : Form) (n : ℕ)
    → vmid_of form.vmid ≡ some n
    → (integer_of form.vmid ≡ some (pos n)) × (1 ≤ n)
unfolding vmid_of
number_of_vmid form n e = positive_inv (integer_of form.vmid) n e

-- What the code finds is the first machine with that VMID on that host.
IsNameAt-machine_at :
    (vms : List CachedVm) (t : VmTarget) (name : Text)
    → (name_of (machine_at vms t.host_id (pos t.vmid)) ≡ [])
      ⊎ (name ≡ name_of (machine_at vms t.host_id (pos t.vmid)))
    → IsNameAt vms t name
unfolding machine_at
IsNameAt-machine_at [] t name h = tt
IsNameAt-machine_at (v ∷ vs) t name h =
    elim (Bool-cases (same_text v.host_id t.host_id && (t.vmid == v.vmid))) [
      | inl e ↦
          let (host, number) = both_of_and _ _ e in
          inl ((eq_of_same_text v.host_id t.host_id host, ground arith), rw e at h)
      | inr e ↦ inr (other e, IsNameAt-machine_at vs t name (rw e at h))
    ]
  where
    other :
        (same_text v.host_id t.host_id && (t.vmid == v.vmid)) ≡ false
        → ¬ ((v.host_id ≡ t.host_id) × (v.vmid ≡ t.vmid))
    other e k =
        let host : same_text v.host_id t.host_id ≡ true = rw k.0 (same_text_refl t.host_id) in
        let number : (t.vmid == v.vmid) ≡ true = rw k.1 (same_number t.vmid) in
        both_clash _ _ host number e

or_not : (a b c : Bool) → a ≡ true → b ≡ true → (not (a && b) || c) ≡ true → c ≡ true
or_not a b c p q h = ground arith

module _ (props : Props) (form : Form) where
  confirmed_mode :
      (t : VmTarget)
      → is_vm props ≡ true
      → expected_name props form ≡ name_of (machine_at props.vms t.host_id (pos t.vmid))
      → confirm_satisfied props form ≡ true
      → (mode : RestoreMode) → mode ≡ form.mode
      → ((mode ≡ alongside)
          × ((if is_overwrite_mode mode then some (trim form.confirm_name) else none) ≡ none))
        ⊎ ((mode ≡ overwrite)
            × IsName props form t
                (if is_overwrite_mode mode then some (trim form.confirm_name) else none))
  confirmed_mode t vm name c alongside same = inl (refl, refl)
  confirmed_mode t vm name c overwrite same =
      let typed : (not (is_empty (trim form.confirm_name))
            && (is_empty (expected_name props form)
                || same_text (trim form.confirm_name) (expected_name props form)))
          ≡ true =
        or_not _ _ _ vm (ap is_overwrite_mode (sym same)) (unfold confirm_satisfied in c) in
      let (ink, alike) = both_of_and _ _ typed in
      inr (
        refl,
        record {
          is_typed = refl;
          not_blank = ne_nil (trim form.confirm_name) ink;
          matches = IsNameAt-machine_at props.vms t (trim form.confirm_name) (matches alike);
        },
      )
    where
      matches :
          (is_empty (expected_name props form)
              || same_text (trim form.confirm_name) (expected_name props form))
            ≡ true
          → (name_of (machine_at props.vms t.host_id (pos t.vmid)) ≡ [])
            ⊎ (trim form.confirm_name ≡ name_of (machine_at props.vms t.host_id (pos t.vmid)))
      matches alike = elim (Bool-cases (is_empty (expected_name props form))) [
        | inl e ↦ inl (sym name ∙ nil_of (expected_name props form) e)
        | inr e ↦ inr (eq_of_same_text _ _ (rw e at alike) ∙ name)
      ]

  vm_submission :
      is_vm props ≡ true
      → destination_valid props form ≡ true
      → confirm_satisfied props form ≡ true
      → (r : RestoreRequest) × (submission props form ≡ posts r)
        × IsConfirmed props form r.mode r.confirm_name r.target
  unfolding submission vm_request agent_request
  vm_submission vm d c =
      let valid : (not (is_empty form.host_id)
            && (not (is_empty (trim form.node)) && is_some (vmid_of form.vmid)))
          ≡ true =
        unfold destination_valid in rw vm at d in
      let (hosted, rest) = both_of_and _ _ valid in
      let (noded, numbered) = both_of_and _ _ rest in
      let (n, e) = some_of (vmid_of form.vmid) numbered in
      (
        vm_request props form n,
        rw (d, c, vm, e) (choice _ _ (is_overwrite_mode form.mode)),
        record {
          is_host = refl;
          is_node = refl;
          is_number = (number_of_vmid form n e).0;
          is_mode = refl;
          has_host = ne_nil form.host_id hosted;
          has_node = ne_nil (trim form.node) noded;
          has_vmid = (number_of_vmid form n e).1;
          is_confirmed = confirmed_mode _ vm (expected_name_lem props form n vm e) c form.mode refl;
        },
      )
    where
      choice : (x y : Submission) (b : Bool) → (if b && false then x else y) ≡ y
      choice x y b = ground arith

  agent_submission :
      is_vm props ≡ false
      → destination_valid props form ≡ true
      → (r : RestoreRequest) × (submission props form ≡ posts r)
        × IsConfirmed props form r.mode r.confirm_name r.target
  unfolding submission vm_request agent_request
  agent_submission agent d =
      let valid : (not (is_empty form.agent_id) && not (is_empty (trim form.dest_path))) ≡ true =
        unfold destination_valid in rw agent at d in
      let (known, placed) = both_of_and _ _ valid in
      (
        agent_request props form,
        rw (d, agent) refl,
        (refl, (refl, refl), (ne_nil form.agent_id known, ne_nil (trim form.dest_path) placed)),
      )

offered_submit :
    (props : Props) (w : Wizard)
    → is_offered props w submit ≡ true
    → (destination_valid props w.form ≡ true) × (confirm_satisfied props w.form ≡ true)
unfolding is_offered step_valid
offered_submit props w h =
    split (step_name props w.step) (destination_valid props w.form) (confirm_satisfied props w.form)
      h
  where
    split :
        (name : StepName) (d c : Bool)
        → (is_review name && ((is_mode name || (d && c)) && not w.submitting)) ≡ true
        → (d ≡ true) × (c ≡ true)
    split name d c k = ground arith

-- When the button that starts the restore is enabled, a request is posted. For a VM it names the host,
-- the trimmed node and the VMID of the fields, none of them empty and the VMID positive, and has the
-- mode of the form: it carries no name in `alongside` mode, and in `overwrite` mode the trimmed text of
-- the confirmation field, which is not blank and is the name of the first machine of the cached
-- inventory with that VMID on that host, if there is one and it has a name. For an agent it is in
-- `alongside` mode, with the chosen agent and the trimmed path, neither of them empty.
pub submission-IsConfirmed :
    (props : Props) (w : Wizard)
    → is_offered props w submit ≡ true
    → (r : RestoreRequest) × (submission props w.form ≡ posts r)
      × IsConfirmed props w.form r.mode r.confirm_name r.target
submission-IsConfirmed props w h =
    let (d, c) = offered_submit props w h in
    elim (Bool-cases (is_vm props)) [
      | inl vm ↦ vm_submission props w.form vm d c
      | inr agent ↦ agent_submission props w.form agent d
    ]
