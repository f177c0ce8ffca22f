-- ===== src/JobWizard/Complete.antt =====
-- The body that web/src/components/JobWizard.tsx posts.
use prox_back.Prelude.{
  ℕ, zero, suc, ◌+◌, ◌<◌, ◌≤◌, ◌≡◌, refl, ◌≢◌, ◌⊎◌, inl, inr, ◌∙◌, true, not, List, [], ◌∷◌, Option,
  some, ◌&&◌, min, leb, ℕ_discrete, is_empty, map, arith, both_of_and,
}
use prox_back.Js.Text.{Text, trim}
use prox_back.Api.Policy.Highlights.{JobKind, vm, agent}
use prox_back.Api.Retention.{retention_rule_count}
use prox_back.ScheduleEditor.{is_schedule_complete}
use prox_back.Api.Inventory.{CachedVm}
use prox_back.JobWizard.Form.{
  JobSources, vms, one_agent, SourceMode, WizardState, step_valid, has_sources,
}
use prox_back.JobWizard.Steps.{
  Edit, step_of, edit, Wizard, JobCreate, job_source, payload_of, Event, change, back, go_on,
  submit, refused, is_offered, handle, open_wizard, Reached, opened, handled,
}

-- A control of one step leaves the other steps as valid as they were.
step_valid-edit :
    (draft : Text) (s : WizardState) (e : Edit) (i : ℕ)
    → i ≢ step_of e
    → step_valid i (edit draft s e) ≡ step_valid i s
unfolding step_valid edit
step_valid-edit draft s e zero ne = ground arith
step_valid-edit draft s e (suc zero) ne = ground arith
step_valid-edit draft s e (suc (suc zero)) ne = ground arith
step_valid-edit draft s e (suc (suc (suc zero))) ne = ground arith
step_valid-edit draft s e (suc (suc (suc (suc i)))) ne = refl

-- The steps before the one that is shown are valid.
record Passed (w : Wizard) : Type 0 where
  pub within : w.step ≤ 5
  pub valid : (i : ℕ) → i < w.step → step_valid i w.state ≡ true

offered_step : (w : Wizard) (e : Edit) → is_offered w (change e) ≡ true → step_of e ≡ w.step
unfolding is_offered
offered_step w e h = ground arith

handle-Passed : (w : Wizard) (e : Event) → is_offered w e ≡ true → Passed w → Passed (handle w e)
unfolding handle
handle-Passed w (change e) o p = record {
  within = p.within;
  valid = λ i lt.
      step_valid-edit w.path_draft w.state e i (λ same. let h = offered_step w e o in omega arith)
      ∙ p.valid i lt;
}
handle-Passed w back o p = record {
  within = omega (arith, p.within);
  valid = λ i lt. p.valid i (omega arith);
}
handle-Passed w go_on o p = record { within = omega arith; valid = valid }
  where
    passes : step_valid w.step w.state ≡ true
    passes = unfold is_offered in ground arith

    valid : (i : ℕ) → i < min 5 (w.step + 1) → step_valid i w.state ≡ true
    valid i lt = elim (ℕ_discrete i w.step) [
      | yes same ↦ rw same passes
      | no other ↦ p.valid i (omega arith)
    ]
handle-Passed w submit o p = record { within = p.within; valid = p.valid }
handle-Passed w (refused message) o p = record { within = p.within; valid = p.valid }

Reached-Passed : (w : Wizard) → Reached w → Passed w
unfolding open_wizard
Reached-Passed _ (opened submitting job initial inventory) = record {
  within = omega arith;
  valid = λ i lt. absurd (omega arith);
}
Reached-Passed _ (handled w e r o) = handle-Passed w e o (Reached-Passed w r)

-- A body has sources if it names VMs or a tag, or an agent and paths.
abbrev pub HasSources : JobSources → Option Text → Type 0
HasSources (vms sources) tag = (sources ≢ []) ⊎ ((t : Text) × (tag ≡ some t) × (t ≢ []))
HasSources (one_agent source) tag = (source.agent_id ≢ []) × (source.paths ≢ [])
HasSources _ tag = ⊥

-- What the server needs of a job.
pub record IsComplete (p : JobCreate) : Type 0 where
  pub named : p.name ≢ []
  pub targeted : p.target_id ≢ []
  pub scheduled : is_schedule_complete p.schedule ≡ true
  pub retained : 1 ≤ retention_rule_count p.retention
  pub sourced : HasSources p.sources p.tag_filter

ne_nil : {A : Type 0} → (xs : List A) → not (is_empty xs) ≡ true → xs ≢ []
ne_nil [] h = cc
ne_nil (x ∷ xs) h = λ e. cc

map_ne_nil : (vs : List CachedVm) → not (is_empty vs) ≡ true → map job_source vs ≢ []
map_ne_nil [] h = cc
map_ne_nil (v ∷ vs) h = λ e. cc

payload-HasSources :
    (s : WizardState) (kind : JobKind)
    → has_sources kind s ≡ true
    → HasSources
        (payload_of (record s { kind = kind })).sources
        (payload_of (record s { kind = kind })).tag_filter
unfolding payload_of
payload-HasSources s agent h =
    let (a, b) = both_of_and _ _ h in (ne_nil s.agent_id a, ne_nil s.paths b)
payload-HasSources s vm h = by_mode s.source_mode h
  where
    by_mode :
        (mode : SourceMode)
        → has_sources vm (record s { source_mode = mode }) ≡ true
        → HasSources
            (payload_of (record s { kind = vm; source_mode = mode })).sources
            (payload_of (record s { kind = vm; source_mode = mode })).tag_filter
    by_mode SourceMode.manual h = inl (map_ne_nil s.selected_vms h)
    by_mode SourceMode.tag h = inr (s.tag_filter, refl, ne_nil s.tag_filter h)

-- However the operator moves through the wizard and changes what it holds, for a new job or an
-- existing one: when the button that submits is enabled, the body that it posts has a name that is
-- not blank, a target, a schedule complete enough to save, at least one retention rule, and either
-- VMs, a tag, or an agent with paths.
pub payload-IsComplete :
    (w : Wizard) → Reached w → is_offered w submit ≡ true → IsComplete (payload_of w.state)
unfolding payload_of
payload-IsComplete w r o =
    let p = Reached-Passed w r in
    let at : w.step ≡ 5 = last_step in
    let first : (not (is_empty (trim w.state.name)) && has_sources w.state.kind w.state) ≡ true =
      unfold step_valid in p.valid 0 (omega arith) in
    let (named, sources) = both_of_and _ _ first in
    record {
      named = ne_nil (trim w.state.name) named;
      targeted = ne_nil w.state.target_id targeted;
      scheduled = unfold step_valid in p.valid 2 (omega arith);
      retained = enough;
      sourced = payload-HasSources w.state w.state.kind sources;
    }
  where
    last_step : w.step ≡ 5
    last_step = unfold is_offered in ground arith

    targeted : not (is_empty w.state.target_id) ≡ true
    targeted = unfold step_valid in (Reached-Passed w r).valid 1 (let at = last_step in omega arith)

    enough : 1 ≤ retention_rule_count w.state.retention
    enough =
        let p = Reached-Passed w r in
        let h : leb 1 (retention_rule_count w.state.retention) ≡ true =
          unfold step_valid in p.valid 3 (let at = last_step in omega arith) in
        ground arith
