-- ===== src/VirtualMachines/Protected.antt =====
-- The job that web/src/pages/VirtualMachinesPage.tsx finds for a machine.
use prox_back.Prelude.{
  ◌≡◌, refl, ◌⊎◌, inl, inr, Bool, true, false, List, [], ◌∷◌, none, some, ◌&&◌, find?, keep, All,
  Among, member_of_kept, Bool-cases,
}
use prox_back.Api.Tags.{Guest}
use prox_back.JobWizard.Form.{Job}
use prox_back.VirtualMachines.{covers, or_job, first_job, job_for_vm}

module _ {A : Type 0} (p : A → Bool) where
  find?-cases :
      (xs : List A)
      → ((find? p xs ≡ none) × All (λ x. p x ≡ false) xs)
        ⊎ ((x : A) × (find? p xs ≡ some x) × Among x xs × (p x ≡ true))
  find?-cases [] = inl (refl, tt)
  find?-cases (x ∷ xs) = elim (Bool-cases (p x)) [
    | inl e ↦ rw e (inr (x, refl, inl refl, e))
    | inr e ↦ rw e (later e (find?-cases xs))
  ]
    where
      later :
          p x ≡ false
          → ((find? p xs ≡ none) × All (λ x. p x ≡ false) xs)
            ⊎ ((y : A) × (find? p xs ≡ some y) × Among y xs × (p y ≡ true))
          → ((find? p xs ≡ none) × ((false ≡ false) × All (λ x. p x ≡ false) xs))
            ⊎ ((y : A) × (find? p xs ≡ some y) × ((y ≡ x) ⊎ Among y xs) × (p y ≡ true))
      later e (inl (n, h)) = inl (n, (refl, h))
      later e (inr (y, f, there, h)) = inr (y, f, inr there, h)

-- The page finds a job for a machine if one covers it, by its tag or among its sources, and none
-- otherwise; the job that it finds is one of the jobs, covers the machine, and is enabled unless no
-- job that covers the machine is.
pub job_for_vm-covers :
    (jobs : List Job) (guest : Guest)
    → ((job_for_vm jobs guest ≡ none) × All (λ job. covers guest job ≡ false) jobs)
      ⊎ ((job : Job) × (job_for_vm jobs guest ≡ some job)
          × Among job jobs
          × (covers guest job ≡ true)
          × ((job.enabled ≡ true) ⊎ All (λ j. (covers guest j && j.enabled) ≡ false) jobs))
unfolding job_for_vm or_job first_job
job_for_vm-covers jobs guest = elim (find?-cases (λ job. job.enabled) (keep (covers guest) jobs)) [
  | inl (n, off) ↦ rw n (disabled (keep (covers guest) jobs) refl off)
  | inr (job, e, there, on) ↦
      let (listed, c) = member_of_kept (covers guest) job jobs there in
      rw e (inr (job, refl, listed, c, inl on))
]
  where
    none_covers :
        (jobs : List Job)
        → keep (covers guest) jobs ≡ []
        → All (λ job. covers guest job ≡ false) jobs
    none_covers [] e = tt
    none_covers (job ∷ jobs) e = elim (Bool-cases (covers guest job)) [
      | inl c ↦ absurd (let k : (job ∷ keep (covers guest) jobs) ≡ [] = rw c at e in cc)
      | inr c ↦ (c, none_covers jobs (rw c at e))
    ]

    none_enabled :
        (jobs : List Job)
        → All (λ job. job.enabled ≡ false) (keep (covers guest) jobs)
        → All (λ job. (covers guest job && job.enabled) ≡ false) jobs
    none_enabled [] h = tt
    none_enabled (job ∷ jobs) h = elim (Bool-cases (covers guest job)) [
      | inl c ↦
          let k : All (λ j. j.enabled ≡ false) (job ∷ keep (covers guest) jobs) = rw c at h in
          rw c (k.0, none_enabled jobs k.1)
      | inr c ↦ rw c (refl, none_enabled jobs (rw c at h))
    ]

    disabled :
        (matches : List Job)
        → keep (covers guest) jobs ≡ matches
        → All (λ job. job.enabled ≡ false) matches
        → ((first_job matches ≡ none) × All (λ job. covers guest job ≡ false) jobs)
          ⊎ ((job : Job) × (first_job matches ≡ some job)
              × Among job jobs
              × (covers guest job ≡ true)
              × ((job.enabled ≡ true) ⊎ All (λ j. (covers guest j && j.enabled) ≡ false) jobs))
    disabled [] e off = inl (refl, none_covers jobs e)
    disabled (job ∷ rest) e off =
        let there : Among job (keep (covers guest) jobs) = rw e (inl refl) in
        let (listed, c) = member_of_kept (covers guest) job jobs there in
        let off_here : All (λ j. j.enabled ≡ false) (keep (covers guest) jobs) = rw e off in
        inr (job, refl, listed, c, inr (none_enabled jobs off_here))
