-- ===== src/Dashboard/Next.antt =====
-- The next run on web/src/pages/DashboardPage.tsx.
use prox_back.Prelude.{
  ℕ, ◌≤◌, ◌≡◌, refl, subst, ◌⊎◌, inl, inr, Bool, true, false, List, [], ◌∷◌, none, some, ltb, keep,
  All, All_of_Among, All-Among, Among, member_of_kept, Bool-cases, arith,
}
use prox_back.Js.Text.{Text}
use prox_back.Js.Order.{sort_by}
use prox_back.Js.Order.Kept.{Among-sort_by, All-sort_by}
use prox_back.Js.Order.Weighted.{Weighted, sort_by-Weighted}
use prox_back.Dashboard.{Job, has_next, next_text, first_of, next_run}

-- The page names the next run exactly if a job is enabled and has one, and then a job of the list
-- that is enabled and has one, and no such job runs earlier.
pub next_run-earliest :
    (get_time : Text → ℕ) (jobs : List Job)
    → ((next_run get_time jobs ≡ none) × All (λ job. has_next job ≡ false) jobs)
      ⊎ ((job : Job) × (next_run get_time jobs ≡ some job)
          × Among job jobs
          × (has_next job ≡ true)
          × All
              (λ other. get_time (next_text job) ≤ get_time (next_text other))
              (keep has_next jobs))
unfolding next_run first_of
next_run-earliest get_time jobs =
    first sorted refl (λ other. Among-sort_by follows other (keep has_next jobs))
      (sort_by-Weighted weight follows heavier lighter (keep has_next jobs))
  where
    weight : Job → ℕ
    weight job = get_time (next_text job)

    follows : Job → Job → Bool
    follows a b = ltb (weight b) (weight a)

    sorted : List Job
    sorted = sort_by follows (keep has_next jobs)

    heavier : (a b : Job) → follows a b ≡ true → weight b ≤ weight a
    heavier a b e = ground arith

    lighter : (a b : Job) → follows a b ≡ false → weight a ≤ weight b
    lighter a b e = ground arith

    off :
        (js : List Job)
        → ((other : Job) → Among other (keep has_next js) → ⊥)
        → All (λ job. has_next job ≡ false) js
    off [] h = tt
    off (j ∷ js) h = elim (Bool-cases (has_next j)) [
      | inl e ↦ absurd (h j (rw e (inl refl)))
      | inr e ↦ (e, off js (λ other k. h other (rw e k)))
    ]

    origin : (job : Job) (js : List Job) → sorted ≡ job ∷ js → Among job (keep has_next jobs)
    origin job js e =
        let all : All (λ x. Among x (keep has_next jobs)) (job ∷ js) =
          subst (All (λ x. Among x (keep has_next jobs))) e (
            All-sort_by follows (λ x. Among x (keep has_next jobs)) (keep has_next jobs)
              (All-Among (keep has_next jobs))) in
        all.0

    below :
        (job : Job) (js : List Job)
        → ((other : Job) → Among other (keep has_next jobs) → Among other (job ∷ js))
        → Weighted weight (job ∷ js)
        → (others : List Job) → ((o : Job) → Among o others → Among o (keep has_next jobs))
        → All (λ other. weight job ≤ weight other) others
    below job js there w [] sub = tt
    below job js there w (o ∷ os) sub =
        (at (there o (sub o (inl refl))), below job js there w os (λ q k. sub q (inr k)))
      where
        at : Among o (job ∷ js) → weight job ≤ weight o
        at (inl e) = rw e (omega arith)
        at (inr k) = All_of_Among (λ y. weight job ≤ weight y) o js w.0 k

    first :
        (s : List Job)
        → sorted ≡ s
        → ((other : Job) → Among other (keep has_next jobs) → Among other s)
        → Weighted weight s
        → ((first_of s ≡ none) × All (λ job. has_next job ≡ false) jobs)
          ⊎ ((job : Job) × (first_of s ≡ some job)
              × Among job jobs
              × (has_next job ≡ true)
              × All (λ other. weight job ≤ weight other) (keep has_next jobs))
    first [] e there w = inl (refl, off jobs there)
    first (job ∷ js) e there w =
        let (listed, on) = member_of_kept has_next job jobs (origin job js e) in
        inr (job, refl, listed, on, below job js there w (keep has_next jobs) (λ o k. k))
