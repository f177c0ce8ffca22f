-- ===== src/Monitor/Shown.antt =====
-- The runs that web/src/pages/MonitorPage.tsx lists below the ones in flight.
use prox_back.Prelude.{
  ◌≡◌, ◌≢◌, refl, sym, ap, ◌∙◌, ◌↔◌, ◌⊎◌, inl, inr, Bool, true, false, not, List, [], ◌∷◌, ◌||◌,
  Option, none, some, keep, All, Among, Among-keep, member_of_kept, Bool-cases, Option-cases,
  All_of_Among, arith,
}
use prox_back.Js.Text.{Text, same_text}
use prox_back.Js.Text.Equality.{eq_of_same_text, same_text_refl}
use prox_back.Monitor.{is_running, JobRun, RunDetail, details_of, live_of, has_detail, history}

-- No two runs of the list have one ID.
abbrev pub HaveOwnIds : List JobRun → Type 0
HaveOwnIds [] = Unit
HaveOwnIds (run ∷ runs) = All (λ other. same_text other.id run.id ≡ false) runs × HaveOwnIds runs

has_detail-details_of :
    (get_run : Text → Option RunDetail)
    → ((id : Text) (d : RunDetail) → get_run id ≡ some d → d.id ≡ id)
    → (run : JobRun) (p : JobRun → Bool) (runs : List JobRun)
    → has_detail (details_of get_run (keep p runs)) run ≡ true
    → (other : JobRun) × Among other runs
      × (p other ≡ true)
      × (other.id ≡ run.id)
      × (get_run run.id ≢ none)
unfolding has_detail details_of
has_detail-details_of get_run named run p [] h = absurd cc
has_detail-details_of get_run named run p (r ∷ runs) h = elim (Bool-cases (p r)) [
  | inr off ↦ later (has_detail-details_of get_run named run p runs (rw off at h))
  | inl on ↦ elim (Option-cases (get_run r.id)) [
    | inl lost ↦
        later (has_detail-details_of get_run named run p runs (rw (on, lost, details_of) at h))
    | inr (d, found) ↦ elim (Bool-cases (same_text d.id run.id)) [
      | inl same ↦
          let k : r.id ≡ run.id = sym (named r.id d found) ∙ eq_of_same_text d.id run.id same in
          (r, inl refl, on, k, λ e. let f = ap get_run k in cc)
      | inr other ↦
          later (
            has_detail-details_of get_run named run p runs (rw (on, found, other, details_of) at h))
    ]
  ]
]
  where
    later :
        ((other : JobRun) × Among other runs
          × (p other ≡ true)
          × (other.id ≡ run.id)
          × (get_run run.id ≢ none))
        → (other : JobRun) × Among other (r ∷ runs)
          × (p other ≡ true)
          × (other.id ≡ run.id)
          × (get_run run.id ≢ none)
    later (o, there, on, same, h) = (o, inr there, on, same, h)

has_detail_of :
    (get_run : Text → Option RunDetail)
    → ((id : Text) (d : RunDetail) → get_run id ≡ some d → d.id ≡ id)
    → (run : JobRun) (p : JobRun → Bool) (runs : List JobRun) (d : RunDetail) → Among run runs
    → p run ≡ true
    → get_run run.id ≡ some d
    → has_detail (details_of get_run (keep p runs)) run ≡ true
unfolding has_detail details_of
has_detail_of get_run named run p [] d h on found = absurd h
has_detail_of get_run named run p (r ∷ runs) d (inl e) on found =
    let f : get_run r.id ≡ some d = (ap (λ x. get_run x.id) (sym e) ∙ found) in
    let o : p r ≡ true = (ap p (sym e) ∙ on) in
    let same : same_text d.id run.id ≡ true = rw (named run.id d found) (same_text_refl run.id) in
    rw (o, f, same, details_of) refl
has_detail_of get_run named run p (r ∷ runs) d (inr h) on found =
    let rest = has_detail_of get_run named run p runs d h on found in
    elim (Bool-cases (p r)) [
      | inr off ↦ rw off rest
      | inl o ↦ elim (Option-cases (get_run r.id)) [
        | inl lost ↦ rw (o, lost, details_of) rest
        | inr (e, f) ↦ rw (o, f, details_of) (or_true (same_text e.id run.id) _ rest)
      ]
    ]
  where
    or_true : (a b : Bool) → b ≡ true → (a || b) ≡ true
    or_true a b h = ground arith

own_id :
    (a b : JobRun) (runs : List JobRun)
    → HaveOwnIds runs
    → Among a runs
    → Among b runs
    → a.id ≡ b.id
    → a ≡ b
own_id a b [] h i j e = absurd i
own_id a b (r ∷ runs) h (inl i) (inl j) e = i ∙ sym j
own_id a b (r ∷ runs) h (inr i) (inr j) e = own_id a b runs h.1 i j e
own_id a b (r ∷ runs) h (inl i) (inr j) e = absurd (
    clash (ap (λ x. x.id) (sym i) ∙ e)
      (All_of_Among (λ o. same_text o.id r.id ≡ false) b runs h.0 j))
  where
    clash : r.id ≡ b.id → same_text b.id r.id ≡ false → ⊥
    clash k f = let t : same_text b.id r.id ≡ true = rw k (same_text_refl b.id) in cc
own_id a b (r ∷ runs) h (inr i) (inl j) e = absurd (
    clash (ap (λ x. x.id) (sym j) ∙ sym e)
      (All_of_Among (λ o. same_text o.id r.id ≡ false) a runs h.0 i))
  where
    clash : r.id ≡ a.id → same_text a.id r.id ≡ false → ⊥
    clash k f = let t : same_text a.id r.id ≡ true = rw k (same_text_refl a.id) in cc

-- Where the detail of a run has the run's ID and no two runs have one, a run of the list stands in the
-- history exactly if it is not running or its detail could not be read; all others have a card of
-- their own, so that none is shown twice and none is lost.
pub history-live_of :
    (get_run : Text → Option RunDetail) (runs : List JobRun) (run : JobRun)
    → ((id : Text) (d : RunDetail) → get_run id ≡ some d → d.id ≡ id)
    → HaveOwnIds runs
    → Among run runs
    → Among run (history runs (live_of get_run runs))
      ↔ ((is_running run.status ≡ false) ⊎ (get_run run.id ≡ none))
unfolding history live_of
history-live_of get_run runs run named own listed = (forth, back)
  where
    p : JobRun → Bool
    p r = is_running r.status

    live : List RunDetail
    live = details_of get_run (keep p runs)

    forth :
        Among run (history runs (live_of get_run runs)) → (p run ≡ false) ⊎ (get_run run.id ≡ none)
    forth h = elim (Bool-cases (p run)) [
      | inr off ↦ inl off
      | inl on ↦ elim (Option-cases (get_run run.id)) [
        | inl lost ↦ inr lost
        | inr (d, found) ↦
            let (there, hidden) = member_of_kept (λ r. not (has_detail live r)) run runs h in
            let shown : has_detail live run ≡ true =
              has_detail_of get_run named run p runs d listed on found in
            absurd (let k : not true ≡ true = rw shown at hidden in cc)
      ]
    ]

    unseen : (p run ≡ false) ⊎ (get_run run.id ≡ none) → has_detail live run ≡ true → ⊥
    unseen which t =
        let (other, there, on, same, found) = has_detail-details_of get_run named run p runs t in
        let k = own_id other run runs own there listed same in
        excluded which (ap p (sym k) ∙ on) found
      where
        excluded :
            (p run ≡ false) ⊎ (get_run run.id ≡ none) → p run ≡ true → (get_run run.id ≢ none) → ⊥
        excluded (inl off) on found = cc
        excluded (inr lost) on found = found lost

    back :
        (p run ≡ false) ⊎ (get_run run.id ≡ none) → Among run (history runs (live_of get_run runs))
    back which = elim (Bool-cases (has_detail live run)) [
      | inl t ↦ absurd (unseen which t)
      | inr f ↦ Among-keep (λ r. not (has_detail live r)) run runs listed (rw f refl)
    ]
