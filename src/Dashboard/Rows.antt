-- ===== src/Dashboard/Rows.antt =====
-- The rows of the table on web/src/pages/DashboardPage.tsx.
use prox_back.Prelude.{
  ℕ, ◌+◌, ◌≤◌, ◌≡◌, refl, sym, ◌∙◌, Bool, true, false, List, [], ◌∷◌, if◌then◌else◌, ◌==◌, ltb,
  length, sum_of, count_of, length-keep, arith,
}
use prox_back.Js.Text.{Text}
use prox_back.Js.Order.{sort_by}
use prox_back.Js.Order.Kept.{sum_of-sort_by}
use prox_back.Js.Order.Weighted.{Weighted, sort_by-Weighted}
use prox_back.Dashboard.{
  WorkloadStatus, protected, at_risk, unprotected, Workload, PostureFilter, every, only,
  status_weight, same_status, Counts, count_one, count_each, counts_of, count_for, chosen,
  row_follows, rows_of,
}

count_each-plus :
    (c : Counts) (ws : List Workload)
    → ((count_each c ws).every ≡ c.every)
      × ((count_each c ws).protected
          ≡ c.protected + count_of (λ w. same_status w.status protected) ws)
      × ((count_each c ws).at_risk ≡ c.at_risk + count_of (λ w. same_status w.status at_risk) ws)
      × ((count_each c ws).unprotected
          ≡ c.unprotected + count_of (λ w. same_status w.status unprotected) ws)
unfolding count_each count_one same_status
count_each-plus c [] = (refl, omega arith, omega arith, omega arith)
count_each-plus c (w ∷ ws) =
    let rest = count_each-plus (count_one c w.status) ws in step w.status rest
  where
    step :
        (status : WorkloadStatus)
        → ((count_each (count_one c status) ws).every ≡ (count_one c status).every)
          × ((count_each (count_one c status) ws).protected
              ≡ (count_one c status).protected + count_of (λ w. same_status w.status protected) ws)
          × ((count_each (count_one c status) ws).at_risk
              ≡ (count_one c status).at_risk + count_of (λ w. same_status w.status at_risk) ws)
          × ((count_each (count_one c status) ws).unprotected
              ≡ (count_one c status).unprotected
                + count_of (λ w. same_status w.status unprotected) ws)
        → ((count_each (count_one c status) ws).every ≡ c.every)
          × ((count_each (count_one c status) ws).protected
              ≡ c.protected
                + ((if same_status status protected then 1 else 0)
                    + count_of (λ w. same_status w.status protected) ws))
          × ((count_each (count_one c status) ws).at_risk
              ≡ c.at_risk
                + ((if same_status status at_risk then 1 else 0)
                    + count_of (λ w. same_status w.status at_risk) ws))
          × ((count_each (count_one c status) ws).unprotected
              ≡ c.unprotected
                + ((if same_status status unprotected then 1 else 0)
                    + count_of (λ w. same_status w.status unprotected) ws))
    step protected (e, p, a, u) = (e, omega arith, omega arith, omega arith)
    step at_risk (e, p, a, u) = (e, omega arith, omega arith, omega arith)
    step unprotected (e, p, a, u) = (e, omega arith, omega arith, omega arith)

length-sum_of : (ws : List Workload) → length ws ≡ sum_of (λ w. 1) ws
length-sum_of [] = refl
length-sum_of (w ∷ ws) = let k = length-sum_of ws in omega arith

length-chosen :
    (filter : PostureFilter) (ws : List Workload)
    → length (chosen filter ws) ≡ count_for (counts_of ws) filter
unfolding chosen counts_of count_for
length-chosen every ws = sym (count_each-plus _ ws).0
length-chosen (only protected) ws =
    length-keep (λ w. same_status w.status protected) ws
    ∙ (let (e, p, a, u) =
          count_each-plus
            (record { every = length ws; protected = 0; at_risk = 0; unprotected = 0 }) ws in
        omega arith)
length-chosen (only at_risk) ws =
    length-keep (λ w. same_status w.status at_risk) ws
    ∙ (let (e, p, a, u) =
          count_each-plus
            (record { every = length ws; protected = 0; at_risk = 0; unprotected = 0 }) ws in
        omega arith)
length-chosen (only unprotected) ws =
    length-keep (λ w. same_status w.status unprotected) ws
    ∙ (let (e, p, a, u) =
          count_each-plus
            (record { every = length ws; protected = 0; at_risk = 0; unprotected = 0 }) ws in
        omega arith)

-- The table shows as many rows as the chip of its filter says, each workload of the filter as often
-- as it is reported, and no workload above one whose state is more urgent.
pub rows_of-ordered :
    (name_follows : Text → Text → Bool) (filter : PostureFilter) (ws : List Workload)
    (p : Workload → Bool)
    → (length (rows_of name_follows filter ws) ≡ count_for (counts_of ws) filter)
      × (count_of p (rows_of name_follows filter ws) ≡ count_of p (chosen filter ws))
      × Weighted (λ w. status_weight w.status) (rows_of name_follows filter ws)
unfolding rows_of row_follows
rows_of-ordered name_follows filter ws p =
    let follows : Workload → Workload → Bool = row_follows name_follows in
    let rows = sort_by follows (chosen filter ws) in
    (
      length-sum_of rows
          ∙ sum_of-sort_by follows (λ w. 1) (chosen filter ws)
          ∙ sym (length-sum_of (chosen filter ws))
          ∙ length-chosen filter ws,
      sum_of-sort_by follows (λ w. if p w then 1 else 0) (chosen filter ws),
      sort_by-Weighted (λ w. status_weight w.status) follows heavier lighter (chosen filter ws),
    )
  where
    heavier :
        (a b : Workload)
        → row_follows name_follows a b ≡ true
        → status_weight b.status ≤ status_weight a.status
    heavier a b e =
        weights (status_weight a.status) (status_weight b.status) (name_follows a.name b.name) e
      where
        weights : (m n : ℕ) (names : Bool) → (if m == n then names else ltb n m) ≡ true → n ≤ m
        weights m n names e = ground arith

    lighter :
        (a b : Workload)
        → row_follows name_follows a b ≡ false
        → status_weight a.status ≤ status_weight b.status
    lighter a b e =
        weights (status_weight a.status) (status_weight b.status) (name_follows a.name b.name) e
      where
        weights : (m n : ℕ) (names : Bool) → (if m == n then names else ltb n m) ≡ false → m ≤ n
        weights m n names e = ground arith
