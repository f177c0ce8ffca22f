-- ===== src/Dashboard.antt =====
-- web/src/pages/DashboardPage.tsx: the counts and rows of the workloads, the next run, and what the
-- page asks for first.
pub mod Rows
pub mod Next
use prox_back.Prelude.{
  ℕ, ◌+◌, Bool, true, false, List, [], ◌∷◌, Option, none, some, ◌&&◌, ◌||◌, ◌==◌, if◌then◌else◌,
  ltb, leb, length, keep, any,
}
use prox_back.Js.Text.{Text, codes}
use prox_back.Js.Order.{sort_by}

-- `WorkloadStatus`.
pub data WorkloadStatus : Type 0 where
  protected at_risk unprotected : WorkloadStatus

-- What the table reads of a `PostureWorkload`.
pub record Workload : Type 0 where
  pub name : Text
  pub status : WorkloadStatus

-- `PostureFilter`.
pub data PostureFilter : Type 0 where
  every : PostureFilter
  only : WorkloadStatus → PostureFilter

-- `STATUS_WEIGHT`.
unfoldable pub status_weight : WorkloadStatus → ℕ
status_weight unprotected = 0
status_weight at_risk = 1
status_weight protected = 2

-- `a === b`.
unfoldable pub same_status : WorkloadStatus → WorkloadStatus → Bool
same_status protected protected = true
same_status at_risk at_risk = true
same_status unprotected unprotected = true
same_status _ _ = false

pub record Counts : Type 0 where
  pub every : ℕ
  pub protected : ℕ
  pub at_risk : ℕ
  pub unprotected : ℕ

-- `map[workload.status] += 1`.
unfoldable pub count_one : Counts → WorkloadStatus → Counts
count_one c protected = record c { protected = c.protected + 1 }
count_one c at_risk = record c { at_risk = c.at_risk + 1 }
count_one c unprotected = record c { unprotected = c.unprotected + 1 }

unfoldable pub count_each : Counts → List Workload → Counts
unfolding count_one
count_each c [] = c
count_each c (w ∷ ws) = count_each (count_one c w.status) ws

-- `counts`.
unfoldable pub counts_of : List Workload → Counts
unfolding count_each
counts_of ws =
    count_each (record { every = length ws; protected = 0; at_risk = 0; unprotected = 0 }) ws

-- The number beside the chip of a filter.
unfoldable pub count_for : Counts → PostureFilter → ℕ
count_for c every = c.every
count_for c (only protected) = c.protected
count_for c (only at_risk) = c.at_risk
count_for c (only unprotected) = c.unprotected

unfoldable pub chosen : PostureFilter → List Workload → List Workload
unfolding same_status
chosen every ws = ws
chosen (only status) ws = keep (λ w. same_status w.status status) ws

-- The comparison of the rows; `name_follows` is `a.localeCompare(b) > 0`.
unfoldable pub row_follows : (Text → Text → Bool) → Workload → Workload → Bool
unfolding status_weight
row_follows name_follows a b =
    if status_weight a.status == status_weight b.status
    then name_follows a.name b.name
    else ltb (status_weight b.status) (status_weight a.status)

-- `rows`.
unfoldable pub rows_of : (Text → Text → Bool) → PostureFilter → List Workload → List Workload
unfolding chosen sort_by row_follows
rows_of name_follows filter ws = sort_by (row_follows name_follows) (chosen filter ws)

-- What the panel of the next run reads of a `Job`; an empty text is no date.
pub record Job : Type 0 where
  pub id : Text
  pub enabled : Bool
  pub next_run : Option Text

unfoldable pub has_next : Job → Bool
has_next job = job.enabled && is_set job.next_run
  where
    is_set : Option Text → Bool
    is_set (some (c ∷ s)) = true
    is_set _ = false

unfoldable pub next_text : Job → Text
next_text job = text_of job.next_run
  where
    text_of : Option Text → Text
    text_of none = []
    text_of (some s) = s

unfoldable pub first_of : List Job → Option Job
first_of [] = none
first_of (job ∷ jobs) = some job

-- `nextRun`; `get_time` is `new Date(text).getTime()` for a text that is a date.
unfoldable pub next_run : (Text → ℕ) → List Job → Option Job
unfolding has_next next_text sort_by first_of
next_run get_time jobs =
    first_of
      (sort_by (λ a b. ltb (get_time (next_text b)) (get_time (next_text a))) (keep has_next jobs))

-- What `setupRoute` reads of `DashboardStats`.
pub record Stats : Type 0 where
  pub host_count : ℕ
  pub target_count : ℕ
  pub job_count : ℕ

-- `setupRoute`: the path.
unfoldable pub setup_route : Stats → Text
setup_route stats =
    if stats.host_count == 0
    then codes "/hosts"
    else if stats.target_count == 0
    then codes "/targets"
    else codes "/jobs"
