-- ===== src/Api/Policy/Highlights.antt =====
-- `policyHighlights` of web/src/api.ts, beside `isDefaultPolicy`.
use prox_back.Prelude.{
  ◌≡◌, Bool, true, false, List, [], ◌∷◌, ◌++◌, Option, none, some, ltb, is_empty, not, length,
  arith,
}
use prox_back.Js.Text.{Text, codes, join, print_nat}
use prox_back.Api.Policy.{BackupWindow, JobPolicy, is_no_quiesce, is_default_policy}

pub data JobKind : Type 0 where
  vm agent : JobKind

-- `if (test) out.push(text)`.
abbrev pub push_if : Bool → Text → List Text → List Text
push_if true text rest = text ∷ rest
push_if false text rest = rest

excluded_disks : List Text → Text
excluded_disks disks = codes "Excludes " ++ join (codes ", ") disks

excluded_paths : List Text → Text
excluded_paths [] = codes "Excludes 0 path patterns"
excluded_paths (p ∷ []) = codes "Excludes " ++ p
excluded_paths (p ∷ q ∷ ps) =
    codes "Excludes " ++ (print_nat (length (p ∷ q ∷ ps)) ++ codes " path patterns")

exclusions : JobPolicy → JobKind → List Text → List Text
unfolding excluded_disks excluded_paths
exclusions p vm rest =
    push_if (not (is_empty p.exclude_disks)) (excluded_disks p.exclude_disks) rest
exclusions p agent rest =
    push_if (not (is_empty p.exclude_paths)) (excluded_paths p.exclude_paths) rest

window_text : Option BackupWindow → List Text → List Text
window_text none rest = rest
window_text (some w) rest = (codes "Starts only " ++ (w.start ++ (codes "–" ++ w.finish))) ∷ rest

-- `policyHighlights`; the pushes in order, each in front of the later ones.
unfoldable pub policy_highlights : JobPolicy → JobKind → List Text
unfolding exclusions window_text
policy_highlights p kind = push_if (not (is_no_quiesce p.quiesce)) (codes "Guest-agent quiescing") (
    exclusions p kind (
      push_if (ltb 0 p.retry_count)
        (codes "Retries "
          ++ (print_nat p.retry_count
              ++ (codes "× after " ++ (print_nat p.retry_delay_minutes ++ codes " min"))))
        (push_if (ltb 0 p.max_duration_minutes)
          (codes "Stops after " ++ (print_nat p.max_duration_minutes ++ codes " min"))
          (window_text p.window (
            push_if (not (is_empty p.pre_script)) (codes "Pre-backup script") (
              push_if (not (is_empty p.post_script)) (codes "Post-backup script") (
                push_if (ltb 0 p.upload_limit_mbps_override)
                  (codes "Upload capped at "
                    ++ (print_nat p.upload_limit_mbps_override ++ codes " Mbps"))
                  [])))))))

-- The policy without the exclusions that do not bear on the kind of the job.
abbrev pub in_scope : JobKind → JobPolicy → JobPolicy
in_scope vm p = record p { exclude_paths = [] }
in_scope agent p = record p { exclude_disks = [] }

-- A policy has no highlights exactly when what bears on the kind of the job is the default.
pub highlights-default :
    (p : JobPolicy) (kind : JobKind)
    → is_empty (policy_highlights p kind) ≡ is_default_policy (in_scope kind p)
unfolding policy_highlights is_default_policy
highlights-default p vm = ground arith
highlights-default p agent = ground arith
