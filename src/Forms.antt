-- ===== src/Forms.antt =====
-- The checks at the head of the submit handlers of web/src/pages, each `if (…) return setError(…)`.
pub mod Passed
use prox_back.Prelude.{Bool, if◌then◌else◌}
use prox_back.Js.Text.{Text, codes}

-- What a handler does before it asks the server: it shows a message, or it goes on with a body.
pub data Submission (A : Type 0) : Type 0 where
  invalid : Text → Submission A
  posted : A → Submission A

-- `if (test) return setError(message)`, with what follows.
unfoldable pub refuse_if : {A : Type 0} → Bool → Text → Submission A → Submission A
refuse_if test message rest = if test then invalid message else rest
