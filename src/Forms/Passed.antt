-- ===== src/Forms/Passed.antt =====
-- What is known behind a check of a submit handler.
use prox_back.Prelude.{◌≡◌, refl, Bool, true, false}
use prox_back.Js.Text.{Text}
use prox_back.Forms.{Submission, posted, refuse_if}

-- Behind a check its test has failed.
pub refuse_if-posted :
    {A : Type 0} (test : Bool) (message : Text) (rest : Submission A) (body : A)
    → refuse_if test message rest ≡ posted body
    → (test ≡ false) × (rest ≡ posted body)
unfolding refuse_if
refuse_if-posted true message rest body h = absurd cc
refuse_if-posted false message rest body h = (refl, h)

pub body_of-posted : {A : Type 0} (a b : A) → posted a ≡ posted b → a ≡ b
body_of-posted a b h = cc
