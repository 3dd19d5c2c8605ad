-- ===== src/Runtime/Interaction/Confirm.antt =====
-- Confirmations of navigator/agent_runtime/interaction.py.
use navigator_ai.Prelude.{
  true, false, none, some, [], ◌++◌, ◌≡◌, refl, arith, Text, codes, has_infix, has_infix-append,
}
use navigator_ai.Runtime.Models.{DemoStep}
use navigator_ai.Runtime.Interaction.{heard, any_in, confirm}

-- A visitor who says nothing has neither confirmed nor declined, and is not reported as timed
-- out.
pub confirm_silence :
    (step : DemoStep)
    → (confirm step none).0 ≡ record { value = []; timed_out = false; declined = false }
unfolding confirm heard any_in has_infix
confirm_silence step = refl

-- Whatever else the reply says, one that contains the word "now" counts as declined, since the
-- code looks for "no" anywhere in it.
confirm_now_declines :
    (step : DemoStep) (reply before after : Text)
    → heard (some reply) ≡ before ++ (codes "now" ++ after)
    → (confirm step (some reply)).0.declined ≡ true
unfolding confirm any_in
confirm_now_declines step reply before after h =
    rw h (ground (arith, has_infix-append before (codes "no") (codes "w" ++ after)))
