-- ===== src/Runtime/Backchannel/Tests.antt =====
-- Two turns, in the first of which three acknowledgements are tried.
use navigator_ai.Prelude.{ℕ, ◌≡◌, refl, true, false, List, [], ◌∷◌}
use navigator_ai.Runtime.Backchannel.{Backchannel, new_backchannel, reset_turn, maybe_backchannel}
use navigator_ai.Runtime.Backchannel.Turns.{Attempt, attempt_all, turns}

abbrev at : ℕ → Attempt
at now = record { raises = false; now = now }

abbrev two_turns : List (List Attempt)
two_turns = (at 4000 ∷ at 5000 ∷ at 9000 ∷ []) ∷ (at 10000 ∷ []) ∷ []

abbrev fresh : Backchannel
fresh = record {
  has_nudge_fn = true;
  min_interval = 3000;
  max_per_turn = 1;
  last_backchannel_at = 0;
  this_turn_count = 0;
  sent = [];
}

one_per_turn : (turns two_turns (new_backchannel true 3000 1)).sent ≡ 10000 ∷ 4000 ∷ []
unfolding turns attempt_all maybe_backchannel new_backchannel reset_turn
one_per_turn = refl
