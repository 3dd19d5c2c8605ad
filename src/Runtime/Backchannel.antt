-- ===== src/Runtime/Backchannel.antt =====
-- navigator/agent_runtime/backchannel.py: the rate limit of short acknowledgements. `now` stands
-- for the clock reading in milliseconds. The times of the nudges are kept, newest first.
pub mod Turns
mod Tests
use navigator_ai.Prelude.{
  ℕ, suc, ◌-◌, Bool, true, false, not, List, [], ◌∷◌, ltb, leb, if◌then◌else◌,
}

pub record Backchannel : Type 0 where
  pub has_nudge_fn : Bool
  pub min_interval : ℕ
  pub max_per_turn : ℕ
  pub last_backchannel_at : ℕ
  pub this_turn_count : ℕ
  pub sent : List ℕ

unfoldable pub new_backchannel : Bool → ℕ → ℕ → Backchannel
new_backchannel has_nudge_fn min_interval max_per_turn = record {
  has_nudge_fn = has_nudge_fn;
  min_interval = min_interval;
  max_per_turn = max_per_turn;
  last_backchannel_at = 0;
  this_turn_count = 0;
  sent = [];
}

unfoldable pub reset_turn : Backchannel → Backchannel
reset_turn b = record b { this_turn_count = 0 }

-- `raises` tells whether the nudge function fails when it is called.
unfoldable pub maybe_backchannel : Bool → ℕ → Backchannel → Bool × Backchannel
maybe_backchannel raises now b =
    if not b.has_nudge_fn
    then (false, b)
    else if ltb (now - b.last_backchannel_at) b.min_interval
    then (false, b)
    else if leb b.max_per_turn b.this_turn_count
    then (false, b)
    else (
      not raises,
      record b {
        last_backchannel_at = now;
        this_turn_count = suc b.this_turn_count;
        sent = now ∷ b.sent;
      },
    )

unfoldable pub reset : Backchannel → Backchannel
reset b = record b { last_backchannel_at = 0; this_turn_count = 0 }
