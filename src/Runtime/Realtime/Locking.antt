-- ===== src/Runtime/Realtime/Locking.antt =====
-- Which methods of navigator/agent_runtime/realtime_state.py return.
use navigator_ai.Prelude.{ℕ, String, Bool, true, false, ◌≡◌, arith}
use navigator_ai.Runtime.Lock.{Locked, is_blocked, state_of}
use navigator_ai.Runtime.Realtime.{
  RealtimeState, Live, Controller, state, is_working, task_elapsed_s, transition, attach_live,
  compact_context,
}

compact_context_blocks :
    (s : Locked Controller) (now : ℕ)
    → (is_blocked (compact_context now s) ≡ true) × ((state_of (compact_context now s)).held ≡ true)
unfolding compact_context
compact_context_blocks s now = ground arith

-- The calls agree with the lock on whether they return.
abbrev pub Returns : RealtimeState → String → ℕ → Live → Locked Controller → Type 0
Returns new goal now live s =
    (is_blocked (state s) ≡ s.held)
    × (is_blocked (is_working s) ≡ s.held)
    × (is_blocked (task_elapsed_s now s) ≡ s.held)
    × (is_blocked (transition new goal now s) ≡ s.held)
    × (is_blocked (attach_live live s) ≡ s.held)
    × ((state_of (transition new goal now s)).held ≡ s.held)

Returns-at :
    (new : RealtimeState) (goal : String) (now : ℕ) (live : Live) (held : Bool) (c : Controller)
    → Returns new goal now live (record { held = held; obj = c })
unfolding state is_working task_elapsed_s transition attach_live
Returns-at new goal now live true c = ground arith
Returns-at new goal now live false c = ground arith

-- Every method but one returns exactly when the lock is free: the three properties, `transition`
-- and `attach_live`; and a transition leaves the lock as it found it. `compact_context` never
-- returns: in every state of the controller, whoever holds the lock, the call waits, and the lock
-- is held while it does.
pub methods_return :
    (s : Locked Controller) (new : RealtimeState) (goal : String) (now : ℕ) (live : Live)
    → Returns new goal now live s
      × (is_blocked (compact_context now s) ≡ true)
      × ((state_of (compact_context now s)).held ≡ true)
methods_return s new goal now live =
    let (blocks, held) = compact_context_blocks s now in
    (Returns-at new goal now live s.held s.obj, blocks, held)
