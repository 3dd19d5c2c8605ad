-- ===== src/Runtime/Realtime/Tests.antt =====
-- Small runs of navigator/agent_runtime/realtime_state.py.
use navigator_ai.Prelude.{ℕ, Bool, refl, ◌==◌, string_eq, ◌≡◌, true, List, [], ◌∷◌, map}
use navigator_ai.Runtime.Lock.{is_blocked, state_of, free}
use navigator_ai.Runtime.Realtime.{
  RealtimeState, listening, delegating, working, finishing, no_live, with_context, Controller,
  state_eq, state_context, enter, push_context, tell_change, new_controller, compact_context,
  RealtimeState-discrete,
}
use navigator_ai.Runtime.Realtime.Locking.{Returns, methods_return}
use navigator_ai.Runtime.Realtime.Reports.{
  Change, Turn, enters, goes_on, play, at_start, IsChain, times, play-all_told,
}
use navigator_ai.Runtime.Realtime.Transitions.{Request, run, entered, context_of, changes_reported}

abbrev fresh : Controller
fresh = new_controller true with_context

abbrev request_to : RealtimeState → ℕ → Request
request_to s now = record { to = s; goal = "open the orders"; now = now }

abbrev requests : List Request
requests =
    request_to delegating 10
    ∷ request_to working 20
    ∷ request_to working 30
    ∷ request_to finishing 40
    ∷ []

methods_return_example :
    Returns working "open the orders" 20 no_live (free fresh)
    × (is_blocked (compact_context 20 (free fresh)) ≡ true)
    × ((state_of (compact_context 20 (free fresh))).held ≡ true)
methods_return_example = methods_return (free fresh) working "open the orders" 20 no_live

changes_reported_example :
    ((run (new_controller true with_context) requests).changes
      ≡ (listening, delegating) ∷ (delegating, working) ∷ (working, finishing) ∷ [])
    × ((run (new_controller true with_context) requests).contexts
        ≡ map context_of (entered listening requests))
unfolding entered RealtimeState-discrete
changes_reported_example = changes_reported requests

-- Two calls at the same time: the second change is told before the first one.
abbrev crossing : List Turn
crossing =
    enters (request_to delegating 10)
    ∷ enters (request_to working 20)
    ∷ goes_on 1
    ∷ goes_on 0
    ∷ goes_on 1
    ∷ goes_on 0
    ∷ []

crossing-order :
    (play crossing at_start).controller.changes
    ≡ (delegating, working) ∷ (listening, delegating) ∷ []
unfolding play new_controller enter push_context tell_change RealtimeState-discrete state_context
crossing-order = refl

none_left : (play crossing at_start).pending ≡ []
unfolding play new_controller enter RealtimeState-discrete
none_left = refl

abbrev begins_work : Change → Bool
begins_work e = e.1 == working

play-all_told_example :
    let s = play crossing at_start in
    IsChain listening s.made s.controller.state
    × (times begins_work s.controller.changes ≡ times begins_work s.made)
    × (times (λ line. line == "") s.controller.contexts ≡ times (λ e. context_of e == "") s.made)
play-all_told_example = play-all_told crossing begins_work (λ line. line == "") none_left
