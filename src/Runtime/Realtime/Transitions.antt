-- ===== src/Runtime/Realtime/Transitions.antt =====
-- What sequences of transitions of navigator/agent_runtime/realtime_state.py do.
use mathlib.Core.List.{append_assoc, append-nil}
use navigator_ai.Prelude.{
  ℕ, String, Bool, true, false, ◌≡◌, refl, sym, List, [], ◌∷◌, ◌++◌, map, arith, ◌==◌,
  if◌then◌else◌,
}
use navigator_ai.Runtime.Lock.{state_of, free}
use navigator_ai.Runtime.Realtime.{
  RealtimeState, state_eq, Live, with_context, Controller, busy, state_context, context_nonempty,
  new_controller, transition,
}

-- One call of `transition` by a thread that finds the lock free.
pub record Request : Type 0 where
  pub to : RealtimeState
  pub goal : String
  pub now : ℕ

unfoldable pub step : Controller → Request → Controller
step c r = (state_of (transition r.to r.goal r.now (free c))).obj

unfoldable pub run : Controller → List Request → Controller
run c [] = c
run c (r ∷ rs) = run (step c r) rs

state-step : (c : Controller) (r : Request) → (step c r).state ≡ r.to
unfolding step transition
state-step c r = ground arith

-- The clock runs only while a task is being delegated, worked on or recovered.
abbrev pub ClockIsIdle : Controller → Type 0
ClockIsIdle c = busy c.state ≡ false → c.task_start ≡ 0

ClockIsIdle-step : (c : Controller) (r : Request) → ClockIsIdle c → ClockIsIdle (step c r)
unfolding step transition
ClockIsIdle-step c r h = ground arith

ClockIsIdle-run : (c : Controller) (rs : List Request) → ClockIsIdle c → ClockIsIdle (run c rs)
unfolding run
ClockIsIdle-run c [] h = h
ClockIsIdle-run c (r ∷ rs) h = ClockIsIdle-run (step c r) rs (ClockIsIdle-step c r h)

-- After any transitions of a new controller that end in a state which is not a working one, the
-- task clock reads 0: no start time of an earlier task survives.
elapsed_zero_when_idle :
    (has_on_change : Bool) (live : Live) (rs : List Request)
    → let c = run (new_controller has_on_change live) rs in busy c.state ≡ false → c.task_start ≡ 0
unfolding new_controller
elapsed_zero_when_idle has_on_change live rs =
    ClockIsIdle-run (new_controller has_on_change live) rs (λ _. refl)

-- The states that are entered, a request for the present state being none.
unfoldable pub entered : RealtimeState → List Request → List (RealtimeState × RealtimeState)
entered old [] = []
entered old (r ∷ rs) =
    let rest = entered r.to rs in if old == r.to then rest else (old, r.to) ∷ rest

abbrev pub context_of : RealtimeState × RealtimeState → String
context_of (old, new) = state_context new

record IsTold (c d : Controller) (es : List (RealtimeState × RealtimeState)) : Type 0 where
  changes : d.changes ≡ c.changes ++ es
  contexts : d.contexts ≡ c.contexts ++ map context_of es
  on_change : d.has_on_change ≡ true
  live : d.live ≡ with_context

step-IsTold :
    (c : Controller) (r : Request)
    → c.has_on_change ≡ true
    → c.live ≡ with_context
    → IsTold c (step c r) (if c.state == r.to then [] else (c.state, r.to) ∷ [])
unfolding step transition
step-IsTold c r h l = ground (
  arith,
  context_nonempty r.to,
  append-nil c.changes,
  append-nil c.contexts,
  state_eq.same_iff c.state r.to,
)

run-IsTold :
    (c : Controller) (rs : List Request)
    → c.has_on_change ≡ true
    → c.live ≡ with_context
    → IsTold c (run c rs) (entered c.state rs)
unfolding run entered
run-IsTold c [] h l = record {
  changes = sym (append-nil c.changes);
  contexts = sym (append-nil c.contexts);
  on_change = h;
  live = l;
}
run-IsTold c (r ∷ rs) h l =
    let one = step-IsTold c r h l in
    let rest = run-IsTold (step c r) rs one.on_change one.live in
    record {
      changes = ground (
        arith,
        rest.changes,
        one.changes,
        state-step c r,
        append_assoc c.changes ((c.state, r.to) ∷ []) (entered r.to rs),
        append-nil c.changes,
      );
      contexts = ground (
        arith,
        rest.contexts,
        one.contexts,
        state-step c r,
        append_assoc c.contexts (state_context r.to ∷ []) (map context_of (entered r.to rs)),
        append-nil c.contexts,
      );
      on_change = rest.on_change;
      live = rest.live;
    }

-- When calls of `transition` follow one another, each ending before the next begins, and there are
-- a callback and a live agent that accepts contexts: each change of state is reported once and
-- in order: the callback gets the pairs of states entered, the live agent their context
-- lines, and a request for the present state reports nothing.
pub changes_reported :
    (rs : List Request)
    → let c = run (new_controller true with_context) rs in
      (c.changes ≡ entered RealtimeState.listening rs)
      × (c.contexts ≡ map context_of (entered RealtimeState.listening rs))
unfolding new_controller
changes_reported rs =
    let told = run-IsTold (new_controller true with_context) rs refl refl in
    (told.changes, told.contexts)
