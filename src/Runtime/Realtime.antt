-- ===== src/Runtime/Realtime.antt =====
-- navigator/agent_runtime/realtime_state.py: the state of the voice agent and its controller.
-- `now` stands for the clock reading that a method takes, in tenths of a second; 0 means that no
-- task has started, as 0.0 does in the code.
-- The context and the callback of a transition come after its lock is released: `transition` is a
-- call while no other thread makes one, and `Reports` has calls at the same time.
pub mod Locking
pub mod Transitions
pub mod Reports
mod Tests
use navigator_ai.Prelude.{
  ℕ, ◌-◌, String, Bool, true, false, Option, none, some, List, [], ◌∷◌, ◌++◌, ◌==◌, nat_eq, Eq,
  discrete_eq, string_eq, if◌then◌else◌, ◌≡◌, refl,
}
use navigator_ai.Runtime.Lock.{Call, Locked, done, ◌>>=◌, ◌>>◌, pure, gets, modify, with_lock}

pub data RealtimeState : Type 0 where
  listening understanding backchanneling responding delegating working : RealtimeState
  waiting_for_user recovering finishing failed : RealtimeState

unfoldable pub RealtimeState-discrete : Discrete RealtimeState
RealtimeState-discrete = hlevel

instance abbrev pub state_eq : Eq RealtimeState
state_eq = discrete_eq RealtimeState-discrete

unfoldable pub state_context : RealtimeState → String
state_context listening = "[State: listening — wait for the user to speak]"
state_context understanding = "[State: processing what the user said]"
state_context backchanneling = "[State: user still speaking — stay brief]"
state_context responding = "[State: answering the user]"
state_context delegating =
    "[State: handing task to the browser — give a brief natural ack, then go quiet]"
state_context working =
    "[State: browser is working on the task — stay present but don't claim it's done yet]"
state_context waiting_for_user = "[State: waiting for user input]"
state_context recovering =
    "[State: retrying after a small issue — mention it naturally if the user asks]"
state_context finishing = "[State: task complete — give a natural summary]"
state_context failed = "[State: encountered an issue — apologise and offer handoff]"

-- No state lacks a context line.
pub context_nonempty : (s : RealtimeState) → (state_context s == "") ≡ false
unfolding state_context
context_nonempty listening = refl
context_nonempty _ = refl

-- The live agent is an outside object: what counts is whether it has a callable `add_context`.
pub data Live : Type 0 where
  no_live without_context with_context : Live

pub record Controller : Type 0 where
  pub state : RealtimeState
  pub task_goal : String
  pub task_start : ℕ
  pub has_on_change : Bool
  pub live : Live
  -- What the outside has been told: calls of `add_context` and of `on_state_change`.
  pub contexts : List String
  pub changes : List (RealtimeState × RealtimeState)

unfoldable pub new_controller : Bool → Live → Controller
new_controller has_on_change live = record {
  state = listening;
  task_goal = "";
  task_start = 0;
  has_on_change = has_on_change;
  live = live;
  contexts = [];
  changes = [];
}

abbrev pub busy : RealtimeState → Bool
busy working = true
busy delegating = true
busy recovering = true
busy _ = false

abbrev started_at : RealtimeState → ℕ → ℕ → ℕ
started_at working now old = now
started_at delegating now old = now
started_at recovering now old = old
started_at _ now old = 0

unfoldable pub state : Call Controller RealtimeState
state = with_lock (gets (λ c. c.state))

unfoldable pub is_working : Call Controller Bool
is_working = with_lock (gets (λ c. busy c.state))

elapsed : ℕ → Controller → ℕ
elapsed now c = if c.task_start == 0 then 0 else now - c.task_start

unfoldable pub task_elapsed_s : ℕ → Call Controller ℕ
unfolding elapsed
task_elapsed_s now = with_lock (gets (elapsed now))

-- The block under the lock; `none` is the early return.
enter : RealtimeState → String → ℕ → Controller → Option RealtimeState × Controller
enter new goal now c = if c.state == new then (none, c) else (
  some c.state,
  record c {
    state = new;
    task_goal = if goal == "" then c.task_goal else goal;
    task_start = started_at new now c.task_start;
  },
)

push_context : RealtimeState → Live → Controller → Controller
push_context new with_context c =
    if state_context new == ""
    then c
    else record c { contexts = c.contexts ++ state_context new ∷ [] }
push_context new _ c = c

tell_change : RealtimeState → RealtimeState → Controller → Controller
tell_change old new c =
    if c.has_on_change then record c { changes = c.changes ++ (old, new) ∷ [] } else c

-- A callback that raises is ignored by the code, so it counts as told.
after_enter : RealtimeState → Option RealtimeState → Call Controller (Unit {0})
after_enter new none = pure tt
after_enter new (some old) = do
  modify (λ c. push_context new c.live c)
  modify (tell_change old new)

unfoldable pub transition : RealtimeState → String → ℕ → Call Controller (Unit {0})
unfolding enter push_context tell_change after_enter
transition new goal now = do
  old ← with_lock (λ s. let (o, c) = enter new goal now s.obj in done o (record s { obj = c }))
  after_enter new old

unfoldable pub attach_live : Live → Call Controller (Unit {0})
attach_live live = with_lock (modify (λ c. record c { live = live }))

pub record Context : Type 0 where
  pub agent_state : RealtimeState
  pub task_goal : String
  pub task_elapsed_s : ℕ

-- The dictionary is built inside the lock, by way of the property `task_elapsed_s`.
unfoldable pub compact_context : ℕ → Call Controller Context
unfolding task_elapsed_s
compact_context now = with_lock do
  s ← gets (λ c. c.state)
  goal ← gets (λ c. c.task_goal)
  t ← task_elapsed_s now
  pure (record { agent_state = s; task_goal = goal; task_elapsed_s = t })
