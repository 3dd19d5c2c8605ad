-- ===== src/Runtime/Orchestrator.antt =====
-- `_execute_task` and `_execute_plan` of navigator/agent_runtime/orchestrator.py. The planner and
-- the browser are parameters, and so is the interrupt flag, which other threads set: a reading
-- of it may differ from the one before. Events keep their kind. What the code calls outside may
-- raise: nothing here catches it, so that the call ends in the state it had reached. Of the world
-- state, other threads are taken to change nothing while a task runs.
pub mod Counts
pub mod States
pub mod Requests
pub mod Plan
pub mod Task
mod Tests
use navigator_ai.Prelude.{
  ℕ, zero, suc, ◌+◌, String, Bool, true, false, not, ◌||◌, ◌&&◌, Option, none, some, List, [], ◌∷◌,
  ◌++◌, ◌==◌, string_eq, if◌then◌else◌,
}
use navigator_ai.Runtime.Models
use navigator_ai.Runtime.Models.{TaskStatus, ActionStatus, AgentMode, AgentEventKind}
use navigator_ai.Runtime.Watchdog.{tick, record_state, record_failure, clear_failure, is_stuck}
use navigator_ai.Runtime.Cancellation.{
  AgentTask, AgentSlice, WorldState, update, with_status, after_atomic_action,
  should_cancel_remaining_plan,
}

pub record PlanStep : Type 0 where
  pub action_id : ℕ
  pub spoken : String

pub record AgentPlan : Type 0 where
  pub steps : List PlanStep
  pub screenshot : Bool

pub record Acted : Type 0 where
  pub logged : Bool
  pub next_page_id : String
  pub passed : Bool

-- Where a call to the outside may raise: executing an action, appending to the log, reading the
-- page, pushing the world state to the live agent, planning, and speaking.
pub data Point : Type 0 where
  in_action in_log in_page in_push in_planner in_speech : Point

pub record Env : Type 1 where
  pub Outside : Type 0
  pub raises : Outside → Point → Bool
  pub execute_action : Outside → String → PlanStep → Acted × Outside
  pub plan : Outside → String → WorldState → Option AgentPlan × Outside
  pub page_url : Outside → String
  pub flag_is_set : Outside → Bool × Outside
  pub now : Outside → ℕ
  pub fingerprint : Outside → String → String

pub data Effect : Type 0 where
  emit : AgentEventKind → Effect
  act : PlanStep → Effect
  log_entry : Effect
  say_result : String → Effect
  say_error : String → Effect

pub data Done (Outside : Type 0) : Type 0 where
  ended : WorldState → Outside → List Effect → Done Outside
  raised : WorldState → Outside → List Effect → Done Outside

unfoldable pub mark_task : TaskStatus → WorldState → WorldState
unfolding update
mark_task status = update λ s. record s {
  task = with_status status s.task;
  agent = record s.agent { executing = false; thinking = false; mode = AgentMode.listening };
  action_status = ActionStatus.idle;
}

unfoldable update_speaking : Bool → WorldState → WorldState
unfolding update
update_speaking speaking = update λ s. record s {
  agent = record s.agent {
    speaking = speaking;
    mode = if speaking then AgentMode.speaking else AgentMode.listening;
  };
}

unfoldable pub speak_result : String → WorldState → WorldState
unfolding update_speaking update
speak_result text s =
    update_speaking false
      (update (λ t. record t { last_agent_message = text }) (update_speaking true s))

unfoldable pub speak_error : WorldState → WorldState
unfolding update_speaking
speak_error s = update_speaking false (update_speaking true s)

begin_action : ℕ → WorldState → WorldState
begin_action now =
    update λ s. record s { action_status = ActionStatus.running; watchdog = tick s.watchdog now }

move_to : String → WorldState → WorldState
move_to page = update λ s. record s { page_id = page }

unfoldable pub refresh_browser_state : String → WorldState → WorldState
refresh_browser_state url = update λ s. record s { url = url }

note_success : String → WorldState → WorldState
note_success fp s =
    update (λ t. record t { watchdog = record_state t.watchdog fp })
      (update (λ t. record t { watchdog = clear_failure t.watchdog }) s)

unfoldable pub note_failure : WorldState → WorldState
note_failure = update λ s. record s { watchdog = record_failure s.watchdog }

stepped : ℕ → Option AgentTask → Option AgentTask
stepped n none = none
stepped n (some t) = some (record t { current_step = n })

finish_action : ℕ → WorldState → WorldState
finish_action idx s =
    update (λ t. record t { task = stepped (idx + 1) t.task }) (update after_atomic_action s)

-- The states in which speaking may raise.
unfoldable pub speaking_result : String → WorldState → WorldState
unfolding update_speaking update
speaking_result text s =
    update (λ t. record t { last_agent_message = text }) (update_speaking true s)

unfoldable pub acting_state : ℕ → WorldState → WorldState
unfolding begin_action
acting_state now s = begin_action now s

unfoldable pub moved_state : ℕ → String → WorldState → WorldState
unfolding begin_action move_to
moved_state now page s = move_to page (begin_action now s)

-- The state after the action, before it is known whether it verified.
unfoldable pub acted_state : ℕ → String → String → WorldState → WorldState
unfolding begin_action move_to
acted_state now page url s = refresh_browser_state url (move_to page (begin_action now s))

unfoldable pub passed_state : ℕ → String → String → WorldState → WorldState
unfolding note_success finish_action stepped
passed_state idx fp spoken s =
    let noted = note_success fp s in
    finish_action idx (if spoken == "" then noted else speak_result spoken noted)

unfoldable pub speaking_passed : String → String → WorldState → WorldState
unfolding note_success speaking_result
speaking_passed fp spoken s = speaking_result spoken (note_success fp s)

unfoldable pub speaking_failed : WorldState → WorldState
unfolding note_failure update_speaking
speaking_failed s = update_speaking true (note_failure s)

unfoldable pub failed_state : WorldState → WorldState
unfolding note_failure
failed_state s = mark_task TaskStatus.failed (speak_error (note_failure s))

module _ (env : Env) where
  open env use {Outside, raises, execute_action, plan, page_url, flag_is_set, now, fingerprint}

  pub cancelled : WorldState → Outside → List Effect → Done Outside
  cancelled s o fx = ended (mark_task TaskStatus.failed s) o (fx ++ emit Models.task_cancelled ∷ [])

  pub passed_effects : PlanStep → List Effect
  passed_effects step =
      emit Models.verification_passed
      ∷ (if step.spoken == "" then [] else say_result step.spoken ∷ [])

  pub failed_effects : Bool → Bool → List Effect
  failed_effects screenshot stuck =
      emit Models.verification_failed
      ∷ ((if screenshot then emit Models.screenshot_captured ∷ [] else [])
          ++ ((if stuck then emit Models.loop_detected ∷ [] else [])
              ++ say_error "That step didn't verify — I'll try another approach." ∷ []))

  pub acted_effects : PlanStep → Bool → List Effect
  acted_effects step logged =
      emit Models.action_started
      ∷ act step
      ∷ ((if logged then log_entry ∷ [] else []) ++ emit Models.action_completed ∷ [])

  pub completed : WorldState → Outside → List Effect → Done Outside
  completed s o fx =
      let text : String = "Done — take a look at the screen." in
      let marked = mark_task TaskStatus.completed s in
      let seen = fx ++ emit Models.task_completed ∷ say_result text ∷ [] in
      if raises o in_speech
      then raised (speaking_result text marked) o seen
      else ended (speak_result text marked) o seen

  pub started_effects : PlanStep → List Effect
  started_effects step = emit Models.action_started ∷ act step ∷ []

  -- The step at `idx` of a plan, `rest` being what follows it.
  unfoldable pub run_step :
      Bool
      → ℕ
      → PlanStep
      → (WorldState → Outside → List Effect → Done Outside)
      → WorldState
      → Outside
      → List Effect
      → Done Outside
  unfolding cancelled passed_effects failed_effects acted_effects started_effects
  run_step screenshot idx step rest s o fx =
      let (flag, o1) = flag_is_set o in
      let (done, o2) = execute_action o1 s.page_id step in
      let after = acted_state (now o1) done.next_page_id (page_url o2) s in
      let seen = fx ++ acted_effects step done.logged in
      let ok = passed_state idx (fingerprint o2 after.url) step.spoken after in
      let noted = seen ++ passed_effects step in
      let unverified = seen ++ failed_effects screenshot (is_stuck (note_failure after).watchdog) in
      let (flag', o3) = flag_is_set o2 in
      if flag || should_cancel_remaining_plan s
      then cancelled s o1 fx
      else if raises o2 in_action
      then raised (acting_state (now o1) s) o2 (fx ++ started_effects step)
      else if done.logged && raises o2 in_log
      then raised (acting_state (now o1) s) o2 (fx ++ started_effects step)
      else if raises o2 in_page
      then raised (moved_state (now o1) done.next_page_id s) o2 (fx ++ started_effects step)
      else if raises o2 in_push
      then raised after o2 (fx ++ started_effects step)
      else if not done.passed
      then (if raises o2 in_speech
          then raised (speaking_failed after) o2 unverified
          else ended (failed_state after) o2 unverified)
      else if not (step.spoken == "") && raises o2 in_speech
      then raised (speaking_passed (fingerprint o2 after.url) step.spoken after) o2 noted
      else if flag'
      then cancelled ok o3 noted
      else rest ok o3 noted

  unfoldable pub execute_steps :
      Bool → ℕ → List PlanStep → WorldState → Outside → List Effect → Done Outside
  unfolding completed
  execute_steps screenshot idx [] s o fx = completed s o fx
  execute_steps screenshot idx (step ∷ steps) s o fx =
      run_step screenshot idx step (λ s' o' fx'. execute_steps screenshot (idx + 1) steps s' o' fx')
        s o fx

  pub begin_task : String → WorldState → WorldState
  begin_task goal = update λ s. record s {
    task = some (record { goal = goal; status = TaskStatus.planning; current_step = 0 });
    agent = record s.agent { mode = AgentMode.thinking; thinking = true };
  }

  pub start_plan : WorldState → WorldState
  start_plan = update λ s. record s {
    task = with_status TaskStatus.executing s.task;
    agent = record s.agent { thinking = false; executing = true; mode = AgentMode.executing };
  }

  pub no_plan : WorldState → Outside → List Effect → Done Outside
  no_plan s o fx =
      let text : String = "I couldn't figure out the next step on this page." in
      if raises o in_speech
      then raised (speaking_result text s) o (fx ++ say_result text ∷ [])
      else ended (mark_task TaskStatus.failed (speak_result text s)) o (fx ++ say_result text ∷ [])

  pub with_plan : Option AgentPlan → WorldState → Outside → List Effect → Done Outside
  unfolding no_plan start_plan
  with_plan none s o fx = no_plan s o fx
  with_plan (some p) s o fx = elim p.steps [
    | [] ↦ no_plan s o fx
    | step ∷ steps ↦
        execute_steps p.screenshot 0 (step ∷ steps) (start_plan s) o
          (fx ++ emit Models.plan_created ∷ [])
  ]

  unfoldable pub execute_task : String → WorldState → Outside → Done Outside
  unfolding begin_task with_plan
  execute_task goal s o =
      let begun = refresh_browser_state (page_url o) (begin_task goal s) in
      let (p, o') = plan o goal begun in
      let fx : List Effect = emit Models.task_created ∷ [] in
      if raises o in_page
      then raised (begin_task goal s) o fx
      else if raises o in_push
      then raised begun o fx
      else if raises o' in_planner
      then raised begun o' fx
      else with_plan p begun o' fx
