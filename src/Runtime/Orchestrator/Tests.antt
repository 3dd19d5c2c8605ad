-- ===== src/Runtime/Orchestrator/Tests.antt =====
-- Tasks of navigator/agent_runtime/orchestrator.py against a small browser and planner.
use navigator_ai.Prelude.{ℕ, suc, Bool, ◌≡◌, refl, true, false, some, [], ◌∷◌}
use navigator_ai.Runtime.Models.{TaskStatus, ActionStatus, AgentMode, fresh_watchdog}
use navigator_ai.Runtime.Cancellation.{
  WorldState, should_cancel_remaining_plan, update, with_status,
}
use navigator_ai.Runtime.Orchestrator.{
  PlanStep, Env, Done, ended, raised, Point, in_action, execute_steps, execute_task, run_step,
  acting_state, refresh_browser_state,
}
use navigator_ai.Runtime.Orchestrator.States.{status_of}
use navigator_ai.Runtime.Orchestrator.Requests.{interrupt}
use navigator_ai.Runtime.Orchestrator.Task.{execute_tasks, interruption_never_cleared}

abbrev first_step : PlanStep
first_step = record { action_id = 1; spoken = "Here are the orders." }

abbrev second_step : PlanStep
second_step = record { action_id = 2; spoken = "" }

-- The outside counts the actions.
abbrev env : Env
env = record {
  Outside = ℕ;
  raises = λ o point. false;
  execute_action =
      λ o page step. (record { logged = true; next_page_id = "orders"; passed = true }, suc o);
  plan =
      λ o goal s. (some (record { steps = first_step ∷ second_step ∷ []; screenshot = true }), o);
  page_url = λ o. "https://app/orders";
  flag_is_set = λ o. (false, o);
  now = λ o. 1000;
  fingerprint = λ o url. url;
}

abbrev quiet_world : WorldState
quiet_world = record {
  version = 0;
  page_id = "home";
  url = "https://app";
  task = some (record { goal = "orders"; status = TaskStatus.executing; current_step = 0 });
  action_status = ActionStatus.idle;
  agent = record {
    mode = AgentMode.listening;
    speaking = false;
    thinking = false;
    executing = false;
  };
  interruption = record { requested = false; reason = ""; new_goal = "" };
  recovery = "";
  watchdog = fresh_watchdog;
  last_agent_message = "";
}

interruption_never_cleared_example :
    let t =
      execute_tasks env
        ("orders" ∷ "invoices" ∷ [])
        (interrupt "visitor" "invoices" quiet_world).0
        0 in
    (t.interruption.requested ≡ true) × (t.interruption.new_goal ≡ "invoices")
interruption_never_cleared_example =
    interruption_never_cleared env ("orders" ∷ "invoices" ∷ []) "visitor" "invoices" quiet_world 0

abbrev is_action : Point → Bool
is_action in_action = true
is_action _ = false

-- Executing the action raises: the task stays executing, and its action running.
abbrev raising_env : Env
raising_env = record env { raises = λ o point. is_action point }

abbrev world_after : Done ℕ → WorldState
world_after (ended t o fx) = t
world_after (raised t o fx) = t

action_raises :
    let t = world_after (execute_task raising_env "orders" quiet_world 0) in
    (status_of t.task ≡ some TaskStatus.executing)
    × (t.action_status ≡ ActionStatus.running)
    × (t.agent.executing ≡ true)
unfolding execute_task run_step acting_state execute_steps should_cancel_remaining_plan update
    with_status refresh_browser_state
action_raises = (refl, refl, refl)
