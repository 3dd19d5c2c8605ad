-- ===== src/Runtime/Orchestrator/Task.antt =====
-- Whole tasks of navigator/agent_runtime/orchestrator.py, one after the other.
use navigator_ai.Prelude.{
  ℕ, ◌≡◌, ◌⊎◌, inl, inr, refl, ap, ◌∙◌, String, Bool, true, false, if◌then◌else◌, Option, none,
  some, List, [], ◌∷◌, ◌++◌, arith, length,
}
use navigator_ai.Runtime.Models
use navigator_ai.Runtime.Models.{TaskStatus, ActionStatus}
use navigator_ai.Runtime.Cancellation.{WorldState, update, with_status, apply_interruption}
use navigator_ai.Runtime.Orchestrator.{
  PlanStep, AgentPlan, Env, Effect, emit, say_result, Done, ended, raised, in_page, in_push,
  in_planner, in_speech, speaking_result, mark_task, speak_result, refresh_browser_state,
  begin_task, start_plan, no_plan, with_plan, execute_task,
}
use navigator_ai.Runtime.Orchestrator.Requests.{interrupt}
use navigator_ai.Runtime.Orchestrator.States.{
  status_of, has_task, IsIdle, mark_task-IsIdle, status-mark_task, speak_result-keeps,
  speaking_result-keeps,
}
use navigator_ai.Runtime.Orchestrator.Plan.{EndsWell, execute_steps-EndsWell}

-- A task that has come to its end.
pub record IsSettled (s t : WorldState) : Type 0 where
  pub idle : IsIdle s t
  pub over :
      (status_of t.task ≡ some TaskStatus.completed) ⊎ (status_of t.task ≡ some TaskStatus.failed)

-- A task that an exception left: planning, executing with its action marked as running, or
-- completed.
pub record IsLeft (s t : WorldState) : Type 0 where
  pub interruption : t.interruption ≡ s.interruption
  pub stays :
      (status_of t.task ≡ some TaskStatus.planning) × (t.agent.thinking ≡ true)
      ⊎ (status_of t.task ≡ some TaskStatus.executing)
        × (t.action_status ≡ ActionStatus.running)
        × (t.agent.executing ≡ true)
      ⊎ (status_of t.task ≡ some TaskStatus.completed) × (t.action_status ≡ ActionStatus.idle)

abbrev pub Settles : {O : Type 0} → WorldState → Done O → Type 0
Settles s (ended t o fx) = IsSettled s t
Settles s (raised t o fx) = IsLeft s t

module _ (env : Env) where
  open env use {Outside, raises, plan, page_url}

  Settles-if :
      (s : WorldState) (test : Bool) (x y : Done Outside)
      → Settles s x
      → Settles s y
      → Settles s (if test then x else y)
  Settles-if s true x y hx hy = hx
  Settles-if s false x y hx hy = hy

  -- A task that is being planned.
  IsPlanning : WorldState → Type 0
  IsPlanning s = (status_of s.task ≡ some TaskStatus.planning) × (s.agent.thinking ≡ true)

  planning-Settles :
      (s : WorldState) (o : Outside) (fx : List Effect) → IsPlanning s → Settles s (raised s o fx)
  unfolding IsPlanning
  planning-Settles s o fx h = record { interruption = refl; stays = inl h }

  IsPlanning-has_task : (s : WorldState) → IsPlanning s → has_task s.task ≡ true
  unfolding IsPlanning
  IsPlanning-has_task s h = ground (arith, h)

  no_plan-Settles :
      (s : WorldState) (o : Outside) (fx : List Effect)
      → IsPlanning s
      → Settles s (no_plan env s o fx)
  unfolding no_plan IsPlanning
  no_plan-Settles s o fx h =
      let text : String = "I couldn't figure out the next step on this page." in
      let kept = speak_result-keeps text s in
      let speaking = speaking_result-keeps text s in
      let quiet = mark_task-IsIdle TaskStatus.failed (speak_result text s) in
      let seen = fx ++ say_result text ∷ [] in
      Settles-if s (raises o in_speech) (raised (speaking_result text s) o seen)
        (ended (mark_task TaskStatus.failed (speak_result text s)) o seen)
        (record {
          interruption = speaking.1;
          stays = inl (ap status_of speaking.0 ∙ h.0, speaking.4 ∙ h.1);
        })
        (record {
          idle = record {
            interruption = quiet.interruption ∙ kept.1;
            action_status = quiet.action_status;
            executing = quiet.executing;
            thinking = quiet.thinking;
          };
          over = inr (
              status-mark_task TaskStatus.failed (speak_result text s)
                (ap has_task kept.0 ∙ IsPlanning-has_task s h));
        })

  steps-Settles :
      (s : WorldState) (n : ℕ) (fx : List Effect) (d : Done Outside) (t : WorldState)
      → t.interruption ≡ s.interruption
      → status_of t.task ≡ some TaskStatus.executing
      → t.agent.executing ≡ true
      → EndsWell n t fx d
      → Settles s d
  steps-Settles s n fx (ended u o gx) t i w x h = record {
    idle = record {
      interruption = h.idle.interruption ∙ i;
      action_status = h.idle.action_status;
      executing = h.idle.executing;
      thinking = h.idle.thinking;
    };
    over = elim h.outcome [ inl all ↦ inl all.0 | inr failed ↦ inr failed ];
  }
  steps-Settles s n fx (raised u o gx) t i w x h = record {
    interruption = h.interruption ∙ i;
    stays = inr (elim h.left [
      | inl acting ↦ inl (acting.0 ∙ w, acting.1, acting.2 ∙ x)
      | inr all ↦ inr (all.0, all.1)
    ]);
  }

  settled_from :
      (d : Done Outside) (s t : WorldState)
      → t.interruption ≡ s.interruption
      → Settles t d
      → Settles s d
  settled_from (ended u o fx) s t i h = record {
    idle = record {
      interruption = h.idle.interruption ∙ i;
      action_status = h.idle.action_status;
      executing = h.idle.executing;
      thinking = h.idle.thinking;
    };
    over = h.over;
  }
  settled_from (raised u o fx) s t i h = record {
    interruption = h.interruption ∙ i;
    stays = h.stays;
  }

  started :
      (s : WorldState)
      → has_task s.task ≡ true
      → (has_task (start_plan env s).task ≡ true)
        × ((start_plan env s).interruption ≡ s.interruption)
        × (status_of (start_plan env s).task ≡ some TaskStatus.executing)
        × ((start_plan env s).agent.executing ≡ true)
  unfolding start_plan update with_status
  started s h = ground arith

  with_plan-Settles :
      (p : Option AgentPlan) (s : WorldState) (o : Outside) (fx : List Effect)
      → IsPlanning s
      → Settles s (with_plan env p s o fx)
  unfolding with_plan
  with_plan-Settles none s o fx h = no_plan-Settles s o fx h
  with_plan-Settles (some p) s o fx h = by_steps p.steps
    where
      by_steps :
          (steps : List PlanStep)
          → Settles s (with_plan env (some (record p { steps = steps })) s o fx)
      by_steps [] = no_plan-Settles s o fx h
      by_steps (step ∷ steps) =
          let begun = started s (IsPlanning-has_task s h) in
          steps-Settles s (length (step ∷ steps)) (fx ++ emit Models.plan_created ∷ []) _
            (start_plan env s) begun.1 begun.2 begun.3
            (execute_steps-EndsWell env p.screenshot 0 (step ∷ steps) (start_plan env s) o
              (fx ++ emit Models.plan_created ∷ []) begun.0)

  pub execute_task-Settles :
      (goal : String) (s : WorldState) (o : Outside) → Settles s (execute_task env goal s o)
  unfolding execute_task begin_task refresh_browser_state update IsPlanning
  execute_task-Settles goal s o =
      Settles-if s (raises o in_page) (raised begun_task o fx) _
        (settled_from (raised begun_task o fx) s begun_task refl
          (planning-Settles begun_task o fx (refl, refl)))
        (Settles-if s (raises o in_push) (raised begun o fx) _
          (settled_from (raised begun o fx) s begun refl (planning-Settles begun o fx (refl, refl)))
          (Settles-if s (raises planned.1 in_planner) (raised begun planned.1 fx) _
            (settled_from (raised begun planned.1 fx) s begun refl
              (planning-Settles begun planned.1 fx (refl, refl)))
            (settled_from (with_plan env planned.0 begun planned.1 fx) s begun refl
              (with_plan-Settles planned.0 begun planned.1 fx (refl, refl)))))
    where
      fx : List Effect
      fx = emit Models.task_created ∷ []

      begun_task : WorldState
      begun_task = begin_task env goal s

      begun : WorldState
      begun = refresh_browser_state (page_url o) begun_task

      planned : Option AgentPlan × Outside
      planned = plan o goal begun

  -- The goals that are executed one after the other: after an exception the thread has ended, and
  -- the next goal is that of the next worker thread.
  abbrev state_after : Done Outside → WorldState
  state_after (ended t o fx) = t
  state_after (raised t o fx) = t

  abbrev outside_after : Done Outside → Outside
  outside_after (ended t o fx) = o
  outside_after (raised t o fx) = o

  unfoldable pub execute_tasks : List String → WorldState → Outside → WorldState
  execute_tasks [] s o = s
  execute_tasks (goal ∷ goals) s o =
      let d = execute_task env goal s o in execute_tasks goals (state_after d) (outside_after d)

  interruption-execute_tasks :
      (goals : List String) (s : WorldState) (o : Outside)
      → (execute_tasks goals s o).interruption ≡ s.interruption
  unfolding execute_tasks
  interruption-execute_tasks [] s o = refl
  interruption-execute_tasks (goal ∷ goals) s o =
      let d = execute_task env goal s o in
      interruption-execute_tasks goals (state_after d) (outside_after d)
      ∙ of_done d (execute_task-Settles goal s o)
    where
      of_done : (d : Done Outside) → Settles s d → (state_after d).interruption ≡ s.interruption
      of_done (ended t o fx) h = h.idle.interruption
      of_done (raised t o fx) h = h.interruption

  -- Once `interrupt` has set the request in the world state, no execution of tasks clears it,
  -- however many follow and whatever raises: it still asks for the same goal after them.
  pub interruption_never_cleared :
      (goals : List String) (reason new_goal : String) (s : WorldState) (o : Outside)
      → let t = execute_tasks goals (interrupt reason new_goal s).0 o in
        (t.interruption.requested ≡ true) × (t.interruption.new_goal ≡ new_goal)
  unfolding interrupt apply_interruption
  interruption_never_cleared goals reason new_goal s o =
      let same = interruption-execute_tasks goals (interrupt reason new_goal s).0 o in
      (ap (λ i. i.requested) same, ap (λ i. i.new_goal) same)
