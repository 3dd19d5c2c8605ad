-- ===== src/Runtime/Orchestrator/Plan.antt =====
-- How a plan ends, in navigator/agent_runtime/orchestrator.py.
use native.Mathlib.Numerals.{add-one}
use navigator_ai.Prelude.{
  ℕ, ◌+◌, ◌≤◌, ◌≡◌, ◌⊎◌, inl, inr, ap, subst, ◌∙◌, String, Bool, true, false, not, ◌||◌, ◌&&◌, ◌==◌,
  some, List, [], ◌∷◌, ◌++◌, arith, length, if◌then◌else◌, string_eq,
}
use navigator_ai.Runtime.Models
use navigator_ai.Runtime.Models.{TaskStatus, ActionStatus, AgentMode, AgentEventKind}
use navigator_ai.Runtime.Watchdog.{is_stuck}
use navigator_ai.Runtime.Cancellation.{WorldState, should_cancel_remaining_plan}
use navigator_ai.Runtime.Orchestrator.{
  PlanStep, Env, Effect, emit, say_result, Done, ended, raised, in_action, in_log, in_page, in_push,
  in_speech, speaking_result, acting_state, moved_state, speaking_passed, speaking_failed,
  speak_result, started_effects, mark_task, note_failure, acted_state, passed_state, failed_state,
  completed, cancelled, acted_effects, passed_effects, failed_effects, run_step, execute_steps,
}
use navigator_ai.Runtime.Orchestrator.Counts.{
  acts, failures, acts-append, failures-append, late_acts, late_acts-append,
  late_acts-failed_effects, late_acts-passed_effects, counts-started_effects, acts-acted_effects,
  failures-acted_effects, counts-passed_effects, counts-failed_effects,
}
use navigator_ai.Runtime.Orchestrator.States.{
  status_of, has_task, IsIdle, IsActing, acting_state-IsActing, moved_state-IsActing,
  acted_state-IsActing, speaking_passed-IsActing, speaking_failed-IsActing, speaking_result-keeps,
  passed_state-keeps, failed_state-IsIdle, mark_task-IsIdle, status-mark_task, speak_result-keeps,
  status-failed_state,
}

-- How `n` steps may end that began in `s`, with `fx` done before: all were executed and verified,
-- or the task failed. Either way nothing is left running and the interruption is as it was.
pub record PlanEnd (n : ℕ) (s : WorldState) (fx : List Effect) (t : WorldState) (gx : List Effect)
    : Type 0 where
  pub idle : IsIdle s t
  pub acts_bounded : acts gx ≤ acts fx + n
  pub failures_bounded : failures gx ≤ failures fx + 1
  pub stops : failures fx ≡ 0 → late_acts gx ≡ 0
  pub outcome :
      (status_of t.task ≡ some TaskStatus.completed)
        × (acts gx ≡ acts fx + n)
        × (failures gx ≡ failures fx)
      ⊎ (status_of t.task ≡ some TaskStatus.failed)

-- How they may end by an exception: the steps stop there. Either an action was begun and is left
-- running, the task being in the status it had, or the task was completed and only its
-- announcement failed.
pub record PlanRaised (n : ℕ) (s : WorldState) (fx : List Effect) (t : WorldState)
    (gx : List Effect) : Type 0 where
  pub interruption : t.interruption ≡ s.interruption
  pub acts_bounded : acts gx ≤ acts fx + n
  pub failures_bounded : failures gx ≤ failures fx + 1
  pub stops : failures fx ≡ 0 → late_acts gx ≡ 0
  pub left :
      (status_of t.task ≡ status_of s.task)
        × (t.action_status ≡ ActionStatus.running)
        × (t.agent.executing ≡ s.agent.executing)
      ⊎ (status_of t.task ≡ some TaskStatus.completed)
        × (t.action_status ≡ ActionStatus.idle)
        × (acts gx ≡ acts fx + n)
        × (failures gx ≡ failures fx)

abbrev pub EndsWell : {O : Type 0} → ℕ → WorldState → List Effect → Done O → Type 0
EndsWell n s fx (ended t o gx) = PlanEnd n s fx t gx
EndsWell n s fx (raised t o gx) = PlanRaised n s fx t gx

module _ (env : Env) where
  open env use {Outside, raises, execute_action, page_url, flag_is_set, now, fingerprint}

  EndsWell-if :
      (n : ℕ) (s : WorldState) (fx : List Effect) (test : Bool) (x y : Done Outside)
      → EndsWell n s fx x
      → EndsWell n s fx y
      → EndsWell n s fx (if test then x else y)
  EndsWell-if n s fx true x y hx hy = hx
  EndsWell-if n s fx false x y hx hy = hy

  completed-EndsWell :
      (s : WorldState) (o : Outside) (fx : List Effect)
      → has_task s.task ≡ true
      → EndsWell 0 s fx (completed env s o fx)
  unfolding completed
  completed-EndsWell s o fx h =
      let text : String = "Done — take a look at the screen." in
      let marked = mark_task TaskStatus.completed s in
      let kept = speak_result-keeps text marked in
      let speaking = speaking_result-keeps text marked in
      let tail : List Effect = emit Models.task_completed ∷ say_result text ∷ [] in
      let quiet = mark_task-IsIdle TaskStatus.completed s in
      let failing : Done Outside = raised (speaking_result text marked) o (fx ++ tail) in
      let done : Done Outside = ended (speak_result text marked) o (fx ++ tail) in
      EndsWell-if 0 s fx (raises o in_speech) failing done
        (record {
          interruption = speaking.1 ∙ quiet.interruption;
          acts_bounded = omega (arith, acts-append fx tail);
          failures_bounded = omega (arith, failures-append fx tail);
          stops = late_acts-append fx tail;
          left = inr (
            ap status_of speaking.0 ∙ status-mark_task TaskStatus.completed s h,
            speaking.2 ∙ quiet.action_status,
            omega (arith, acts-append fx tail),
            omega (arith, failures-append fx tail),
          );
        })
        (record {
          idle = record {
            interruption = kept.1 ∙ quiet.interruption;
            action_status = kept.2 ∙ quiet.action_status;
            executing = kept.3 ∙ quiet.executing;
            thinking = kept.4 ∙ quiet.thinking;
          };
          acts_bounded = omega (arith, acts-append fx tail);
          failures_bounded = omega (arith, failures-append fx tail);
          stops = late_acts-append fx tail;
          outcome = inl (
            ap status_of kept.0 ∙ status-mark_task TaskStatus.completed s h,
            omega (arith, acts-append fx tail),
            omega (arith, failures-append fx tail),
          );
        })

  cancelled-EndsWell :
      (n : ℕ) (s : WorldState) (o : Outside) (fx : List Effect)
      → has_task s.task ≡ true
      → EndsWell n s fx (cancelled env s o fx)
  unfolding cancelled
  cancelled-EndsWell n s o fx h = record {
    idle = mark_task-IsIdle TaskStatus.failed s;
    acts_bounded = omega (arith, acts-append fx (emit Models.task_cancelled ∷ []));
    failures_bounded = omega (arith, failures-append fx (emit Models.task_cancelled ∷ []));
    stops = late_acts-append fx (emit Models.task_cancelled ∷ []);
    outcome = inr (status-mark_task TaskStatus.failed s h);
  }

  -- An exception after which an action is left running.
  acting-EndsWell :
      (n : ℕ) (s t : WorldState) (o : Outside) (fx gx : List Effect)
      → IsActing s t
      → acts gx ≤ acts fx + n
      → failures gx ≤ failures fx + 1
      → (failures fx ≡ 0 → late_acts gx ≡ 0)
      → EndsWell n s fx (raised t o gx)
  acting-EndsWell n s t o fx gx acting a f stops = record {
    interruption = acting.interruption;
    acts_bounded = a;
    failures_bounded = f;
    stops = stops;
    left = inl (acting.status, acting.action_status, acting.executing);
  }

  -- It is raised before the outcome of the action is known.
  started-EndsWell :
      (n : ℕ) (s t : WorldState) (o : Outside) (fx : List Effect) (step : PlanStep)
      → IsActing s t
      → EndsWell (n + 1) s fx (raised t o (fx ++ started_effects env step))
  unfolding started_effects
  started-EndsWell n s t o fx step acting =
      let begun = started_effects env step in
      acting-EndsWell (n + 1) s t o fx (fx ++ begun) acting
        (omega (arith, acts-append fx begun, counts-started_effects env step))
        (omega (arith, failures-append fx begun, counts-started_effects env step))
        (late_acts-append fx begun)

  -- One more step before: it acted once and failed no verification.
  EndsWell-after :
      (n : ℕ) (s s' : WorldState) (fx fx' : List Effect) (d : Done Outside)
      → s'.interruption ≡ s.interruption
      → status_of s'.task ≡ status_of s.task
      → s'.agent.executing ≡ s.agent.executing
      → acts fx' ≡ acts fx + 1
      → failures fx' ≡ failures fx
      → EndsWell n s' fx' d
      → EndsWell (n + 1) s fx d
  EndsWell-after n s s' fx fx' (ended t o gx) i w x a f h = record {
    idle = record {
      interruption = h.idle.interruption ∙ i;
      action_status = h.idle.action_status;
      executing = h.idle.executing;
      thinking = h.idle.thinking;
    };
    acts_bounded = omega (arith, h.acts_bounded);
    failures_bounded = omega (arith, h.failures_bounded);
    stops = λ none_before. h.stops (f ∙ none_before);
    outcome = elim h.outcome [
      | inl all ↦ inl (all.0, omega (arith, all), omega (arith, all))
      | inr failed ↦ inr failed
    ];
  }
  EndsWell-after n s s' fx fx' (raised t o gx) i w x a f h = record {
    interruption = h.interruption ∙ i;
    acts_bounded = omega (arith, h.acts_bounded);
    failures_bounded = omega (arith, h.failures_bounded);
    stops = λ none_before. h.stops (f ∙ none_before);
    left = elim h.left [
      | inl acting ↦ inl (acting.0 ∙ w, acting.1, acting.2 ∙ x)
      | inr all ↦ inr (all.0, all.1, omega (arith, all.2), omega (arith, all.3))
    ];
  }

  -- A step that did not verify ends the plan.
  failed-EndsWell :
      (n now : ℕ) (page url : String) (step : PlanStep) (logged shot stuck : Bool) (s : WorldState)
      (o : Outside) (fx : List Effect)
      → has_task s.task ≡ true
      → let seen = (fx ++ acted_effects env step logged) ++ failed_effects env shot stuck in
        EndsWell (n + 1) s fx (
          if raises o in_speech
          then raised (speaking_failed (acted_state now page url s)) o seen
          else ended (failed_state (acted_state now page url s)) o seen)
  failed-EndsWell n now page url step logged shot stuck s o fx h =
      let acted = fx ++ acted_effects env step logged in
      let seen = acted ++ failed_effects env shot stuck in
      let no_more : acts seen ≤ acts fx + (n + 1) = omega (
        arith,
        acts-append fx (acted_effects env step logged),
        acts-append acted (failed_effects env shot stuck),
        acts-acted_effects env step logged,
        counts-failed_effects env shot stuck,
      ) in
      let one : failures seen ≤ failures fx + 1 = omega (
        arith,
        failures-append fx (acted_effects env step logged),
        failures-append acted (failed_effects env shot stuck),
        failures-acted_effects env step logged,
        counts-failed_effects env shot stuck,
      ) in
      let stops : (failures fx ≡ 0 → late_acts seen ≡ 0) = λ none_before.
        late_acts-append acted (failed_effects env shot stuck) (
          omega (
            arith,
            none_before,
            failures-append fx (acted_effects env step logged),
            failures-acted_effects env step logged,
          ))
        ∙ late_acts-failed_effects env shot stuck in
      EndsWell-if (n + 1) s fx (raises o in_speech)
        (raised (speaking_failed (acted_state now page url s)) o seen)
        (ended (failed_state (acted_state now page url s)) o seen)
        (acting-EndsWell (n + 1) s (speaking_failed (acted_state now page url s)) o fx seen
          (speaking_failed-IsActing now page url s) no_more one stops)
        (record {
          idle = failed_state-IsIdle now page url s;
          acts_bounded = no_more;
          failures_bounded = one;
          stops = stops;
          outcome = inr (status-failed_state now page url s h);
        })

  run_step-EndsWell :
      (n : ℕ) (screenshot : Bool) (idx : ℕ) (step : PlanStep)
      (rest : WorldState → Outside → List Effect → Done Outside)
      → ((s : WorldState) (o : Outside) (fx : List Effect)
          → has_task s.task ≡ true
          → EndsWell n s fx (rest s o fx))
      → (s : WorldState) (o : Outside) (fx : List Effect) → has_task s.task ≡ true
      → EndsWell (n + 1) s fx (run_step env screenshot idx step rest s o fx)
  unfolding run_step
  run_step-EndsWell n screenshot idx step rest ih s o fx h =
      let (done, o2) = execute_action (flag_is_set o).1 s.page_id step in
      let at = now (flag_is_set o).1 in
      let after = acted_state at done.next_page_id (page_url o2) s in
      let fp = fingerprint o2 after.url in
      let ok = passed_state idx fp step.spoken after in
      let kept = passed_state-keeps idx at done.next_page_id (page_url o2) fp step.spoken s in
      let acted = acted_effects env step done.logged in
      let noted = (fx ++ acted) ++ passed_effects env step in
      let one : acts noted ≡ acts fx + 1 = omega (
        arith,
        acts-append fx acted,
        acts-append (fx ++ acted) (passed_effects env step),
        acts-acted_effects env step done.logged,
        counts-passed_effects env step,
      ) in
      let no_failure : failures noted ≡ failures fx = omega (
        arith,
        failures-append fx acted,
        failures-append (fx ++ acted) (passed_effects env step),
        failures-acted_effects env step done.logged,
        counts-passed_effects env step,
      ) in
      let quiet : failures fx ≡ 0 → late_acts noted ≡ 0 = λ none_before.
        late_acts-append (fx ++ acted) (passed_effects env step) (
          omega (
            arith,
            none_before,
            failures-append fx acted,
            failures-acted_effects env step done.logged,
          ))
        ∙ late_acts-passed_effects env step in
      let begun = fx ++ started_effects env step in
      let unverified =
        (fx ++ acted) ++ failed_effects env screenshot (is_stuck (note_failure after).watchdog) in
      let early : Done Outside = cancelled env s (flag_is_set o).1 fx in
      let acting : Done Outside = raised (acting_state at s) o2 begun in
      let moved : Done Outside = raised (moved_state at done.next_page_id s) o2 begun in
      let pushing : Done Outside = raised after o2 begun in
      let failed : Done Outside =
        if raises o2 in_speech
        then raised (speaking_failed after) o2 unverified
        else ended (failed_state after) o2 unverified in
      let speaking : Done Outside = raised (speaking_passed fp step.spoken after) o2 noted in
      let late : Done Outside = cancelled env ok (flag_is_set o2).1 noted in
      let onward : Done Outside = rest ok (flag_is_set o2).1 noted in
      let last : Done Outside = if (flag_is_set o2).0 then late else onward in
      let said : Done Outside =
        if not (step.spoken == "") && raises o2 in_speech then speaking else last in
      let checked : Done Outside = if not done.passed then failed else said in
      let pushed : Done Outside = if raises o2 in_push then pushing else checked in
      let read : Done Outside = if raises o2 in_page then moved else pushed in
      let logged : Done Outside = if done.logged && raises o2 in_log then acting else read in
      let tried : Done Outside = if raises o2 in_action then acting else logged in
      let m = n + 1 in
      let raised_acting =
        started-EndsWell n s (acting_state at s) o2 fx step (acting_state-IsActing at s) in
      EndsWell-if m s fx ((flag_is_set o).0 || should_cancel_remaining_plan s) early tried
        (cancelled-EndsWell m s (flag_is_set o).1 fx h)
        (EndsWell-if m s fx (raises o2 in_action) acting logged raised_acting (
          EndsWell-if m s fx (done.logged && raises o2 in_log) acting read raised_acting (
            EndsWell-if m s fx (raises o2 in_page) moved pushed
              (started-EndsWell n s (moved_state at done.next_page_id s) o2 fx step
                (moved_state-IsActing at done.next_page_id s))
              (EndsWell-if m s fx (raises o2 in_push) pushing checked
                (started-EndsWell n s after o2 fx step
                  (acted_state-IsActing at done.next_page_id (page_url o2) s))
                (EndsWell-if m s fx (not done.passed) failed said
                  (failed-EndsWell n at done.next_page_id (page_url o2) step done.logged screenshot
                    (is_stuck (note_failure after).watchdog) s o2 fx h)
                  (EndsWell-if m s fx (not (step.spoken == "") && raises o2 in_speech) speaking last
                    (acting-EndsWell m s (speaking_passed fp step.spoken after) o2 fx noted
                      (speaking_passed-IsActing at done.next_page_id (page_url o2) fp step.spoken s)
                      (omega (arith, one)) (omega (arith, no_failure)) quiet)
                    (EndsWell-if m s fx (flag_is_set o2).0 late onward
                      (EndsWell-after n s ok fx noted late kept.0 kept.2 kept.3 one no_failure
                        (cancelled-EndsWell n ok (flag_is_set o2).1 noted (kept.1 ∙ h)))
                      (EndsWell-after n s ok fx noted onward kept.0 kept.2 kept.3 one no_failure
                        (ih ok (flag_is_set o2).1 noted (kept.1 ∙ h))))))))))

  pub execute_steps-EndsWell :
      (screenshot : Bool) (idx : ℕ) (steps : List PlanStep) (s : WorldState) (o : Outside)
      (fx : List Effect)
      → has_task s.task ≡ true
      → EndsWell (length steps) s fx (execute_steps env screenshot idx steps s o fx)
  unfolding execute_steps
  execute_steps-EndsWell screenshot idx [] s o fx h = completed-EndsWell s o fx h
  execute_steps-EndsWell screenshot idx (step ∷ steps) s o fx h =
      let rest : WorldState → Outside → List Effect → Done Outside =
        λ s' o' fx'. execute_steps env screenshot (idx + 1) steps s' o' fx' in
      subst (λ n. EndsWell n s fx (run_step env screenshot idx step rest s o fx))
        (add-one (length steps))
        (run_step-EndsWell (length steps) screenshot idx step rest
          (λ s' o' fx' h'. execute_steps-EndsWell screenshot (idx + 1) steps s' o' fx' h') s o fx h)
