-- ===== src/Runtime/Worker.antt =====
-- The worker thread of navigator/agent_runtime/orchestrator.py: `_request_task`, called from any
-- thread, and `_worker_loop`. Each constructor of `Caller` and `Worker` is a place in the code
-- between two accesses to shared state; `_execute_task` is one step here, and may raise.
pub mod Exclusion
pub mod Races
mod Tests
use navigator_ai.Prelude.{
  String, Bool, true, false, List, [], ◌∷◌, ◌++◌, ◌≡◌, ◌==◌, string_eq, if◌then◌else◌,
}

-- `_exec_lock`, `_interrupt_flag` and `_pending_goal`, where the empty text is no goal.
pub record Shared : Type 0 where
  pub exec_locked : Bool
  pub interrupt_flag : Bool
  pub pending_goal : String

-- A call of `_request_task`.
pub data Caller : Type 0 where
  wants : String → Caller
  decides raises spawns returned : Caller

-- A thread in `_worker_loop`.
pub data Worker : Type 0 where
  starting picking : Worker
  clearing running : String → Worker
  checking releasing ended : Worker

pub record System : Type 0 where
  pub shared : Shared
  pub callers : List Caller
  pub workers : List Worker
  -- The goals whose execution was started, oldest first.
  pub ran : List String

unfoldable pub init : System
init = record {
  shared = record { exec_locked = false; interrupt_flag = false; pending_goal = "" };
  callers = [];
  workers = [];
  ran = [];
}

-- The goal is stored, `is_working` is read, and then the flag is set or a thread is started.
unfoldable pub call_step : Caller → Shared → Caller × Shared × List Worker
call_step (wants g) s = (decides, record s { pending_goal = g }, [])
call_step decides s = (if s.exec_locked then raises else spawns, s, [])
call_step raises s = (returned, record s { interrupt_flag = true }, [])
call_step spawns s = (returned, s, starting ∷ [])
call_step returned s = (returned, s, [])

unfoldable pub work_step : Worker → Shared → Worker × Shared × List String
work_step starting s =
    if s.exec_locked then (ended, s, []) else (picking, record s { exec_locked = true }, [])
work_step picking s = (clearing s.pending_goal, record s { pending_goal = "" }, [])
work_step (clearing g) s =
    let cleared = record s { interrupt_flag = false } in
    if g == "" then (releasing, cleared, []) else (running g, cleared, g ∷ [])
work_step (running g) s = (checking, s, [])
work_step checking s = (if s.pending_goal == "" then releasing else picking, s, [])
work_step releasing s = (ended, record s { exec_locked = false }, [])
work_step ended s = (ended, s, [])

unfoldable pub after_call : System → List Caller → Caller → List Caller → System
unfolding call_step
after_call s cs c ds =
    let (c', shared, spawned) = call_step c s.shared in
    record s { shared = shared; callers = cs ++ (c' ∷ ds); workers = s.workers ++ spawned }

unfoldable pub after_work : System → List Worker → Worker → List Worker → System
unfolding work_step
after_work s ws w vs =
    let (w', shared, began) = work_step w s.shared in
    record s { shared = shared; workers = ws ++ (w' ∷ vs); ran = s.ran ++ began }

-- One step of any thread, in any order.
pub data Step (s t : System) : Type 0 where
  request : (g : String) → t ≡ record s { callers = s.callers ++ wants g ∷ [] } → Step s t
  call :
      (cs : List Caller) (c : Caller) (ds : List Caller)
      → s.callers ≡ cs ++ (c ∷ ds)
      → t ≡ after_call s cs c ds
      → Step s t
  work :
      (ws : List Worker) (w : Worker) (vs : List Worker)
      → s.workers ≡ ws ++ (w ∷ vs)
      → t ≡ after_work s ws w vs
      → Step s t
  -- `_execute_task` raises, and `finally` is next.
  raise :
      (ws : List Worker) (g : String) (vs : List Worker)
      → s.workers ≡ ws ++ (running g ∷ vs)
      → t ≡ record s { workers = ws ++ (releasing ∷ vs) }
      → Step s t

pub data Reach (s : System) : System → Type 0 where
  here : Reach s s
  next : {t u : System} → Reach s t → Step t u → Reach s u
