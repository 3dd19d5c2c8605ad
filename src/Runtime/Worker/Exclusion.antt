-- ===== src/Runtime/Worker/Exclusion.antt =====
-- At most one thread executes, in navigator/agent_runtime/orchestrator.py.
use navigator_ai.Prelude.{
  ℕ, ◌+◌, ◌≤◌, ◌≡◌, refl, Bool, true, false, List, [], ◌∷◌, ◌++◌, arith, ap, string_eq,
}
use navigator_ai.Runtime.Worker.{
  Shared, Caller, Worker, starting, picking, clearing, running, checking, releasing, ended, System,
  init, call_step, work_step, after_call, after_work, Step, request, call, work, raise, Reach, here,
  next,
}

-- Whether a worker is between the acquisition and the release of the lock.
abbrev pub holds : Worker → ℕ
holds starting = 0
holds ended = 0
holds _ = 1

abbrev pub executes : Worker → ℕ
executes (running g) = 1
executes _ = 0

abbrev pub holders : List Worker → ℕ
holders [] = 0
holders (w ∷ ws) = holds w + holders ws

abbrev pub executing : List Worker → ℕ
executing [] = 0
executing (w ∷ ws) = executes w + executing ws

holders-append : (ws vs : List Worker) → holders (ws ++ vs) ≡ holders ws + holders vs
holders-append [] vs = omega arith
holders-append (w ∷ ws) vs = omega (arith, holders-append ws vs)

executes-le-holds : (w : Worker) → executes w ≤ holds w
executes-le-holds starting = omega arith
executes-le-holds _ = omega arith

executing-le-holders : (ws : List Worker) → executing ws ≤ holders ws
executing-le-holders [] = omega arith
executing-le-holders (w ∷ ws) = omega (arith, executing-le-holders ws, executes-le-holds w)

abbrev pub as_number : Bool → ℕ
as_number true = 1
as_number false = 0

-- The lock is held exactly while one worker is inside.
abbrev pub LockIsExact : System → Type 0
LockIsExact s = holders s.workers ≡ as_number s.shared.exec_locked

-- A worker's own step moves the lock with it; `n` counts the other workers inside.
work_step-exact :
    (w : Worker) (s : Shared) (n : ℕ)
    → n + holds w ≡ as_number s.exec_locked
    → n + holds (work_step w s).0 ≡ as_number (work_step w s).1.exec_locked
unfolding work_step
work_step-exact starting s n h = ground arith
work_step-exact picking s n h = ground arith
work_step-exact (clearing g) s n h = ground arith
work_step-exact (running g) s n h = ground arith
work_step-exact checking s n h = ground arith
work_step-exact releasing s n h = ground arith
work_step-exact ended s n h = ground arith

call_step-exact :
    (c : Caller) (s : Shared)
    → ((call_step c s).1.exec_locked ≡ s.exec_locked) × (holders (call_step c s).2 ≡ 0)
unfolding call_step
call_step-exact c s = ground arith

Step-LockIsExact : {s t : System} → Step s t → LockIsExact s → LockIsExact t
unfolding after_call after_work
Step-LockIsExact (request g e) h = rw e h
Step-LockIsExact {s} (call cs c ds p e) h =
    let moved = call_step-exact c s.shared in
    rw (e, moved.0) (omega (arith, holders-append s.workers (call_step c s.shared).2, moved.1))
Step-LockIsExact {s} (work ws w vs p e) h =
    let held : (holders ws + holders vs) + holds w ≡ as_number s.shared.exec_locked =
      omega (arith, ap holders p, h, holders-append ws (w ∷ vs)) in
    rw e (
      omega (
        arith,
        holders-append ws ((work_step w s.shared).0 ∷ vs),
        work_step-exact w s.shared (holders ws + holders vs) held,
      ))
Step-LockIsExact {s} (raise ws g vs p e) h = rw e (
    omega (
      arith,
      ap holders p,
      h,
      holders-append ws (releasing ∷ vs),
      holders-append ws (running g ∷ vs),
    ))

Reach-LockIsExact : {s t : System} → Reach s t → LockIsExact s → LockIsExact t
Reach-LockIsExact here h = h
Reach-LockIsExact (next r st) h = Step-LockIsExact st (Reach-LockIsExact r h)

-- However calls of `_request_task` and worker threads are interleaved, and whatever tasks raise,
-- at most one thread executes a task at any time, and `is_working` is true exactly when one
-- worker is between its acquisition and its release of the lock.
pub one_executor :
    {s : System}
    → Reach init s
    → (executing s.workers ≤ 1) × (holders s.workers ≡ as_number s.shared.exec_locked)
unfolding init
one_executor {s} r =
    let exact = Reach-LockIsExact r refl in
    (ground (arith, executing-le-holders s.workers, exact), exact)
