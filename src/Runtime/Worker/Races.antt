-- ===== src/Runtime/Worker/Races.antt =====
-- Two interleavings of navigator/agent_runtime/orchestrator.py in which a request goes wrong, and
-- the schedule in which it does not.
use navigator_ai.Prelude.{
  ◌≤◌, ◌∙◌, sym, ap, subst, length, length-append, arith, ◌≡◌, refl, String, Bool, true, false,
  List, [], ◌∷◌, ◌++◌, ◌==◌, string_eq,
}
use mathlib.Core.List.{append-nil}
use navigator_ai.Runtime.Worker.{
  Caller, wants, decides, raises, spawns, returned, Worker, starting, picking, clearing, running,
  checking, releasing, ended, call_step, work_step, Step, raise, System, init, after_call,
  after_work, request, call, work, Reach, here, next,
}

-- A schedule: which thread makes the next step, by its position, or a new request.
pub data Turn : Type 0 where
  ask : String → Turn
  first_caller second_caller first_worker : Turn

-- The state after a turn; a turn of a thread that is not there changes nothing.
turn_call : System → List Caller → System
turn_call s (c ∷ ds) = after_call s [] c ds
turn_call s [] = s

turn_second : System → List Caller → System
turn_second s (b ∷ c ∷ ds) = after_call s (b ∷ []) c ds
turn_second s _ = s

turn_work : System → List Worker → System
turn_work s (w ∷ vs) = after_work s [] w vs
turn_work s [] = s

unfoldable pub turn : System → Turn → System
unfolding turn_call turn_second turn_work after_call after_work
turn s (ask g) = record s { callers = s.callers ++ wants g ∷ [] }
turn s first_caller = turn_call s s.callers
turn s second_caller = turn_second s s.callers
turn s first_worker = turn_work s s.workers

unfoldable pub play : System → List Turn → System
unfolding turn
play s [] = s
play s (x ∷ xs) = play (turn s x) xs

Reach-call : (r s : System) (l : List Caller) → s.callers ≡ l → Reach r s → Reach r (turn_call s l)
unfolding turn_call
Reach-call r s [] e h = h
Reach-call r s (c ∷ ds) e h = next h (call [] c ds e refl)

Reach-second :
    (r s : System) (l : List Caller) → s.callers ≡ l → Reach r s → Reach r (turn_second s l)
unfolding turn_second
Reach-second r s [] e h = h
Reach-second r s (b ∷ []) e h = h
Reach-second r s (b ∷ c ∷ ds) e h = next h (call (b ∷ []) c ds e refl)

Reach-work : (r s : System) (l : List Worker) → s.workers ≡ l → Reach r s → Reach r (turn_work s l)
unfolding turn_work
Reach-work r s [] e h = h
Reach-work r s (w ∷ vs) e h = next h (work [] w vs e refl)

Reach-turn : (r s : System) (x : Turn) → Reach r s → Reach r (turn s x)
unfolding turn
Reach-turn r s (ask g) h = next h (request g refl)
Reach-turn r s first_caller h = Reach-call r s s.callers refl h
Reach-turn r s second_caller h = Reach-second r s s.callers refl h
Reach-turn r s first_worker h = Reach-work r s s.workers refl h

-- Every schedule is an interleaving of steps.
pub Reach-play : (r s : System) (xs : List Turn) → Reach r s → Reach r (play s xs)
unfolding play
Reach-play r s [] h = h
Reach-play r s (x ∷ xs) h = Reach-play r (turn s x) xs (Reach-turn r s x h)

Reach-trans : (r s t : System) → Reach r s → Reach s t → Reach r t
Reach-trans r s t h here = h
Reach-trans r s t h (next {t = u} k step) = next (Reach-trans r s u h k) step

abbrev pub start_first : String → List Turn
start_first g =
    ask g
    ∷ first_caller
    ∷ first_caller
    ∷ first_caller
    ∷ first_worker
    ∷ first_worker
    ∷ first_worker
    ∷ []

-- The first goal is executed, and its worker has looked for another one in vain.
abbrev pub about_to_release : String → List Turn
about_to_release g = start_first g ++ first_worker ∷ first_worker ∷ []

-- The second request is made there and sees the lock; the worker releases it before the flag is set.
abbrev pub late_request : String → List Turn
late_request h = ask h ∷ second_caller ∷ second_caller ∷ first_worker ∷ second_caller ∷ []

abbrev AllAre : {A : Type 0} → A → List A → Type 0
AllAre a [] = Unit {0}
AllAre a (x ∷ xs) = (x ≡ a) × AllAre a xs

AllAre-middle : {A : Type 0} (a x : A) (xs ys : List A) → AllAre a (xs ++ (x ∷ ys)) → x ≡ a
AllAre-middle a x [] ys h = h.0
AllAre-middle a x (y ∷ xs) ys h = AllAre-middle a x xs ys h.1

AllAre-replace :
    {A : Type 0} (a x y : A) (xs ys : List A)
    → AllAre a (xs ++ (x ∷ ys))
    → y ≡ a
    → AllAre a (xs ++ (y ∷ ys))
AllAre-replace a x y [] ys h e = (e, h.1)
AllAre-replace a x y (z ∷ xs) ys h e = (h.0, AllAre-replace a x y xs ys h.1 e)

-- All calls have returned, all workers have ended, the lock is free, and a goal is pending.
record IsLost (h : String) (ran : List String) (s : System) : Type 0 where
  callers : AllAre returned s.callers
  workers : AllAre ended s.workers
  unlocked : s.shared.exec_locked ≡ false
  pending : s.shared.pending_goal ≡ h
  ran_before : s.ran ≡ ran

length-step : (s t : System) → Step s t → length s.callers ≤ length t.callers
unfolding after_call after_work
length-step s t (request g e) =
    omega (arith, length-append s.callers (wants g ∷ []), ap (λ u. length u.callers) e)
length-step s t (call cs c ds at e) = omega (
  arith,
  ap length at,
  ap (λ u. length u.callers) e,
  length-append cs (c ∷ ds),
  length-append cs ((call_step c s.shared).0 ∷ ds),
)
length-step s t (work ws w vs at e) = omega (arith, ap (λ u. length u.callers) e)
length-step s t (raise ws g vs at e) = omega (arith, ap (λ u. length u.callers) e)

length-Reach : (s t : System) → Reach s t → length s.callers ≤ length t.callers
length-Reach s t here = omega arith
length-Reach s t (next {t = u} r step) = omega (arith, length-Reach s u r, length-step u t step)

IsLost-call :
    (h : String) (ran : List String) (s : System) (cs : List Caller) (c : Caller) (ds : List Caller)
    → s.callers ≡ cs ++ (c ∷ ds)
    → c ≡ returned
    → IsLost h ran s
    → IsLost h ran (after_call s cs c ds)
unfolding after_call call_step
IsLost-call h ran s cs returned ds at e l = record {
  callers = subst (AllAre returned) at l.callers;
  workers = subst (AllAre ended) (sym (append-nil s.workers)) l.workers;
  unlocked = l.unlocked;
  pending = l.pending;
  ran_before = l.ran_before;
}
IsLost-call h ran s cs (wants g) ds at e l = cc
IsLost-call h ran s cs decides ds at e l = cc
IsLost-call h ran s cs raises ds at e l = cc
IsLost-call h ran s cs spawns ds at e l = cc

IsLost-work :
    (h : String) (ran : List String) (s : System) (ws : List Worker) (w : Worker) (vs : List Worker)
    → s.workers ≡ ws ++ (w ∷ vs)
    → w ≡ ended
    → IsLost h ran s
    → IsLost h ran (after_work s ws w vs)
unfolding after_work work_step
IsLost-work h ran s ws ended vs at e l = record {
  callers = l.callers;
  workers = subst (AllAre ended) at l.workers;
  unlocked = l.unlocked;
  pending = l.pending;
  ran_before = append-nil s.ran ∙ l.ran_before;
}
IsLost-work h ran s ws starting vs at e l = cc
IsLost-work h ran s ws picking vs at e l = cc
IsLost-work h ran s ws (clearing g) vs at e l = cc
IsLost-work h ran s ws (running g) vs at e l = cc
IsLost-work h ran s ws checking vs at e l = cc
IsLost-work h ran s ws releasing vs at e l = cc

-- Without a further call nothing happens any more.
IsLost-step :
    (h : String) (ran : List String) (s t : System)
    → length t.callers ≤ length s.callers
    → Step s t
    → IsLost h ran s
    → IsLost h ran t
IsLost-step h ran s t n (request g e) l =
    absurd (omega (arith, n, length-append s.callers (wants g ∷ []), ap (λ u. length u.callers) e))
IsLost-step h ran s t n (call cs c ds at e) l = subst (IsLost h ran) (sym e) (
    IsLost-call h ran s cs c ds at
      (AllAre-middle returned c cs ds (subst (AllAre returned) at l.callers)) l)
IsLost-step h ran s t n (work ws w vs at e) l = subst (IsLost h ran) (sym e) (
    IsLost-work h ran s ws w vs at (AllAre-middle ended w ws vs (subst (AllAre ended) at l.workers))
      l)
IsLost-step h ran s t n (raise ws g vs at e) l =
    let not_running : running g ≡ ended =
      AllAre-middle ended (running g) ws vs (subst (AllAre ended) at l.workers) in
    cc

IsLost-Reach :
    (h : String) (ran : List String) (s t : System)
    → length t.callers ≤ length s.callers
    → Reach s t
    → IsLost h ran s
    → IsLost h ran t
IsLost-Reach h ran s t n here l = l
IsLost-Reach h ran s t n (next {t = u} r step) l =
    IsLost-step h ran u t (omega (arith, n, length-Reach s u r)) step
      (IsLost-Reach h ran s u (omega (arith, n, length-step u t step)) r l)

-- There is an interleaving in which a request is lost, for any two goals that are not empty. After
-- the first goal was executed, its worker has found no other goal and has still to release the
-- lock; the call of `_request_task` has returned. If the second goal is requested then, and
-- the call sees the lock before the worker releases it, the second goal is never executed
-- unless there is a further request: in every state that any later steps lead to with these two
-- calls only, it is still pending, only the first goal was run, and the lock is free.
pub request_lost :
    (g h : String)
    → (g == "") ≡ false
    → (h == "") ≡ false
    → (t : System) → Reach (play (play init (about_to_release g)) (late_request h)) t
    → length t.callers ≡ 2
    → let s = play init (about_to_release g) in
      (Reach init s × (s.workers ≡ releasing ∷ []) × (s.callers ≡ returned ∷ []))
      × Reach init t
      × (t.shared.pending_goal ≡ h)
      × (t.shared.exec_locked ≡ false)
      × (t.ran ≡ g ∷ [])
unfolding play init
request_lost g h gn hn t later two =
    let s = play init (about_to_release g) in
    let reached = Reach-play init init (about_to_release g) here in
    let end = play s (late_request h) in
    let lost_at_once : IsLost h (g ∷ []) end = record {
      callers = rw gn (refl, (refl, tt));
      workers = rw gn (refl, tt);
      unlocked = rw gn refl;
      pending = rw gn refl;
      ran_before = rw gn refl;
    } in
    let lost = IsLost-Reach h (g ∷ []) end t (omega (arith, two)) later lost_at_once in
    (
      (reached, rw gn refl, refl),
      Reach-trans init end t (Reach-play init s (late_request h) reached) later,
      lost.pending,
      lost.unlocked,
      lost.ran_before,
    )

-- The second request sees the lock, and raises the flag only after the worker has taken its goal.
abbrev late_flag : String → String → List Turn
late_flag g h =
    start_first g
    ++ ask h
      ∷ second_caller
      ∷ first_worker
      ∷ first_worker
      ∷ first_worker
      ∷ first_worker
      ∷ second_caller
      ∷ second_caller
      ∷ []

-- For any two goals that are not empty there is an interleaving in which the execution of the
-- second one is interrupted by its own request: it runs with the interrupt flag set, every call
-- has returned, and no goal is pending that could replace it.
own_request_interrupts :
    (g h : String)
    → (g == "") ≡ false
    → (h == "") ≡ false
    → (s : System) × Reach init s
      × (s.callers ≡ returned ∷ returned ∷ [])
      × (s.workers ≡ running h ∷ [])
      × (s.shared.interrupt_flag ≡ true)
      × (s.shared.pending_goal ≡ "")
      × (s.ran ≡ g ∷ h ∷ [])
unfolding play init
own_request_interrupts g h gn hn = (
  play init (late_flag g h),
  Reach-play init init (late_flag g h) here,
  rw gn (rw hn (rw hn refl)),
  rw gn (rw hn (rw hn refl)),
  rw gn (rw hn (rw hn refl)),
  rw gn (rw hn (rw hn refl)),
  rw gn (rw hn (rw hn refl)),
)

abbrev pub quiet : Bool → String → List String → System
quiet flag stale ran = record {
  shared = record { exec_locked = false; interrupt_flag = flag; pending_goal = stale };
  callers = [];
  workers = [];
  ran = ran;
}

-- A request for a goal that is not empty is executed if nothing interferes with it: from a quiet
-- state, whatever the flag and the stale goal are, the goal is the next one to run, and the lock
-- is free and nothing is pending when its worker has ended.
lone_request_runs :
    (g stale : String) (flag : Bool) (ran : List String)
    → (g == "") ≡ false
    → let s =
        play
          (quiet flag stale ran)
          (start_first g ++ first_worker ∷ first_worker ∷ first_worker ∷ []) in
      (s.ran ≡ ran ++ g ∷ [])
      × (s.callers ≡ returned ∷ [])
      × (s.workers ≡ ended ∷ [])
      × (s.shared ≡ record { exec_locked = false; interrupt_flag = false; pending_goal = "" })
unfolding play
lone_request_runs g stale flag ran gn = rw gn (simp append-nil, refl, refl, refl)
