-- ===== src/Runtime/Progress/Pace.antt =====
-- How often navigator/agent_runtime/progress_feed.py nudges.
use navigator_ai.Prelude.{
  ℕ, ◌+◌, ◌-◌, ◌≤◌, ◌≡◌, refl, String, Bool, true, false, ◌||◌, not, Option, none, some, List, [],
  ◌∷◌, ltb, ◌==◌, string_eq, nat_eq, arith, Bool-cases, inl, inr, if◌then◌else◌,
}
use navigator_ai.Runtime.Delegate.{TaskEvent}
use navigator_ai.Runtime.Pace.{IsPaced, IsPaced-le}
use navigator_ai.Runtime.Progress.{
  Nudge, Feed, new_feed, context_hint, is_created, maybe_nudge, with_detail, on_task_event,
  still_working, maybe_progress_nudge,
}

-- A call while tasks run: an event, or the periodic look.
pub data Call : Type 0 where
  event : TaskEvent → ℕ → Call
  look : String → ℕ → Call

abbrev pub time_of : Call → ℕ
time_of (event e now) = now
time_of (look goal now) = now

unfoldable pub run_call : Call → Feed → Feed
run_call (event e now) f = on_task_event e now f
run_call (look goal now) f = maybe_progress_nudge goal now f

unfoldable pub run : List Call → Feed → Feed
run [] f = f
run (c ∷ cs) f = run cs (run_call c f)

abbrev pub InOrder : ℕ → List Call → Type 0
InOrder t [] = Unit
InOrder t (c ∷ cs) = (t ≤ time_of c) × InOrder (time_of c) cs

abbrev pub times : List Nudge → List ℕ
times [] = []
times (n ∷ ns) = n.at ∷ times ns

-- What holds at the time `t`.
record KeepsPace (gap t : ℕ) (f : Feed) : Type 0 where
  interval : f.min_interval ≡ gap
  past : f.last_nudge_at ≤ t
  paced : IsPaced gap (f.last_nudge_at + gap) (times f.nudges)

KeepsPace-if :
    (gap t : ℕ) (test : Bool) (x y : Feed)
    → KeepsPace gap t x
    → (test ≡ false → KeepsPace gap t y)
    → KeepsPace gap t (if test then x else y)
KeepsPace-if gap t true x y hx hy = hx
KeepsPace-if gap t false x y hx hy = hy refl

KeepsPace-later : (gap t u : ℕ) (f : Feed) → t ≤ u → KeepsPace gap t f → KeepsPace gap u f
KeepsPace-later gap t u f h k = record {
  interval = k.interval;
  past = omega (arith, k.past);
  paced = k.paced;
}

KeepsPace-maybe_nudge :
    (gap now : ℕ) (hint : String) (f : Feed)
    → KeepsPace gap now f
    → KeepsPace gap now (maybe_nudge hint now f)
unfolding maybe_nudge
KeepsPace-maybe_nudge gap now hint f k =
    KeepsPace-if gap now (not f.has_nudge || hint == "") f _ k λ _.
      KeepsPace-if gap now (ltb (now - f.last_nudge_at) f.min_interval) f _ k λ late. record {
        interval = k.interval;
        past = omega arith;
        paced = (
          omega arith,
          IsPaced-le gap (f.last_nudge_at + gap) now (times f.nudges)
              (ground (arith, late, k.interval, k.past)) k.paced,
        );
      }

KeepsPace-started :
    (gap t now : ℕ) (f : Feed)
    → t ≤ now
    → KeepsPace gap t f
    → KeepsPace gap now (record f { task_start_at = now; last_nudge_at = now })
KeepsPace-started gap t now f h k = record {
  interval = k.interval;
  past = omega arith;
  paced =
      IsPaced-le gap (f.last_nudge_at + gap) (now + gap) (times f.nudges) (omega (arith, k.past))
        k.paced;
}

KeepsPace-call :
    (gap t : ℕ) (c : Call) (f : Feed)
    → t ≤ time_of c
    → KeepsPace gap t f
    → KeepsPace gap (time_of c) (run_call c f)
unfolding run_call on_task_event maybe_progress_nudge
KeepsPace-call gap t (event e now) f h k = elim (Bool-cases (is_created e.status)) [
  | inl new ↦ rw new (KeepsPace-started gap t now f h k)
  | inr old ↦ rw old (by_hint (context_hint e.status))
]
  where
    by_hint :
        (hint : Option String)
        → KeepsPace gap now
            (elim hint [ none ↦ f | some h ↦ maybe_nudge (with_detail h e.detail) now f ])
    by_hint none = KeepsPace-later gap t now f h k
    by_hint (some hint) =
        KeepsPace-maybe_nudge gap now (with_detail hint e.detail) f
          (KeepsPace-later gap t now f h k)
KeepsPace-call gap t (look goal now) f h k =
    let later = KeepsPace-later gap t now f h k in
    KeepsPace-if gap now (f.task_start_at == 0) f _ later λ _.
      KeepsPace-if gap now (ltb (now - f.task_start_at) f.progress_threshold) f _ later
        λ _. KeepsPace-maybe_nudge gap now (still_working goal) f later

KeepsPace-run :
    (gap t : ℕ) (cs : List Call) (f : Feed)
    → InOrder t cs
    → KeepsPace gap t f
    → IsPaced gap ((run cs f).last_nudge_at + gap) (times (run cs f).nudges)
unfolding run
KeepsPace-run gap t [] f o k = k.paced
KeepsPace-run gap t (c ∷ cs) f o k =
    KeepsPace-run gap (time_of c) cs (run_call c f) o.1 (KeepsPace-call gap t c f o.0 k)

-- Whatever events arrive and however often the feed is looked at, if the clock does not run
-- backwards and the feed is not reset, two nudges are at least the minimal interval apart.
run-IsPaced :
    (has_nudge : Bool) (gap threshold : ℕ) (cs : List Call)
    → InOrder 0 cs
    → let f = run cs (new_feed has_nudge gap threshold) in
      IsPaced gap (f.last_nudge_at + gap) (times f.nudges)
unfolding new_feed
run-IsPaced has_nudge gap threshold cs o =
    KeepsPace-run gap 0 cs (new_feed has_nudge gap threshold) o
      (record { interval = refl; past = omega arith; paced = tt })
