-- ===== src/Runtime/Watchdog/Loops.antt =====
-- Loop detection of navigator/agent_runtime/watchdog.py over whole sequences of visits.
use navigator_ai.Prelude.{
  ℕ, ◌+◌, ◌-◌, ◌≤◌, ◌≡◌, refl, ◌∙◌, ap, sym, String, List, [], ◌∷◌, ◌++◌, leb, length, drop, arith,
  length-append, string_eq,
}
use mathlib.Core.List.{append_assoc, append-nil}
use navigator_ai.Runtime.Models.{WatchdogSlice, fresh_watchdog}
use navigator_ai.Runtime.Watchdog.{count, last_n, record_state}

unfoldable pub visit_all : WatchdogSlice → List String → WatchdogSlice
visit_all w [] = w
visit_all w (fp ∷ fps) = visit_all (record_state w fp) fps

last_n_of_le : (n : ℕ) (xs : List String) → length xs ≤ n → last_n n xs ≡ xs
last_n_of_le n xs h = let fits : length xs - n ≡ 0 = omega arith in ap (λ k. drop k xs) fits

visited_states-record_state :
    (w : WatchdogSlice) (fp : String)
    → length w.visited_states ≤ 100
    → (record_state w fp).visited_states ≡ w.visited_states ++ fp ∷ []
unfolding record_state
visited_states-record_state w fp h =
    ap (λ (xs : List String). xs ++ fp ∷ []) (last_n_of_le 100 w.visited_states h)

visited_states-visit_all :
    (w : WatchdogSlice) (fps : List String)
    → length w.visited_states + length fps ≤ 101
    → (visit_all w fps).visited_states ≡ w.visited_states ++ fps
unfolding visit_all
visited_states-visit_all w [] h = sym (append-nil w.visited_states)
visited_states-visit_all w (fp ∷ fps) h =
    let kept = visited_states-record_state w fp (omega arith) in
    let longer : length (record_state w fp).visited_states + length fps ≤ 101 =
      rw kept (omega (arith, length-append {0} w.visited_states (fp ∷ []))) in
    visited_states-visit_all (record_state w fp) fps longer
    ∙ rw kept (append_assoc w.visited_states (fp ∷ []) fps)

visit_all-append :
    (w : WatchdogSlice) (fps : List String) (fp : String)
    → visit_all w (fps ++ fp ∷ []) ≡ record_state (visit_all w fps) fp
unfolding visit_all
visit_all-append w [] fp = refl
visit_all-append w (x ∷ fps) fp = visit_all-append (record_state w x) fps fp

-- From a new slice, as long as at most 101 states were visited before, the loop flag after a visit
-- says exactly whether the same fingerprint was visited at least twice before: the third visit is
-- the first one that is reported, not the second.
pub loop_detected_iff_third_visit :
    (fps : List String) (fp : String)
    → length fps ≤ 101
    → (visit_all fresh_watchdog (fps ++ fp ∷ [])).loop_detected ≡ leb 2 (count fps fp)
unfolding record_state
loop_detected_iff_third_visit fps fp h = rw visit_all-append (
    ap (λ (xs : List String). leb 2 (count xs fp))
      (visited_states-visit_all fresh_watchdog fps (omega arith)))
