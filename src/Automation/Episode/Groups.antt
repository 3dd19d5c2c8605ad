-- ===== src/Automation/Episode/Groups.antt =====
-- What `by_key` of navigator/automation/explore/episode.py and history.py holds: one group for
-- every element and tool, with all its attempts, in order.
use mathlib.Core.List.{append-nil, append_assoc}
use navigator_ai.Prelude.{
  ℕ, max, suc, ◌≤◌, ◌≡◌, refl, sym, ap, ◌∙◌, ◌⊎◌, inl, inr, String, Bool, true, false, Option, none,
  some, List, [], ◌∷◌, ◌++◌, ◌&&◌, Bool-cases, arith, ◌==◌, string_eq, eq_iff, if◌then◌else◌,
}
use navigator_ai.Automation.Episode.{
  StepAttempt, Group, seq_of, has_key, append_attempt, append_attempts, by_key,
}

-- The attempts of one element with one tool, in order; and the last of them.
abbrev is_for : String → String → StepAttempt → Bool
is_for k tool a = (a.element_key == k) && (a.tool == tool)

abbrev last_after : Option StepAttempt → String → String → List StepAttempt → Option StepAttempt
last_after found k tool [] = found
last_after found k tool (a ∷ xs) = last_after (if is_for k tool a then some a else found) k tool xs

abbrev pub last_for : String → String → List StepAttempt → Option StepAttempt
last_for k tool xs = last_after none k tool xs

abbrev pub attempts_for : String → String → List StepAttempt → List StepAttempt
attempts_for k tool [] = []
attempts_for k tool (a ∷ xs) =
    if is_for k tool a then a ∷ attempts_for k tool xs else attempts_for k tool xs

abbrev pub find_last : String → String → List Group → Option StepAttempt
find_last k tool [] = none
find_last k tool (g ∷ gs) = if has_key k tool g then some g.last else find_last k tool gs

abbrev pub find_seq : String → String → List Group → List StepAttempt
find_seq k tool [] = []
find_seq k tool (g ∷ gs) = if has_key k tool g then seq_of g else find_seq k tool gs

abbrev pub groups_for : String → String → List Group → ℕ
groups_for k tool [] = 0
groups_for k tool (g ∷ gs) =
    if has_key k tool g then suc (groups_for k tool gs) else groups_for k tool gs

find_last-append_attempt :
    (k tool : String) (a : StepAttempt) (gs : List Group)
    → find_last k tool (append_attempt a gs)
      ≡ (if is_for k tool a then some a else find_last k tool gs)
unfolding append_attempt
find_last-append_attempt k tool a [] = refl
find_last-append_attempt k tool a (g ∷ gs) = ground (
  arith,
  find_last-append_attempt k tool a gs,
  eq_iff g.element_key a.element_key,
  eq_iff g.tool a.tool,
  eq_iff g.element_key k,
  eq_iff g.tool tool,
  eq_iff a.element_key k,
  eq_iff a.tool tool,
)

find_last-append_attempts :
    (k tool : String) (xs : List StepAttempt) (gs : List Group)
    → find_last k tool (append_attempts xs gs) ≡ last_after (find_last k tool gs) k tool xs
unfolding append_attempts
find_last-append_attempts k tool [] gs = refl
find_last-append_attempts k tool (a ∷ xs) gs =
    find_last-append_attempts k tool xs (append_attempt a gs)
    ∙ ap (λ o. last_after o k tool xs) (find_last-append_attempt k tool a gs)

groups_for-append_attempt-eq :
    (k tool : String) (a : StepAttempt) (gs : List Group)
    → groups_for k tool (append_attempt a gs)
      ≡ (if is_for k tool a then max 1 (groups_for k tool gs) else groups_for k tool gs)
unfolding append_attempt
groups_for-append_attempt-eq k tool a [] = ground arith
groups_for-append_attempt-eq k tool a (g ∷ gs) = ground (
  arith,
  groups_for-append_attempt-eq k tool a gs,
  eq_iff g.element_key a.element_key,
  eq_iff g.tool a.tool,
  eq_iff g.element_key k,
  eq_iff g.tool tool,
  eq_iff a.element_key k,
  eq_iff a.tool tool,
)

groups_for-append_attempt :
    (k tool : String) (a : StepAttempt) (gs : List Group)
    → groups_for k tool gs ≤ 1
    → groups_for k tool (append_attempt a gs) ≤ 1
unfolding append_attempt
groups_for-append_attempt k tool a gs h = ground (arith, groups_for-append_attempt-eq k tool a gs)

groups_for-append_attempts :
    (k tool : String) (xs : List StepAttempt) (gs : List Group)
    → groups_for k tool gs ≤ 1
    → groups_for k tool (append_attempts xs gs) ≤ 1
unfolding append_attempts
groups_for-append_attempts k tool [] gs h = h
groups_for-append_attempts k tool (a ∷ xs) gs h =
    groups_for-append_attempts k tool xs (append_attempt a gs)
      (groups_for-append_attempt k tool a gs h)

find_seq-append_attempt :
    (k tool : String) (a : StepAttempt) (gs : List Group)
    → find_seq k tool (append_attempt a gs)
      ≡ (if is_for k tool a then find_seq k tool gs ++ a ∷ [] else find_seq k tool gs)
unfolding append_attempt seq_of
find_seq-append_attempt k tool a [] = refl
find_seq-append_attempt k tool a (g ∷ gs) = ground (
  arith,
  find_seq-append_attempt k tool a gs,
  eq_iff g.element_key a.element_key,
  eq_iff g.tool a.tool,
  eq_iff g.element_key k,
  eq_iff g.tool tool,
  eq_iff a.element_key k,
  eq_iff a.tool tool,
)

find_seq-append_attempts :
    (k tool : String) (xs : List StepAttempt) (gs : List Group)
    → find_seq k tool (append_attempts xs gs) ≡ find_seq k tool gs ++ attempts_for k tool xs
unfolding append_attempts
find_seq-append_attempts k tool [] gs = sym (append-nil _)
find_seq-append_attempts k tool (a ∷ xs) gs =
    find_seq-append_attempts k tool xs (append_attempt a gs)
    ∙ (ap (λ ys. ys ++ attempts_for k tool xs) (find_seq-append_attempt k tool a gs)
        ∙ one_more (Bool-cases (is_for k tool a)))
  where
    one_more :
        (is_for k tool a ≡ true) ⊎ (is_for k tool a ≡ false)
        → (if is_for k tool a then find_seq k tool gs ++ a ∷ [] else find_seq k tool gs)
            ++ attempts_for k tool xs
          ≡ find_seq k tool gs ++ attempts_for k tool (a ∷ xs)
    one_more (inl e) = rw e (append_assoc (find_seq k tool gs) (a ∷ []) (attempts_for k tool xs))
    one_more (inr e) = rw e refl

-- Grouping an episode's attempts puts those of an element with a tool into at most one group,
-- which holds exactly these attempts in the order they were made, so that its last attempt is the last one made
-- for that element with that tool.
pub by_key-Partitions :
    (k tool : String) (xs : List StepAttempt)
    → (groups_for k tool (by_key xs) ≤ 1)
      × (find_seq k tool (by_key xs) ≡ attempts_for k tool xs)
      × (find_last k tool (by_key xs) ≡ last_for k tool xs)
by_key-Partitions k tool xs = (
  groups_for-append_attempts k tool xs [] (omega arith),
  find_seq-append_attempts k tool xs [],
  find_last-append_attempts k tool xs [],
)
