-- ===== src/Runtime/Backchannel/Turns.antt =====
-- How often navigator/agent_runtime/backchannel.py nudges in a turn, and over turns.
use navigator_ai.Prelude.{
  ℕ, ◌+◌, ◌-◌, ◌≤◌, ◌≡◌, refl, Bool, true, false, not, List, [], ◌∷◌, ltb, leb, arith,
  if◌then◌else◌, length,
}
use navigator_ai.Runtime.Pace.{IsPaced, IsPaced-le}
use navigator_ai.Runtime.Backchannel.{Backchannel, new_backchannel, reset_turn, maybe_backchannel}

-- A call of `maybe_backchannel`.
pub record Attempt : Type 0 where
  pub raises : Bool
  pub now : ℕ

unfoldable pub attempt_all : List Attempt → Backchannel → Backchannel
attempt_all [] b = b
attempt_all (a ∷ tries) b = attempt_all tries (maybe_backchannel a.raises a.now b).1

unfoldable pub turns : List (List Attempt) → Backchannel → Backchannel
turns [] b = b
turns (t ∷ ts) b = turns ts (attempt_all t (reset_turn b))

-- The times do not go backwards, and where they end.
abbrev pub InOrder : ℕ → List Attempt → Type 0
InOrder t [] = Unit
InOrder t (a ∷ tries) = (t ≤ a.now) × InOrder a.now tries

abbrev pub last_time : ℕ → List Attempt → ℕ
last_time t [] = t
last_time t (a ∷ tries) = last_time a.now tries

abbrev pub TurnsInOrder : ℕ → List (List Attempt) → Type 0
TurnsInOrder t [] = Unit
TurnsInOrder t (tries ∷ ts) = InOrder t tries × TurnsInOrder (last_time t tries) ts

record KeepsPace (gap t : ℕ) (b : Backchannel) : Type 0 where
  interval : b.min_interval ≡ gap
  past : b.last_backchannel_at ≤ t
  paced : IsPaced gap (b.last_backchannel_at + gap) b.sent

KeepsPace-if :
    (gap t : ℕ) (test : Bool) (x y : Bool × Backchannel)
    → KeepsPace gap t x.1
    → (test ≡ false → KeepsPace gap t y.1)
    → KeepsPace gap t (if test then x else y).1
KeepsPace-if gap t true x y hx hy = hx
KeepsPace-if gap t false x y hx hy = hy refl

KeepsPace-try :
    (gap t : ℕ) (a : Attempt) (b : Backchannel)
    → t ≤ a.now
    → KeepsPace gap t b
    → KeepsPace gap a.now (maybe_backchannel a.raises a.now b).1
unfolding maybe_backchannel
KeepsPace-try gap t a b h k =
    let same : KeepsPace gap a.now b = record {
      interval = k.interval;
      past = omega (arith, h, k.past);
      paced = k.paced;
    } in
    KeepsPace-if gap a.now (not b.has_nudge_fn) (false, b) _ same
      λ _.
        KeepsPace-if gap a.now (ltb (a.now - b.last_backchannel_at) b.min_interval) (false, b) _
          same
          λ late.
            KeepsPace-if gap a.now (leb b.max_per_turn b.this_turn_count) (false, b) _ same
              λ _. record {
                interval = k.interval;
                past = omega arith;
                paced = (
                  omega arith,
                  IsPaced-le gap (b.last_backchannel_at + gap) a.now b.sent
                      (ground (arith, late, same.interval, same.past)) k.paced,
                );
              }

KeepsPace-turn :
    (gap t : ℕ) (tries : List Attempt) (b : Backchannel)
    → InOrder t tries
    → KeepsPace gap t b
    → KeepsPace gap (last_time t tries) (attempt_all tries b)
unfolding attempt_all
KeepsPace-turn gap t [] b o k = k
KeepsPace-turn gap t (a ∷ tries) b o k =
    KeepsPace-turn gap a.now tries (maybe_backchannel a.raises a.now b).1 o.1
      (KeepsPace-try gap t a b o.0 k)

KeepsPace-reset_turn :
    (gap t : ℕ) (b : Backchannel) → KeepsPace gap t b → KeepsPace gap t (reset_turn b)
unfolding reset_turn
KeepsPace-reset_turn gap t b k = record { interval = k.interval; past = k.past; paced = k.paced }

KeepsPace-turns :
    (gap t : ℕ) (ts : List (List Attempt)) (b : Backchannel)
    → TurnsInOrder t ts
    → KeepsPace gap t b
    → IsPaced gap ((turns ts b).last_backchannel_at + gap) (turns ts b).sent
unfolding turns
KeepsPace-turns gap t [] b o k = k.paced
KeepsPace-turns gap t (tries ∷ ts) b o k =
    KeepsPace-turns gap (last_time t tries) ts (attempt_all tries (reset_turn b)) o.1
      (KeepsPace-turn gap t tries (reset_turn b) o.0 (KeepsPace-reset_turn gap t b k))

-- What is left of the turn's allowance bounds what is sent.
length-attempt_all-le :
    (tries : List Attempt) (b : Backchannel)
    → b.this_turn_count ≤ b.max_per_turn
    → length (attempt_all tries b).sent + b.this_turn_count ≤ length b.sent + b.max_per_turn
unfolding attempt_all maybe_backchannel
length-attempt_all-le [] b h = omega (arith, h)
length-attempt_all-le (a ∷ tries) b h =
    ground (arith, h, length-attempt_all-le tries (maybe_backchannel a.raises a.now b).1)

-- From any state, a turn in which the floor is held sends at most as many nudges as are allowed
-- for a turn; and over all turns of a new controller, if the clock does not run backwards, two
-- nudges are at least the minimal interval apart.
turns-IsPaced :
    (tries : List Attempt) (b : Backchannel) (has_nudge_fn : Bool) (gap allowed : ℕ)
    (ts : List (List Attempt))
    → TurnsInOrder 0 ts
    → let c = turns ts (new_backchannel has_nudge_fn gap allowed) in
      (length (attempt_all tries (reset_turn b)).sent ≤ length b.sent + b.max_per_turn)
      × IsPaced gap (c.last_backchannel_at + gap) c.sent
unfolding new_backchannel reset_turn
turns-IsPaced tries b has_nudge_fn gap allowed ts o = (
  omega (arith, length-attempt_all-le tries (reset_turn b) (omega arith)),
  KeepsPace-turns gap 0 ts (new_backchannel has_nudge_fn gap allowed) o
      (record { interval = refl; past = omega arith; paced = tt }),
)
