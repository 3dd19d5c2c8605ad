-- ===== src/Runtime/Realtime/Reports.antt =====
-- Calls of `transition` of navigator/agent_runtime/realtime_state.py at the same time. A call is a
-- step under the lock, then, if the state changed, a call of `add_context`, and then one of the
-- callback; between these, other threads make theirs.
use navigator_ai.Prelude.{
  ℕ, zero, suc, String, ◌+◌, ◌≡◌, refl, sym, ap, Bool, true, false, Option, none, some, List, [],
  ◌∷◌, ◌++◌, arith, ◌==◌, inl, inr, get_elem?, if◌then◌else◌, Bool-cases,
}
use navigator_ai.Runtime.Realtime.{
  RealtimeState, state_eq, with_context, Controller, context_nonempty, state_context, enter,
  push_context, tell_change, new_controller,
}
use navigator_ai.Runtime.Realtime.Transitions.{Request, context_of}

abbrev pub Change : Type 0
Change = RealtimeState × RealtimeState

-- What a call has still to do.
pub data Due : Type 0 where
  context_due callback_due : Change → Due

abbrev change_of : Due → Change
change_of (context_due e) = e
change_of (callback_due e) = e

pub record Shared : Type 0 where
  pub controller : Controller
  pub pending : List Due
  -- The changes in the order in which the lock was held.
  pub made : List Change

-- A new call, or the next step of the pending one at a position.
pub data Turn : Type 0 where
  enters : Request → Turn
  goes_on : ℕ → Turn

abbrev entered_by : Request → Option RealtimeState → Controller → Shared → Shared
entered_by r none c s = record s { controller = c }
entered_by r (some old) c s = record {
  controller = c;
  pending = s.pending ++ context_due (old, r.to) ∷ [];
  made = s.made ++ (old, r.to) ∷ [];
}

unfoldable replace_at : ℕ → List Due → List Due → List Due
replace_at i ys [] = []
replace_at zero ys (x ∷ xs) = ys ++ xs
replace_at (suc i) ys (x ∷ xs) = x ∷ replace_at i ys xs

unfoldable carry_on : ℕ → Option Due → Shared → Shared
unfolding replace_at push_context tell_change
carry_on i none s = s
carry_on i (some (context_due e)) s = record s {
  controller = push_context e.1 s.controller.live s.controller;
  pending = replace_at i (callback_due e ∷ []) s.pending;
}
carry_on i (some (callback_due e)) s = record s {
  controller = tell_change e.0 e.1 s.controller;
  pending = replace_at i [] s.pending;
}

unfoldable pub turn : Turn → Shared → Shared
unfolding enter carry_on
turn (enters r) s = let (o, c) = enter r.to r.goal r.now s.controller in entered_by r o c s
turn (goes_on i) s = carry_on i (get_elem? s.pending i) s

unfoldable pub play : List Turn → Shared → Shared
unfolding turn
play [] s = s
play (x ∷ xs) s = play xs (turn x s)

abbrev pub at_start : Shared
at_start = record { controller = new_controller true with_context; pending = []; made = [] }

-- How many of some things satisfy a test.
unfoldable pub times {ℓ} : {A : Type ℓ} → (A → Bool) → List A → ℕ
times p [] = 0
times p (x ∷ xs) = let rest = times p xs in if p x then suc rest else rest

times-append :
    {A : Type 0} (p : A → Bool) (xs ys : List A) → times p (xs ++ ys) ≡ times p xs + times p ys
unfolding times
times-append p [] ys = omega arith
times-append p (x ∷ xs) ys = ground (arith, times-append p xs ys)

times-replace_at :
    (p : Due → Bool) (i : ℕ) (x : Due) (ys xs : List Due)
    → get_elem? xs i ≡ some x
    → times p (replace_at i ys xs) + times p (x ∷ []) ≡ times p xs + times p ys
unfolding times replace_at
times-replace_at p i x ys [] e = cc
times-replace_at p zero x ys (z ∷ xs) e =
    let same : z ≡ x = cc in ground (arith, times-append p ys xs, ap p same)
times-replace_at p (suc i) x ys (z ∷ xs) e = ground (arith, times-replace_at p i x ys xs e)

-- The changes lead from one state to another.
abbrev pub IsChain : RealtimeState → List Change → RealtimeState → Type 0
IsChain old [] new = old ≡ new
IsChain old (e ∷ es) new = (e.0 ≡ old) × IsChain e.1 es new

IsChain-append :
    (a b c : RealtimeState) (es : List Change) → IsChain a es b → IsChain a (es ++ (b, c) ∷ []) c
IsChain-append a b c [] h = (sym h, refl)
IsChain-append a b c (e ∷ es) (h, k) = (h, IsChain-append e.1 b c es k)

abbrev is_context_due : (Change → Bool) → Due → Bool
is_context_due p (context_due e) = p e
is_context_due p (callback_due e) = false

times-due :
    (p : Change → Bool) (e : Change)
    → times (λ d. p (change_of d)) (context_due e ∷ []) ≡ times p (e ∷ [])
unfolding times
times-due p e = refl

times-context_due :
    (p : Change → Bool) (e : Change)
    → times (is_context_due p) (context_due e ∷ []) ≡ times p (e ∷ [])
unfolding times
times-context_due p e = refl

times-same :
    (p : Change → Bool) (e : Change)
    → times (λ d. p (change_of d)) (callback_due e ∷ [])
      ≡ times (λ d. p (change_of d)) (context_due e ∷ [])
unfolding times
times-same p e = refl

times-line :
    (q : String → Bool) (e : Change)
    → let p : Change → Bool = λ c. q (context_of c) in
      (times (is_context_due p) (context_due e ∷ []) ≡ times q (state_context e.1 ∷ []))
      × (times (is_context_due p) (callback_due e ∷ []) ≡ 0)
unfolding times
times-line q e = (refl, refl)

times-told :
    (p : Change → Bool) (e : Change)
    → (times (λ d. p (change_of d)) (callback_due e ∷ []) ≡ times p (e ∷ []))
      × (times (λ d. p (change_of d)) [] ≡ 0)
unfolding times
times-told p e = (refl, refl)

times-no_context :
    (p : Change → Bool) (e : Change)
    → (times (is_context_due p) (callback_due e ∷ []) ≡ 0) × (times (is_context_due p) [] ≡ 0)
unfolding times
times-no_context p e = (refl, refl)

-- Every change is reported once, or a call has still to report it, and so for its context line.
record IsReported (s : Shared) : Type 0 where
  callbacks :
      (p : Change → Bool)
      → times p s.made ≡ times p s.controller.changes + times (λ d. p (change_of d)) s.pending
  contexts :
      (q : String → Bool)
      → times (λ e. q (context_of e)) s.made
        ≡ times q s.controller.contexts + times (is_context_due (λ e. q (context_of e))) s.pending
  chain : IsChain RealtimeState.listening s.made s.controller.state
  on_change : s.controller.has_on_change ≡ true
  live : s.controller.live ≡ with_context

IsReported-enters : (r : Request) (s : Shared) → IsReported s → IsReported (turn (enters r) s)
unfolding turn enter
IsReported-enters r s h = elim (Bool-cases (s.controller.state == r.to)) [
  | inl e ↦ rw e h
  | inr e ↦
      let change : Change = (s.controller.state, r.to) in
      let due = context_due change ∷ [] in
      rw e (record {
        callbacks = λ p. omega (
          arith,
          h.callbacks p,
          times-append p s.made (change ∷ []),
          times-append (λ d. p (change_of d)) s.pending due,
          times-due p change,
        );
        contexts = λ q. omega (
          arith,
          h.contexts q,
          times-append (λ e. q (context_of e)) s.made (change ∷ []),
          times-append (is_context_due (λ e. q (context_of e))) s.pending due,
          times-context_due (λ e. q (context_of e)) change,
        );
        chain = IsChain-append RealtimeState.listening s.controller.state r.to s.made h.chain;
        on_change = h.on_change;
        live = h.live;
      })
]

IsReported-carry_on :
    (i : ℕ) (o : Option Due) (s : Shared)
    → get_elem? s.pending i ≡ o
    → IsReported s
    → IsReported (carry_on i o s)
unfolding carry_on push_context tell_change
IsReported-carry_on i none s e h = h
IsReported-carry_on i (some (context_due (old, new))) s e h =
    let due = context_due (old, new) in
    let next = callback_due (old, new) ∷ [] in
    rw h.live (
      rw (context_nonempty new) (record {
        callbacks = λ p. omega (
          arith,
          h.callbacks p,
          times-replace_at (λ d. p (change_of d)) i due next s.pending e,
          times-same p (old, new),
        );
        contexts = λ q.
            let told : Change → Bool = λ e. q (context_of e) in
            omega (
              arith,
              h.contexts q,
              times-append q s.controller.contexts (state_context new ∷ []),
              times-replace_at (is_context_due told) i due next s.pending e,
              times-line q (old, new),
            );
        chain = h.chain;
        on_change = h.on_change;
        live = refl;
      }))
IsReported-carry_on i (some (callback_due (old, new))) s e h =
    let due = callback_due (old, new) in
    rw h.on_change (record {
      callbacks = λ p. omega (
        arith,
        h.callbacks p,
        times-append p s.controller.changes ((old, new) ∷ []),
        times-replace_at (λ d. p (change_of d)) i due [] s.pending e,
        times-told p (old, new),
      );
      contexts = λ q. omega (
        arith,
        h.contexts q,
        times-replace_at (is_context_due (λ e. q (context_of e))) i due [] s.pending e,
        times-no_context (λ e. q (context_of e)) (old, new),
      );
      chain = h.chain;
      on_change = refl;
      live = h.live;
    })

IsReported-play : (xs : List Turn) (s : Shared) → IsReported s → IsReported (play xs s)
unfolding play turn
IsReported-play [] s h = h
IsReported-play (enters r ∷ xs) s h =
    IsReported-play xs (turn (enters r) s) (IsReported-enters r s h)
IsReported-play (goes_on i ∷ xs) s h =
    IsReported-play xs (turn (goes_on i) s) (IsReported-carry_on i (get_elem? s.pending i) s refl h)

-- However calls of `transition` are interleaved, for a new controller with a callback and a live
-- agent that accepts contexts: the changes made, in the order in which the lock was held, lead
-- from listening to the present state, and once no call has anything left to do, each of
-- them has been told to the callback, and its context line to the live agent, exactly as often as
-- it was made. Of the order in which they are told the theorem says nothing.
pub play-all_told :
    (xs : List Turn) (p : Change → Bool) (q : String → Bool)
    → (play xs at_start).pending ≡ []
    → let s = play xs at_start in
      IsChain RealtimeState.listening s.made s.controller.state
      × (times p s.controller.changes ≡ times p s.made)
      × (times q s.controller.contexts ≡ times (λ e. q (context_of e)) s.made)
unfolding new_controller times
play-all_told xs p q none_left =
    let start : IsReported at_start = record {
      callbacks = λ p. omega arith;
      contexts = λ q. omega arith;
      chain = refl;
      on_change = refl;
      live = refl;
    } in
    let h = IsReported-play xs at_start start in
    let s = play xs at_start in
    (
      h.chain,
      omega (arith, h.callbacks p, ap (times (λ d. p (change_of d))) none_left),
      omega (arith, h.contexts q, ap (times (is_context_due (λ e. q (context_of e)))) none_left),
    )
