-- ===== src/Runtime/Lock.antt =====
-- `with self._lock:` over a `threading.Lock`, which is not reentrant: a thread that asks for a
-- lock which is held waits, and for good if it holds the lock itself.
use navigator_ai.Prelude.{Bool, true, false}

-- An object together with its lock.
pub record Locked (S : Type 0) : Type 0 where
  pub held : Bool
  pub obj : S

-- A call returns, or it waits for the lock in a state that no later step of its own can change.
pub data Outcome (S A : Type 0) : Type 0 where
  done : A → Locked S → Outcome S A
  blocked : Locked S → Outcome S A

abbrev pub Call : Type 0 → Type 0 → Type 0
Call S A = Locked S → Outcome S A

infixl 10 ◌>>=◌ ◌>>◌
abbrev pub ◌>>=◌ : {S A B : Type 0} → Call S A → (A → Call S B) → Call S B
◌>>=◌ m f s = elim (m s) [ done a t ↦ f a t | blocked t ↦ blocked t ]

abbrev pub ◌>>◌ : {S A B : Type 0} → Call S A → Call S B → Call S B
m >> n = m >>= λ _. n

module _ {S A : Type 0} where
  abbrev pub pure : A → Call S A
  pure a s = done a s

  abbrev pub gets : (S → A) → Call S A
  gets f s = done (f s.obj) s

  -- The block runs with the lock held, and the lock is released after it.
  abbrev pub release : Outcome S A → Outcome S A
  release (done a t) = done a (record t { held = false })
  release (blocked t) = blocked t

  abbrev pub with_lock : Call S A → Call S A
  with_lock body s = elim s.held [
    | true ↦ blocked s
    | false ↦ release (body (record s { held = true }))
  ]

abbrev pub modify : {S : Type 0} → (S → S) → Call S (Unit {0})
modify f s = done tt (record s { obj = f s.obj })

abbrev pub free : {S : Type 0} → S → Locked S
free s = record { held = false; obj = s }

abbrev pub is_blocked : {S A : Type 0} → Outcome S A → Bool
is_blocked (done a t) = false
is_blocked (blocked t) = true

abbrev pub state_of : {S A : Type 0} → Outcome S A → Locked S
state_of (done a t) = t
state_of (blocked t) = t
