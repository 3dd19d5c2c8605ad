-- ===== src/Auth/RateLimit.antt =====
-- `SessionTokenStore._check_rate_limit` of navigator/auth/session_tokens.py. Times are
-- milliseconds; a reading that lies before a recorded one gives the span 0 here and a negative one
-- in the code, which are both below the limit.
pub mod Window
mod Tests
use navigator_ai.Prelude.{
  ℕ, ◌-◌, String, Bool, true, false, List, [], ◌∷◌, ◌++◌, ltb, leb, length, keep_if, ◌==◌,
  string_eq, if◌then◌else◌,
}

abbrev window_ms : ℕ
window_ms = 60000

abbrev pub max_tokens : ℕ
max_tokens = 100

-- The dictionary `_rate_limits`; a product without an entry has the empty history.
abbrev pub Histories : Type 0
Histories = String → List ℕ

abbrev pub put : String → List ℕ → Histories → Histories
put p h limits q = if q == p then h else limits q

abbrev pub within : ℕ → ℕ → Bool
within now ts = ltb (now - ts) window_ms

unfoldable pub recent : ℕ → List ℕ → List ℕ
recent now history = keep_if (within now) history

-- Whether the request is let through, and the histories after it.
unfoldable pub check_rate_limit : String → ℕ → Histories → Bool × Histories
unfolding recent
check_rate_limit p now limits =
    let history = recent now (limits p) in
    if leb max_tokens (length history)
    then (false, put p history limits)
    else (true, put p (history ++ now ∷ []) limits)
