-- ===== src/Runtime/StepExecutor/Placeholder.antt =====
-- `_resolve_action_value` of navigator/agent_runtime/execution/demo_step_executor.py: the
-- substitution of `{{ name }}` by the pattern `_PLACEHOLDER`.
pub mod Laws
pub mod Markers
mod Tests
use navigator_ai.Prelude.{
  ℕ, zero, suc, Bool, ◌&&◌, ◌||◌, not, Option, none, some, [], ◌∷◌, ◌++◌, leb, ◌==◌, nat_eq,
  text_eq, Text, strip_left, length, take, ◌-◌, if◌then◌else◌,
}
use navigator_ai.Runtime.Interaction.{SessionContext, is_empty}

unfoldable pub starts_name : ℕ → Bool
starts_name c = leb b'A' c && leb c b'Z' || (leb b'a' c && leb c b'z' || c == b'_')

unfoldable pub in_name : ℕ → Bool
unfolding starts_name
in_name c = starts_name c || leb b'0' c && leb c b'9'

-- The longest run of name characters, and the rest.
unfoldable pub name_run : Text → Text × Text
name_run [] = ([], [])
name_run (c ∷ s) = let (n, rest) = name_run s in if in_name c then (c ∷ n, rest) else ([], c ∷ s)

closing : Text → Text → Option (Text × Text)
closing key (c ∷ d ∷ rest) = if c == b'}' && d == b'}' then some (key, rest) else none
closing key _ = none

named : Text → Option (Text × Text)
unfolding closing
named [] = none
named (c ∷ s) =
    let (key, rest) = name_run (c ∷ s) in
    if starts_name c then closing key (strip_left rest) else none

-- A match of the pattern at the start of the text: the name, and what follows the match.
unfoldable pub match_at : Text → Option (Text × Text)
unfolding named
match_at (c ∷ d ∷ s) = if c == b'{' && d == b'{' then named (strip_left s) else none
match_at _ = none

-- The text of a match, given the text from its start and what follows it.
abbrev pub group_0 : Text → Text → Text
group_0 whole rest = take (length whole - length rest) whole

module _ (sc : SessionContext) where
  open sc use {Ctx, get}

  -- `replace`: the input that was just resolved goes before the session's values.
  unfoldable pub replacement : Ctx → Text → Text → Text → Text → Text
  replacement ctx resolved input_name key whole =
      if key == input_name && not (is_empty resolved) then resolved else get ctx key whole

  -- `_PLACEHOLDER.sub`: matches from the left that do not overlap. Every call but the last takes
  -- a character off, so the length of the text is enough fuel.
  unfoldable pub substitute : ℕ → Ctx → Text → Text → Text → Text
  unfolding replacement
  substitute zero ctx resolved input_name s = s
  substitute (suc fuel) ctx resolved input_name [] = []
  substitute (suc fuel) ctx resolved input_name (c ∷ s) = elim (match_at (c ∷ s)) [
    | none ↦ c ∷ substitute fuel ctx resolved input_name s
    | some (key, rest) ↦
        replacement ctx resolved input_name key (group_0 (c ∷ s) rest)
        ++ substitute fuel ctx resolved input_name rest
  ]

  unfoldable pub resolve_action_value : Ctx → Text → Text → Text → Text
  resolve_action_value ctx resolved input_name value =
      substitute (length value) ctx resolved input_name value
