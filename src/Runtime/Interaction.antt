-- ===== src/Runtime/Interaction.antt =====
-- navigator/agent_runtime/interaction.py: how the engine resolves the visitor's input for a step.
-- The session context is a parameter with its two methods, and so are the answer of
-- `wait_for_utterance` and `_extract_value`, whose patterns are not modelled.
pub mod Confirm
use navigator_ai.Prelude.{
  ℕ, String, Bool, true, false, Option, none, some, List, [], ◌∷◌, ◌++◌, ◌||◌, ◌&&◌, not, ◌==◌,
  text_eq, Text, codes, has_infix, lower, strip, map, if◌then◌else◌, nat_eq,
}
use navigator_ai.Runtime.Models.{
  AgentEventKind, interaction_requested, interaction_resolved, interaction_timed_out,
  session_handoff, InteractionMode, DemoStep, DemoStepInteraction,
}

-- What the engine does to the outside, in order.
pub data Effect : Type 0 where
  say : Text → Effect
  emit : AgentEventKind → Effect

pub record InteractionResult : Type 0 where
  pub value : Text
  pub timed_out : Bool
  pub declined : Bool

-- `DemoSessionContext`: `get(key, default)` and `set(key, value)`.
pub record SessionContext : Type 1 where
  pub Ctx : Type 0
  pub get : Ctx → Text → Text → Text
  pub set : Ctx → Text → Text → Ctx

abbrev pub is_empty : Text → Bool
is_empty [] = true
is_empty (c ∷ t) = false

-- `any(w in reply for w in words)`
unfoldable pub any_in : Text → List Text → Bool
any_in reply [] = false
any_in reply (w ∷ ws) = has_infix reply w || any_in reply ws

abbrev pub yes_words : List Text
yes_words =
    codes "yes" ∷ codes "yeah" ∷ codes "sure" ∷ codes "ok" ∷ codes "proceed" ∷ codes "go" ∷ []

abbrev pub no_words : List Text
no_words = codes "no" ∷ codes "nope" ∷ codes "skip" ∷ codes "stop" ∷ codes "cancel" ∷ []

-- `(self._wait(timeout_s) or "").lower().strip()`
unfoldable pub heard : Option Text → Text
heard none = []
heard (some reply) = strip (lower reply)

-- `name.replace("_", " ")`
unfoldable pub spaced : Text → Text
spaced name = map (λ c. if c == b'_' then b' ' else c) name

unfoldable pub or_text : Text → Text → Text
or_text [] other = other
or_text (c ∷ t) other = c ∷ t

unfoldable pub confirm : DemoStep → Option Text → InteractionResult × List Effect
unfolding or_text
confirm step reply =
    let spec = step.interaction in
    let prompt =
      or_text spec.prompt
        (codes "I'm about to " ++ (step.objective ++ codes ". Should I proceed?")) in
    let confirmed = any_in (heard reply) yes_words in
    let declined = any_in (heard reply) no_words in
    (
      record {
        value = if confirmed then codes "confirmed" else [];
        timed_out = false;
        declined = declined;
      },
      say prompt ∷ emit interaction_requested ∷ emit interaction_resolved ∷ [],
    )

abbrev plain : Text → InteractionResult
plain v = record { value = v; timed_out = false; declined = false }

abbrev asks : InteractionMode → Bool
asks InteractionMode.ask = true
asks InteractionMode.optional = true
asks _ = false

unfoldable pub hand_off : InteractionResult × List Effect
hand_off = (
  record { value = []; timed_out = false; declined = true },
  say (codes "Let me pause here and hand over to our team who can help you directly.")
      ∷ emit session_handoff
      ∷ [],
)

module _ (sc : SessionContext) (extract_value : Text → Text → Text) where
  open sc use {Ctx, get, set}

  -- A reply that is the empty text counts as none, as in the code.
  timed_out : DemoStepInteraction → Ctx → List Effect → InteractionResult × Ctx × List Effect
  unfolding spaced
  timed_out spec ctx before =
      let missed = before ++ emit interaction_timed_out ∷ [] in
      if asks spec.mode && not (is_empty spec.fallback_value)
      then (
        record { value = spec.fallback_value; timed_out = true; declined = false },
        ctx,
        missed
            ++ say (codes "I'll use a sample " ++ (spaced spec.input_name ++ codes " instead."))
              ∷ [],
      )
      else (record { value = []; timed_out = true; declined = false }, ctx, missed)

  ask : DemoStep → Ctx → Option Text → InteractionResult × Ctx × List Effect
  unfolding timed_out or_text spaced
  ask step ctx reply =
      let spec = step.interaction in
      let prompt =
        or_text spec.prompt
          (codes "What " ++ (spaced spec.input_name ++ codes " would you like me to use?")) in
      let before = say prompt ∷ emit interaction_requested ∷ [] in
      elim reply [
        | none ↦ timed_out spec ctx before
        | some r ↦
            if is_empty r
            then timed_out spec ctx before
            else (let value = extract_value r spec.input_type in
                (
                  plain value,
                  set ctx spec.input_name value,
                  before ++ emit interaction_resolved ∷ [],
                ))
      ]

  uncached : InteractionMode → DemoStep → Ctx → Option Text → InteractionResult × Ctx × List Effect
  unfolding ask
  uncached InteractionMode.manual_handoff step ctx reply = let (r, fx) = hand_off in (r, ctx, fx)
  uncached _ step ctx reply = ask step ctx reply

  by_mode : InteractionMode → DemoStep → Ctx → Option Text → InteractionResult × Ctx × List Effect
  unfolding uncached
  by_mode InteractionMode.none step ctx reply = (plain step.interaction.fallback_value, ctx, [])
  by_mode InteractionMode.auto step ctx reply = (plain step.interaction.fallback_value, ctx, [])
  by_mode InteractionMode.confirm step ctx reply = let (r, fx) = confirm step reply in (r, ctx, fx)
  by_mode mode step ctx reply =
      let cached = get ctx step.interaction.input_name [] in
      if is_empty cached then uncached mode step ctx reply else (plain cached, ctx, [])

  unfoldable pub resolve : DemoStep → Ctx → Option Text → InteractionResult × Ctx × List Effect
  unfolding by_mode
  resolve step ctx reply = by_mode step.interaction.mode step ctx reply
