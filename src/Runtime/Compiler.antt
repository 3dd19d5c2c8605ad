-- ===== src/Runtime/Compiler.antt =====
-- navigator/agent_runtime/demo_compiler.py: recorded steps as demo steps. Texts are ASCII.
pub mod Refusal
mod Tests
use Prim.Native.String.{◌++◌ as ◌+s◌}
use navigator_ai.Prelude.{
  ℕ, zero, suc, ◌-◌, String, Bool, true, false, Option, none, some, List, [], ◌∷◌, ◌++◌, map,
  length, not, ◌&&◌, ◌||◌, ◌==◌, string_eq, nat_eq, if◌then◌else◌, ◌>>=◌, Text, text_eq, codes,
  lower, strip, has_infix, starts_with,
}
use navigator_ai.Runtime.Models
use navigator_ai.Runtime.Recorded.{RecordedStep, is_blank, or_text, or_string, classify_safety}
use navigator_ai.Runtime.Models.{
  DemoStep, DemoStepAction, DemoStepInteraction, DemoStepVerification, InteractionMode,
  RecoveryPolicy, SafetyClass, Tool,
}

-- `s.replace("_", " ")`, and `re.sub(r"[_-]", " ", s)`.
abbrev pub spaced : Text → Text
spaced s = map (λ c. if c == b'_' then b' ' else c) s

abbrev spaced_dashes : Text → Text
spaced_dashes s = map (λ c. if (c == b'_') || (c == b'-') then b' ' else c) s

-- `s.replace(p, "")` for a text that is not empty: what is left of an occurrence is skipped.
unfoldable remove_after : ℕ → Text → Text → Text
remove_after n p [] = []
remove_after zero p (c ∷ s) =
    let skipped = remove_after (length p - 1) p s in
    let kept = remove_after zero p s in if starts_with (c ∷ s) p then skipped else c ∷ kept
remove_after (suc n) p (c ∷ s) = remove_after n p s

unfoldable semantic_intent : RecordedStep → Text
semantic_intent s =
    strip (spaced (codes s.tool) ++ (b' ' ∷ spaced_dashes (codes (or_string s.alias "element"))))

unfoldable pub default_narration : Text → Text → Text
unfolding remove_after
default_narration intent objective =
    let low = lower intent in
    if not (is_blank objective)
    then objective
    else if starts_with low (codes "navigate")
    then codes "Let me navigate to " ++ (strip (remove_after 0 (codes "navigate") low) ++ codes ".")
    else if starts_with low (codes "fill")
    then codes "I'll fill in the "
      ++ (strip (remove_after 0 (codes "fill field") low) ++ codes " field.")
    else if starts_with low (codes "click")
    then codes "Now I'll select "
      ++ (strip (remove_after 0 (codes "click element") low) ++ codes ".")
    else codes "Here, I'm using " ++ (low ++ codes ".")

abbrev no_check : DemoStepVerification
no_check = record {
  url_contains = "";
  visible = "";
  text_contains = "";
  dom_fingerprint = "";
  active_nav = "";
  settled = true;
}

unfoldable is_body : String → Bool
is_body sel =
    (sel == "") || (lower (codes sel) == codes "body") || (lower (codes sel) == codes "html")

unfoldable build_verification : RecordedStep → DemoStepVerification
unfolding is_body
build_verification s =
    let pc = s.postcondition in
    if (pc.check == "url_matches") && not (pc.expected == "")
    then record no_check { url_contains = pc.expected }
    else if (pc.check == "visible") && not (is_body pc.selector)
    then record no_check { visible = pc.selector }
    else if (pc.check == "text_contains") && not (pc.expected == "")
    then record no_check { text_contains = pc.expected }
    else no_check

abbrev pub mode_only : InteractionMode → DemoStepInteraction
mode_only mode = record {
  mode = mode;
  input_name = [];
  input_type = codes "text";
  prompt = [];
  fallback_after_ms = 8000;
  fallback_value = [];
}

abbrev pub is_user_input : SafetyClass → Bool
is_user_input SafetyClass.user_input = true
is_user_input _ = false

abbrev given : Option Text → Text → Text
given none y = y
given (some x) y = x

-- The visitor is asked: `step.source == "user" or step.input_name`.
unfoldable pub asks_visitor : RecordedStep → Bool
asks_visitor s = (s.source == "user") || not (is_blank (or_text s.input_name []))

abbrev ask_visitor : RecordedStep → DemoStepInteraction
ask_visitor s =
    let name = or_text s.input_name (or_text (some (codes s.alias)) (codes "value")) in
    record {
      mode = InteractionMode.ask;
      input_name = name;
      input_type = or_text (some s.input_type) (codes "text");
      prompt =
          or_text s.prompt
            (or_text s.live_question (codes "Could you share your " ++ (spaced name ++ codes "?")));
      fallback_after_ms = 8000;
      fallback_value = given s.fallback_value (or_text s.value []);
    }

abbrev offer_own_value : RecordedStep → DemoStepInteraction
offer_own_value s = record {
  mode = InteractionMode.optional;
  input_name = or_text (some (codes s.alias)) (codes "value");
  input_type = codes "text";
  prompt =
      codes "Would you like me to use your own "
      ++ (spaced_dashes (or_text (some (codes s.alias)) (codes "field"))
          ++ codes ", or a sample value?");
  fallback_after_ms = 8000;
  fallback_value = or_text s.value [];
}

-- Reading `step.approved`, which a recorded step has not, raises AttributeError: no result.
unfoldable pub build_interaction : RecordedStep → SafetyClass → Option DemoStepInteraction
unfolding asks_visitor
build_interaction s safety =
    if asks_visitor s
    then some (ask_visitor s)
    else if is_user_input safety
    then some (offer_own_value s)
    else if s.needs_approval
    then none
    else some (mode_only InteractionMode.none)

unfoldable tool_name : String → Tool
tool_name tool =
    if tool == "click_element"
    then Tool.click
    else if tool == "fill_field"
    then Tool.type
    else if tool == "navigate"
    then Tool.navigate
    else if tool == "wait_for"
    then Tool.wait
    else Tool.click

abbrev is_safe : SafetyClass → Bool
is_safe SafetyClass.safe_demo = true
is_safe _ = false

-- A demo step with its fields that the executor does not read.
pub record CompiledStep : Type 0 where
  pub step : DemoStep
  pub semantic_intent : Text
  pub highlight : String
  pub pause_after_ms : ℕ
  pub needs_approval : Bool

unfoldable pub compiled_with : RecordedStep → Text → DemoStepInteraction → CompiledStep
unfolding semantic_intent default_narration classify_safety build_verification tool_name
compiled_with s objective interaction =
    let intent = semantic_intent s in
    let spoken = or_text s.spoken [] in
    record {
      step = record {
        id = s.page_id +s ("_" +s or_string s.alias "step");
        objective = or_text (some objective) intent;
        action = record {
          tool = tool_name s.tool;
          semantic_id = codes s.alias;
          page_id = s.page_id;
          value = or_text s.value [];
        };
        narration_default = if is_blank spoken then default_narration intent objective else spoken;
        source_transcript = spoken;
        verification = build_verification s;
        interaction = interaction;
        safety = classify_safety s;
        on_failure =
            if is_safe (classify_safety s) then RecoveryPolicy.skip else RecoveryPolicy.replan;
        max_retries = 2;
        approved = false;
      };
      semantic_intent = intent;
      highlight = s.alias;
      pause_after_ms = if s.at_ms == 0 then 400 else s.at_ms;
      needs_approval = s.needs_approval;
    }

unfoldable pub compile_step : RecordedStep → Text → Option CompiledStep
unfolding build_interaction compiled_with
compile_step s objective = do
  interaction ← build_interaction s (classify_safety s)
  some (compiled_with s objective interaction)

-- The list comprehension raises if compiling one of the steps does.
unfoldable pub compile_flow : List RecordedStep → Text → Option (List CompiledStep)
unfolding compile_step
compile_flow [] objective = some []
compile_flow (s ∷ ss) objective = do
  c ← compile_step s objective
  cs ← compile_flow ss objective
  some (c ∷ cs)
