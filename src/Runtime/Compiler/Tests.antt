-- ===== src/Runtime/Compiler/Tests.antt =====
-- A recorded button that deletes, run against a browser that obeys, and a step that needs approval.
use navigator_ai.Prelude.{
  ℕ, suc, ◌≡◌, ◌↔◌, refl, Bool, true, false, none, [], ◌∷◌, Text, codes, has_infix, lower, strip,
  starts_with, String,
}
use navigator_ai.Runtime.Models.{DemoStepStatus, SessionOutcome, public_embed, fresh_watchdog}
use navigator_ai.Runtime.Interaction.{SessionContext}
use navigator_ai.Runtime.StepExecutor.{World, Browser, Callbacks, returned}
use navigator_ai.Runtime.StepExecutor.Retries.{acts, speeches}
use navigator_ai.Runtime.StepExecutor.Gate.{run}
use navigator_ai.Runtime.Recorded.{RecordedStep, says_destructive, is_input_tool, any_word}
use navigator_ai.Runtime.Compiler.{
  CompiledStep, compile_step, compile_flow, compiled_with, mode_only, default_narration,
}
use navigator_ai.Runtime.Compiler.Refusal.{any_raises, compile_flow-raises, risky_step_refused}

-- A page is the number of actions done on it.
abbrev browser : Browser
browser = record {
  Page = ℕ;
  execute_action = λ page id a. (returned "orders", suc page);
  wait_settled = λ page. (true, page);
  verify_step = λ page v fp. (true, "no such element", page);
  dom_fingerprint = λ page. "fp";
  url = λ page. "https://app/orders";
  now = λ page. 1000;
  state_fingerprint = λ u. u;
}

abbrev context : SessionContext
context = record { Ctx = Text; get = λ c k d. c; set = λ c k v. v }

abbrev callbacks : Callbacks
callbacks = record { has_speak = true; has_speak_error = true }

abbrev world : World
world = record {
  watchdog = fresh_watchdog;
  outcome = SessionOutcome.success;
  page_id = "home";
  url = "https://app";
  flow_id = "orders";
  origin = public_embed;
}

abbrev keep_reply : Text → Text → Text
keep_reply reply kind = reply

abbrev click : String → Bool → RecordedStep
click alias needs_approval = record {
  tool = "click_element";
  alias = alias;
  value = none;
  page_id = "home";
  postcondition = record { check = ""; expected = ""; selector = "" };
  source = "agent";
  live_question = none;
  input_name = none;
  input_type = codes "text";
  prompt = none;
  fallback_value = none;
  spoken = none;
  needs_approval = needs_approval;
  at_ms = 0;
}

abbrev remove_button : RecordedStep
remove_button = click "remove-contact" false

compile_flow-raises_example :
    (compile_flow (remove_button ∷ click "send_mail" true ∷ []) [] ≡ none)
    ↔ (any_raises (remove_button ∷ click "send_mail" true ∷ []) ≡ true)
compile_flow-raises_example = compile_flow-raises (remove_button ∷ click "send_mail" true ∷ []) []

abbrev removal : CompiledStep
removal =
    compiled_with remove_button (codes "Remove a contact")
      (mode_only navigator_ai.Runtime.Models.InteractionMode.none)

risky_step_refused_example :
    let ended = (run browser context keep_reply callbacks removal.step world none none 0).0 in
    (ended.status ≡ DemoStepStatus.failed) × (acts ended.effects ≡ 0) × (speeches ended.effects ≡ 0)
unfolding compile_step says_destructive is_input_tool lower has_infix any_word
risky_step_refused_example =
    risky_step_refused browser context keep_reply callbacks world none none 0 remove_button
      (codes "Remove a contact") removal refl refl refl

narration_of_click :
    default_narration (codes "click element remove contact") []
    ≡ codes "Now I'll select remove contact."
unfolding default_narration lower strip starts_with
narration_of_click = refl
