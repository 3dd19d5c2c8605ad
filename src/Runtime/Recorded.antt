-- ===== src/Runtime/Recorded.antt =====
-- `RecordedStep` of navigator/automation/record.py, with the fields that the demo compiler reads,
-- and how navigator/agent_runtime/demo_compiler.py classifies it. Texts are ASCII.
use navigator_ai.Prelude.{
  ℕ, String, Bool, true, false, Option, none, some, List, [], ◌∷◌, ◌||◌, ◌==◌, string_eq,
  if◌then◌else◌, Text, text_eq, codes, lower, has_infix,
}
use navigator_ai.Runtime.Models.{SafetyClass}

-- The entries of the postcondition that are read, "" for a missing one.
pub record Postcondition : Type 0 where
  pub check : String
  pub expected : String
  pub selector : String

pub record RecordedStep : Type 0 where
  pub tool : String
  pub alias : String
  pub value : Option Text
  pub page_id : String
  pub postcondition : Postcondition
  pub source : String
  pub live_question : Option Text
  pub input_name : Option Text
  pub input_type : Text
  pub prompt : Option Text
  pub fallback_value : Option Text
  pub spoken : Option Text
  pub needs_approval : Bool
  pub at_ms : ℕ

abbrev pub is_blank : Text → Bool
is_blank [] = true
is_blank (c ∷ s) = false

-- `x or y` of a value that may be None.
abbrev pub or_text : Option Text → Text → Text
or_text none y = y
or_text (some []) y = y
or_text (some (c ∷ s)) y = c ∷ s

abbrev pub or_string : String → String → String
or_string x y = if x == "" then y else x

-- `any(word in alias for word in words)`
unfoldable pub any_word : List String → Text → Bool
any_word [] alias = false
any_word (w ∷ ws) alias = has_infix alias (codes w) || any_word ws alias

abbrev destructive_words : List String
destructive_words = "delete" ∷ "remove" ∷ "destroy" ∷ "purge" ∷ "wipe" ∷ "cancel" ∷ []

abbrev mutation_words : List String
mutation_words =
    "send" ∷ "submit" ∷ "save" ∷ "create" ∷ "publish" ∷ "pay" ∷ "charge" ∷ "confirm" ∷ []

unfoldable pub says_destructive : RecordedStep → Bool
says_destructive s = any_word destructive_words (lower (codes s.alias))

unfoldable pub says_mutation : RecordedStep → Bool
says_mutation s = any_word mutation_words (lower (codes s.alias))

unfoldable pub is_input_tool : RecordedStep → Bool
is_input_tool s = lower (codes s.tool) == codes "fill_field"

unfoldable pub classify_safety : RecordedStep → SafetyClass
classify_safety s =
    if s.needs_approval
    then (if says_destructive s then SafetyClass.destructive else SafetyClass.mutation)
    else if is_input_tool s
    then SafetyClass.user_input
    else if says_destructive s
    then SafetyClass.destructive
    else if says_mutation s
    then SafetyClass.mutation
    else SafetyClass.safe_demo
