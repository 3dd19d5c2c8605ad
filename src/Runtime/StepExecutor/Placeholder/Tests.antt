-- ===== src/Runtime/StepExecutor/Placeholder/Tests.antt =====
-- A value with two placeholders, one for the input that was just resolved.
use navigator_ai.Prelude.{◌≡◌, refl, Text, codes, strip_left}
use navigator_ai.Runtime.Interaction.{SessionContext}
use navigator_ai.Runtime.StepExecutor.Placeholder.{
  resolve_action_value, starts_name, in_name, substitute, match_at, name_run,
}

-- The session knows a value for every name.
abbrev session : SessionContext
session = record { Ctx = Text; get = λ c k d. c; set = λ c k v. v }

both_are_replaced :
    resolve_action_value session
      (codes "ACME")
      (codes "Ada")
      (codes "name")
      (codes "{{ name }} of {{company}}, {x}")
    ≡ codes "Ada of ACME, {x}"
unfolding resolve_action_value substitute match_at strip_left starts_name name_run in_name
both_are_replaced = refl
