-- ===== src/Automation/Guardrail/Safety.antt =====
-- When `classify_action` of navigator/automation/explore/guardrail.py lets the explorer act.
use navigator_ai.Prelude.{String, ◌≡◌, false, Option, none, some, List, Text, strip}
use navigator_ai.Automation.Guardrail.{
  Element, Json, object, Value, boolean, field, first_object, GuardrailVerdict, Reply, replied,
  Classified, stopped, verdict,
}

abbrev pub MayAct : Classified → Type 0
MayAct (stopped exc) = ⊥
MayAct (verdict v) = v.flagged ≡ false

abbrev Clear : Option GuardrailVerdict → Type 0
Clear none = ⊥
Clear (some v) = v.flagged ≡ false

module _ (loads : Text → Option Json) (repr : Text → Text) (prompt : Element → Text) where
  -- A reply that has an object in braces, whose value `destructive` is the Boolean false.
  abbrev SaysHarmless : Text → Type 0
  SaysHarmless raw =
      (matched : Text) × (fields : List (String × Value)) × (first_object (strip raw)
        ≡ some matched)
      × (loads matched ≡ some (object fields))
      × (field "destructive" fields ≡ some (boolean false))

  -- The judge's part, for an element without a keyword that is not plain navigation.
  abbrev pub Vouched : Element → Option (Text → Reply) → Type 0
  Vouched el judge =
      (ask : Text → Reply) × (raw : Text) × (judge ≡ some ask)
      × (ask (prompt el) ≡ replied raw)
      × SaysHarmless raw
