-- ===== src/Automation/Guardrail/Tests.antt =====
-- A link, a button that deletes, and a button that the judge is asked about.
use navigator_ai.Prelude.{
  ◌≡◌, refl, false, Option, some, [], ◌∷◌, Text, codes, lower, strip, starts_with, has_infix,
}
use navigator_ai.Automation.Guardrail.{
  Element, Json, object, boolean, Reply, replied, raised, Classified, verdict, classify_action,
  keyword_hit, looks_like_nav, first_keyword, looks_like_safe_nav, judged, safe,
}
use navigator_ai.Automation.Guardrail.Words.{words_of_element}
use navigator_ai.Automation.Guardrail.Keywords.{keyword_hit-words_of_element}

abbrev delete_button : Element
delete_button =
    ("tag", codes "button") ∷ ("label", codes "  Really ") ∷ ("text", codes "Project: DELETE") ∷ []

abbrev details_button : Element
details_button = ("tag", codes "button") ∷ ("text", codes "Undelete details") ∷ []

abbrev harmless_json : Text → Option Json
harmless_json s = some (object (("destructive", boolean false) ∷ []))

abbrev same_text : Text → Text
same_text s = s

abbrev ask_about : Element → Text
ask_about el = codes "?"

abbrev answer : Text → Reply
answer p = replied (codes "Sure: {} ok")

abbrev broken : Text → Reply
broken p = raised (codes "HTTP 500")

abbrev classified : Element → Option (Text → Reply) → Classified
classified el judge = classify_action harmless_json same_text ask_about el judge

delete_found : keyword_hit delete_button ≡ some (codes "delete")
unfolding keyword_hit lower strip
delete_found = refl

details_allowed :
    classified details_button (some answer)
    ≡ verdict (record { flagged = false; reason = codes "judged destructive"; source = safe })
unfolding classify_action keyword_hit lower strip looks_like_safe_nav looks_like_nav starts_with
    has_infix judged
details_allowed = refl

keyword_hit-words_of_element_example :
    keyword_hit delete_button ≡ first_keyword (words_of_element delete_button)
keyword_hit-words_of_element_example = keyword_hit-words_of_element delete_button
