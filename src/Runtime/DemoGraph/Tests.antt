-- ===== src/Runtime/DemoGraph/Tests.antt =====
-- A playlist with a step, and one without, for navigator/agent_runtime/demo_graph.py.
use navigator_ai.Prelude.{
  false, ◌≡◌, refl, String, true, none, some, List, [], ◌∷◌, codes, strip, lower,
}
use navigator_ai.Knowledge.SiteGraph.{SiteGraph, ToolCall, navigate, visible, get as lookup_key}
use navigator_ai.Runtime.DemoGraph.{
  Semantics, nothing, words, other, build_demo_graph, calls_of, flow_objective,
}
use navigator_ai.Runtime.DemoGraph.Raising.{any_refused}

abbrev crm_with : List ToolCall → SiteGraph
crm_with calls = record {
  version = 1;
  site = "crm";
  base_url = codes "https://crm.example";
  pages =
      (
        "home",
        record {
          name = "Home";
          url = "";
          selectors = ("menu", "#menu") ∷ [];
          flows = ("tour", calls) ∷ [];
        },
      )
      ∷ [];
  demo_playlist = record { order = 1; name = "Tour"; page_id = "home"; flow_id = "tour" } ∷ [];
}

abbrev goes_home : ToolCall
goes_home =
    navigate
      (record { check = visible; selector = some "menu"; expected = none; timeout_ms = 15000 })
      "home"

abbrev labelled : String → Semantics
labelled flow_id = record {
  purpose = nothing;
  label = words (codes " The Tour ");
  auto_name = other;
}

abbrev numbered : String → Semantics
numbered flow_id = record { purpose = other; label = nothing; auto_name = nothing }

labelled-objective : flow_objective labelled "tour" ≡ some (codes "Demonstrate the tour")
unfolding flow_objective strip lower
labelled-objective = refl

-- Without the attribute a step raises; with it only semantics that are no text do.
one_step-raises : build_demo_graph none labelled (crm_with (goes_home ∷ [])) "" ≡ none
unfolding build_demo_graph lookup_key calls_of
one_step-raises = refl

numbered-raises : any_refused none numbered (crm_with []) (crm_with []).demo_playlist ≡ true
unfolding any_refused flow_objective
numbered-raises = refl

spoken-fine :
    any_refused
      (some (λ flow_id idx. []))
      labelled
      (crm_with (goes_home ∷ []))
      (crm_with (goes_home ∷ [])).demo_playlist
    ≡ false
unfolding any_refused flow_objective lookup_key calls_of
spoken-fine = refl
