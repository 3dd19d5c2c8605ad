-- ===== src/Runtime/DemoGraph.antt =====
-- navigator/agent_runtime/demo_graph.py: the demo graph of a site graph's playlist. An exception is
-- the result none. Parameters are what `flow_semantics` has for a flow, and the attribute
-- `demo_script_spoken` of the class SiteGraph, which that class does not have: none in the code.
mod Raising
mod Tests
use navigator_ai.Prelude.{
  ℕ, zero, suc, String, Bool, true, false, Option, none, some, List, [], ◌∷◌, ◌++◌, map, ◌==◌,
  string_eq, nat_eq, if◌then◌else◌, ◌>>=◌, Text, codes, lower, strip,
}
use navigator_ai.Knowledge.SiteGraph
use navigator_ai.Knowledge.SiteGraph.{
  Dict, get, SiteGraph, ToolCall, click_element, fill_field, navigate, wait_for, scroll_page, tool,
  expects, tool_selector, CheckKind, visible, hidden, text_contains, value_equals, url_matches,
  element_count, DemoPlaylistItem, sorted_items, Fill,
}
use navigator_ai.Runtime.Recorded.{RecordedStep, Postcondition, is_blank}
use navigator_ai.Runtime.Compiler.{CompiledStep, compile_flow, spaced}

-- An entry of the semantics, which has no fixed type: missing or falsy, a text, or another value.
pub data Entry : Type 0 where
  nothing : Entry
  words : Text → Entry
  other : Entry

pub record Semantics : Type 0 where
  pub purpose : Entry
  pub label : Entry
  pub auto_name : Entry

pub record DemoFlow : Type 0 where
  pub flow_id : String
  pub objective : Text
  pub priority : ℕ
  pub steps : List CompiledStep

pub record DemoGraph : Type 0 where
  pub product_id : String
  pub flows : Dict DemoFlow
  pub playlist : List String

-- `x or y`; the empty text counts as nothing.
abbrev or_else : Entry → Entry → Entry
or_else nothing y = y
or_else (words []) y = y
or_else (words (c ∷ t)) y = words (c ∷ t)
or_else other y = other

-- `(x or "").strip()`, which only a text has.
abbrev stripped : Entry → Option Text
stripped nothing = some []
stripped (words t) = some (strip t)
stripped other = none

abbrev objective_of : String → Text → Text → Text
objective_of flow_id (c ∷ purpose) label = c ∷ purpose
objective_of flow_id [] (c ∷ label) = codes "Demonstrate " ++ lower (c ∷ label)
objective_of flow_id [] [] = codes "Demonstrate " ++ spaced (codes flow_id)

unfoldable pub flow_objective : (String → Semantics) → String → Option Text
flow_objective semantics flow_id = do
  purpose ← stripped (semantics flow_id).purpose
  label ← stripped (or_else (semantics flow_id).label (semantics flow_id).auto_name)
  some (objective_of flow_id purpose label)

abbrev check_name : CheckKind → String
check_name visible = "visible"
check_name hidden = "hidden"
check_name text_contains = "text_contains"
check_name value_equals = "value_equals"
check_name url_matches = "url_matches"
check_name element_count = "element_count"

abbrev or_empty : Option String → String
or_empty none = ""
or_empty (some s) = s

abbrev dumped : SiteGraph.Postcondition → Postcondition
dumped e = record {
  check = check_name e.check;
  expected = or_empty e.expected;
  selector = or_empty e.selector;
}

-- `getattr(call, …)` with the defaults for calls that fill no field.
abbrev fill_of : ToolCall → Fill
fill_of (fill_field e s fill) = fill
fill_of _ = record {
  value = [];
  source = "agent";
  live_question = none;
  value_ref = none;
  input_name = none;
  prompt = none;
  input_type = codes "text";
  fallback_value = none;
}

-- The recorded step of a call. Its check has a name, so it needs no approval.
abbrev pub recorded_step : String → ToolCall → Text → RecordedStep
recorded_step page_id call spoken =
    let fill = fill_of call in
    record {
      tool = tool call;
      alias = or_empty (tool_selector call);
      value = some fill.value;
      page_id = page_id;
      postcondition = dumped (expects call);
      source = fill.source;
      live_question = if fill.source == "user" then fill.live_question else none;
      input_name = fill.input_name;
      input_type = fill.input_type;
      prompt = fill.prompt;
      fallback_value = fill.fallback_value;
      spoken = some spoken;
      needs_approval = false;
      at_ms = 0;
    }

-- `demo_script_spoken` of the graph's class, if it has that attribute, called for each step.
abbrev pub Attribute : Type 0
Attribute = Option (String → ℕ → Text)

-- The loop over the calls of a flow, from step `idx` on.
unfoldable pub steps_from_calls :
    Attribute → String → String → ℕ → List ToolCall → Option (List RecordedStep)
steps_from_calls attribute page_id flow_id idx [] = some []
steps_from_calls attribute page_id flow_id idx (call ∷ calls) = do
  demo_script_spoken ← attribute
  rest ← steps_from_calls attribute page_id flow_id (suc idx) calls
  some (recorded_step page_id call (demo_script_spoken flow_id idx) ∷ rest)

abbrev or_none {ℓ} : {A : Type ℓ} → Option (List A) → List A
or_none none = []
or_none (some xs) = xs

-- The calls of a flow; a page or flow that is missing has none.
unfoldable pub calls_of : SiteGraph → String → String → List ToolCall
calls_of g page_id flow_id = elim (get g.pages page_id) [
  | none ↦ []
  | some p ↦ or_none (get p.flows flow_id)
]

abbrev steps_from_graph : Attribute → SiteGraph → String → String → Option (List RecordedStep)
steps_from_graph attribute g page_id flow_id =
    steps_from_calls attribute page_id flow_id 0 (calls_of g page_id flow_id)

-- `flows[flow_id] = flow`
unfoldable set_flow : String → DemoFlow → Dict DemoFlow → Dict DemoFlow
set_flow flow_id flow [] = (flow_id, flow) ∷ []
set_flow flow_id flow (item ∷ flows) =
    let rest = set_flow flow_id flow flows in
    if item.0 == flow_id then (flow_id, flow) ∷ flows else item ∷ rest

-- The loop over the playlist, with the flows so far.
unfoldable pub build_flows :
    Attribute
    → (String → Semantics)
    → SiteGraph
    → List DemoPlaylistItem
    → Dict DemoFlow
    → Option (Dict DemoFlow)
unfolding steps_from_calls compile_flow set_flow flow_objective
build_flows attribute semantics g [] flows = some flows
build_flows attribute semantics g (item ∷ items) flows = do
  objective ← flow_objective semantics item.flow_id
  recorded ← steps_from_graph attribute g item.page_id item.flow_id
  steps ← compile_flow recorded objective
  build_flows attribute semantics g items (
      set_flow item.flow_id
        (record {
          flow_id = item.flow_id;
          objective = objective;
          priority = item.order;
          steps = steps;
        })
        flows)

unfoldable pub build_demo_graph :
    Attribute → (String → Semantics) → SiteGraph → String → Option DemoGraph
unfolding build_flows sorted_items
build_demo_graph attribute semantics g product_id = do
  flows ← build_flows attribute semantics g (sorted_items g.demo_playlist) []
  some (record {
    product_id = if product_id == "" then g.site else product_id;
    flows = flows;
    playlist = map (λ item. item.flow_id) (sorted_items g.demo_playlist);
  })
