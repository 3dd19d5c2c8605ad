-- ===== src/Knowledge/SiteGraph/Checking.antt =====
-- What the cross-check of navigator/knowledge/site_graph.py guarantees.
use navigator_ai.Prelude.{
  ℕ, zero, suc, ◌≡◌, String, Option, none, some, List, [], ◌∷◌, inl, inr, Option-cases, ◌==◌,
  string_eq, eq_iff, if◌then◌else◌, Bool-cases, get_elem?,
}
use navigator_ai.Knowledge.SiteGraph
use navigator_ai.Knowledge.SiteGraph.{
  Dict, get, has, PageSpec, ToolCall, click_element, fill_field, navigate, wait_for, scroll_page,
  tool, tool_selector, expects, SiteGraph, SiteGraphError, Postcondition, Place, step_of, flow,
  page, raised_first, check_postcondition, check_selector, scroll_selector, check_destination,
  check_call, check_calls, check_flows, check_pages, check_items, cross_check,
}
use navigator_ai.Knowledge.SiteGraph.Lookups.{
  Returns, raised_first-none, has-get, page-get, selector-get, get-flow, SelectorResolves,
  page_after, Resolves,
}

check_pages-get :
    (g : SiteGraph) (ps : Dict PageSpec) (k : String) (p : PageSpec)
    → check_pages g ps ≡ none
    → get ps k ≡ some p
    → check_flows g p k p.flows ≡ none
unfolding check_pages get
check_pages-get g [] k p e f = cc
check_pages-get g (item ∷ ps) k p e f =
    let (here, later) =
      raised_first-none (check_flows g item.1 item.0 item.1.flows) (check_pages g ps) e in
    elim (Bool-cases (item.0 == k)) [
      | inl h ↦ cc (here, f, h, (eq_iff item.0 k).0 h)
      | inr h ↦ check_pages-get g ps k p later (cc (f, h))
    ]

check_flows-get :
    (g : SiteGraph) (p : PageSpec) (page_id : String) (flows : Dict (List ToolCall)) (k : String)
    (calls : List ToolCall)
    → check_flows g p page_id flows ≡ none
    → get flows k ≡ some calls
    → check_calls g p page_id k 0 calls ≡ none
unfolding check_flows get
check_flows-get g p page_id [] k calls e f = cc
check_flows-get g p page_id (item ∷ flows) k calls e f =
    let (here, later) =
      raised_first-none (check_calls g p page_id item.0 0 item.1) (check_flows g p page_id flows)
        e in
    elim (Bool-cases (item.0 == k)) [
      | inl h ↦ cc (here, f, h, (eq_iff item.0 k).0 h)
      | inr h ↦ check_flows-get g p page_id flows k calls later (cc (f, h))
    ]

check_calls-get_elem? :
    (g : SiteGraph) (p : PageSpec) (page_id flow_id : String) (i : ℕ) (calls : List ToolCall)
    (n : ℕ) (call : ToolCall)
    → check_calls g p page_id flow_id i calls ≡ none
    → get_elem? calls n ≡ some call
    → (place : Place) × (check_call g p page_id call place ≡ none)
unfolding check_calls
check_calls-get_elem? g p page_id flow_id i [] n call e f = cc
check_calls-get_elem? g p page_id flow_id i (c ∷ calls) zero call e f = (
  step_of page_id flow_id i,
  cc (
    (raised_first-none (check_call g p page_id c (step_of page_id flow_id i))
        (check_calls g p page_id flow_id (suc i) calls) e).0,
    f,
  ),
)
check_calls-get_elem? g p page_id flow_id i (c ∷ calls) (suc n) call e f =
    check_calls-get_elem? g p page_id flow_id (suc i) calls n call
      (raised_first-none (check_call g p page_id c (step_of page_id flow_id i))
        (check_calls g p page_id flow_id (suc i) calls) e).1
      f

check_selector-Resolves :
    (g : SiteGraph) (p : PageSpec) (page_id name : String) (s : Option String) (place : Place)
    → get g.pages page_id ≡ some p
    → check_selector p page_id name s place ≡ none
    → SelectorResolves g page_id s
unfolding check_selector
check_selector-Resolves g p page_id name none place found e = tt
check_selector-Resolves g p page_id name (some alias) place found e =
    elim (Bool-cases (has p.selectors alias)) [
      | inl h ↦
          let (css, f) = has-get p.selectors alias h in
          (css, selector-get g page_id alias css p found f)
      | inr h ↦ cc
    ]

check_postcondition-Resolves :
    (g : SiteGraph) (p : PageSpec) (page_id : String) (e : Postcondition) (place : Place)
    → get g.pages page_id ≡ some p
    → check_postcondition p page_id e place ≡ none
    → SelectorResolves g page_id e.selector
unfolding check_postcondition
check_postcondition-Resolves g p page_id e place found h = given e.selector h
  where
    given :
        (s : Option String)
        → (elim s [
          | none ↦ none
          | some alias ↦
              if has p.selectors alias
              then none
              else some (SiteGraph.postcondition_unknown_selector place alias page_id)
        ])
          ≡ none
        → SelectorResolves g page_id s
    given none k = tt
    given (some alias) k = elim (Bool-cases (has p.selectors alias)) [
      | inl i ↦
          let (css, f) = has-get p.selectors alias i in
          (css, selector-get g page_id alias css p found f)
      | inr i ↦ cc
    ]

-- The destination is there, and the postcondition resolves on it.
AfterResolves : SiteGraph → String → ToolCall → Type 0
AfterResolves g page_id call =
    Returns (page g (page_after page_id call))
    × SelectorResolves g (page_after page_id call) (expects call).selector

check_destination-Resolves :
    (g : SiteGraph) (p : PageSpec) (page_id : String) (call : ToolCall) (place : Place)
    → get g.pages page_id ≡ some p
    → check_destination g p page_id call place ≡ none
    → AfterResolves g page_id call
unfolding check_destination AfterResolves
check_destination-Resolves g p page_id (navigate e target) place found h =
    elim (Option-cases (get g.pages target)) [
      | inl f ↦ cc
      | inr (q, f) ↦
          ((q, page-get g target q f), check_postcondition-Resolves g q target e place f cc)
    ]
check_destination-Resolves g p page_id (click_element e s) place found h =
    ((p, page-get g page_id p found), check_postcondition-Resolves g p page_id e place found h)
check_destination-Resolves g p page_id (fill_field e s v) place found h =
    ((p, page-get g page_id p found), check_postcondition-Resolves g p page_id e place found h)
check_destination-Resolves g p page_id (wait_for e s t) place found h =
    ((p, page-get g page_id p found), check_postcondition-Resolves g p page_id e place found h)
check_destination-Resolves g p page_id (scroll_page e x y s) place found h =
    ((p, page-get g page_id p found), check_postcondition-Resolves g p page_id e place found h)

check_call-Resolves :
    (g : SiteGraph) (p : PageSpec) (page_id : String) (call : ToolCall) (place : Place)
    → get g.pages page_id ≡ some p
    → check_call g p page_id call place ≡ none
    → Resolves g page_id call
unfolding check_call AfterResolves
check_call-Resolves g p page_id call place found h =
    let (here, later) =
      raised_first-none (check_selector p page_id (tool call) (tool_selector call) place)
        (raised_first (check_selector p page_id "scroll_page" (scroll_selector call) place)
          (check_destination g p page_id call place))
        h in
    let (_, last) =
      raised_first-none (check_selector p page_id "scroll_page" (scroll_selector call) place)
        (check_destination g p page_id call place) later in
    let (there, after) = check_destination-Resolves g p page_id call place found last in
    (
      check_selector-Resolves g p page_id (tool call) (tool_selector call) place found here,
      there,
      after,
    )

-- In a site graph that the cross-check accepts, no lookup fails on account of a step: whenever a
-- flow is found, everything that one of its calls refers to is found, namely the selector that the
-- call uses on its page, the page that it navigates to, and the selector of its postcondition on
-- the page where the call is over.
pub cross_check-Resolves :
    (g : SiteGraph) (page_id flow_id : String) (calls : List ToolCall) (i : ℕ) (call : ToolCall)
    → cross_check g ≡ none
    → flow g page_id flow_id ≡ inr calls
    → get_elem? calls i ≡ some call
    → Resolves g page_id call
unfolding cross_check
cross_check-Resolves g page_id flow_id calls i call passed found at =
    let pages_pass =
      (raised_first-none (check_pages g g.pages) (check_items g g.demo_playlist) passed).0 in
    let (p, on, in_page) = get-flow g page_id flow_id calls found in
    let calls_pass =
      check_flows-get g p page_id p.flows flow_id calls
        (check_pages-get g g.pages page_id p pages_pass on) in_page in
    let (place, call_passes) =
      check_calls-get_elem? g p page_id flow_id 0 calls i call calls_pass at in
    check_call-Resolves g p page_id call place on call_passes
