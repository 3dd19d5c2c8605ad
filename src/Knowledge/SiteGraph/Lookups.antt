-- ===== src/Knowledge/SiteGraph/Lookups.antt =====
-- The lookups of navigator/knowledge/site_graph.py: when they return, and what a call names.
use navigator_ai.Prelude.{
  ◌≡◌, refl, String, true, Option, none, some, List, [], ◌∷◌, ◌⊎◌, inl, inr, Option-cases,
  string_eq,
}
use navigator_ai.Knowledge.SiteGraph.{
  Dict, get, has, raised_first, PageSpec, ToolCall, navigate, tool_selector, expects, SiteGraph,
  SiteGraphError, page, selector, flow,
}

-- The lookup returns.
abbrev pub Returns : {A : Type 0} → SiteGraphError ⊎ A → Type 0
Returns {A} r = (a : A) × (r ≡ inr a)

pub raised_first-none :
    {E : Type 0} (a b : Option E) → raised_first a b ≡ none → (a ≡ none) × (b ≡ none)
raised_first-none none b e = (refl, e)
raised_first-none (some x) b e = cc

pub has-get : {A : Type 0} (d : Dict A) (k : String) → has d k ≡ true → (a : A) × (get d k ≡ some a)
has-get d k h = elim (Option-cases (get d k)) [ inl e ↦ cc | inr f ↦ f ]

pub page-get :
    (g : SiteGraph) (page_id : String) (p : PageSpec)
    → get g.pages page_id ≡ some p
    → page g page_id ≡ inr p
unfolding page
page-get g page_id p e = cc

pub selector-get :
    (g : SiteGraph) (page_id alias css : String) (p : PageSpec)
    → get g.pages page_id ≡ some p
    → get p.selectors alias ≡ some css
    → selector g page_id alias ≡ inr css
unfolding selector page
selector-get g page_id alias css p e f = cc

pub flow-get :
    (g : SiteGraph) (page_id flow_id : String) (calls : List ToolCall) (p : PageSpec)
    → get g.pages page_id ≡ some p
    → get p.flows flow_id ≡ some calls
    → flow g page_id flow_id ≡ inr calls
unfolding flow page
flow-get g page_id flow_id calls p e f = cc

-- A flow that is found stands on a page that is found.
pub get-flow :
    (g : SiteGraph) (page_id flow_id : String) (calls : List ToolCall)
    → flow g page_id flow_id ≡ inr calls
    → (p : PageSpec) × (get g.pages page_id ≡ some p) × (get p.flows flow_id ≡ some calls)
unfolding flow page
get-flow g page_id flow_id calls e = elim (Option-cases (get g.pages page_id)) [
  | inl f ↦ cc
  | inr (p, f) ↦ elim (Option-cases (get p.flows flow_id)) [
    | inl h ↦ cc
    | inr (found, h) ↦ (p, f, cc)
  ]
]

-- A reference to a selector that may be missing.
abbrev pub SelectorResolves : SiteGraph → String → Option String → Type 0
SelectorResolves g page_id none = Unit {0}
SelectorResolves g page_id (some alias) = Returns (selector g page_id alias)

-- The page on which a call is over.
abbrev pub page_after : String → ToolCall → String
page_after page_id (navigate e target) = target
page_after page_id _ = page_id

-- All that a call on a page refers to can be looked up: its selector, the page that it leads to,
-- and there the selector of its postcondition.
abbrev pub Resolves : SiteGraph → String → ToolCall → Type 0
Resolves g page_id call =
    SelectorResolves g page_id (tool_selector call)
    × Returns (page g (page_after page_id call))
    × SelectorResolves g (page_after page_id call) (expects call).selector

-- Each of the items is what is found under its key.
abbrev pub FoundIn : {A : Type 0} → Dict A → Dict A → Type 0
FoundIn d [] = Unit {0}
FoundIn d (item ∷ items) = (get d item.0 ≡ some item.1) × FoundIn d items

-- No item of the list is hidden by another one of the same key.
abbrev pub IsDict : {A : Type 0} → Dict A → Type 0
IsDict d = FoundIn d d
