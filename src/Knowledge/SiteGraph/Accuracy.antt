-- ===== src/Knowledge/SiteGraph/Accuracy.antt =====
-- What the errors of the cross-check of navigator/knowledge/site_graph.py tell.
use navigator_ai.Prelude.{
  ℕ, suc, ◌≡◌, sym, subst, String, false, Option, none, some, List, [], ◌∷◌, inl, inr, Option-cases,
  Bool-cases, string_eq,
}
use navigator_ai.Knowledge.SiteGraph.{
  Dict, get, has, raised_first, PageSpec, ToolCall, click_element, fill_field, navigate, wait_for,
  scroll_page, tool, tool_selector, SiteGraph, SiteGraphError, Postcondition, DemoPlaylistItem,
  Place, step_of, playlist_order, invalid, base_url_not_absolute, unknown_page, no_selector,
  no_flow, targets_unknown_selector, navigates_to_unknown_page, postcondition_unknown_selector,
  unknown_page_id, unknown_flow_id, page, selector, flow, check_postcondition, check_selector,
  scroll_selector, check_destination, check_call, check_calls, check_flows, check_pages, check_item,
  check_items, cross_check,
}
use navigator_ai.Knowledge.SiteGraph.Lookups.{FoundIn, IsDict}

-- The lookup of which an error says that it is bound to fail does fail.
abbrev Accuses : SiteGraph → SiteGraphError → Type 0
Accuses g (targets_unknown_selector place tool alias page_id) =
    selector g page_id alias ≡ inl (no_selector page_id alias)
Accuses g (postcondition_unknown_selector place alias page_id) =
    selector g page_id alias ≡ inl (no_selector page_id alias)
Accuses g (navigates_to_unknown_page place page_id) = page g page_id ≡ inl (unknown_page page_id)
Accuses g (unknown_page_id place page_id) = page g page_id ≡ inl (unknown_page page_id)
Accuses g (unknown_flow_id place flow_id page_id) =
    flow g page_id flow_id ≡ inl (no_flow page_id flow_id)
Accuses g (invalid message) = ⊥
Accuses g (base_url_not_absolute url) = ⊥
Accuses g (unknown_page page_id) = ⊥
Accuses g (no_selector page_id alias) = ⊥
Accuses g (no_flow page_id flow_id) = ⊥

-- If it raises, the error is accurate.
abbrev Accurate : SiteGraph → Option SiteGraphError → Type 0
Accurate g none = Unit {0}
Accurate g (some e) = Accuses g e

Accurate-of : (g : SiteGraph) (a b : Option SiteGraphError) → Accurate g b → a ≡ b → Accurate g a
Accurate-of g a b h e = subst (λ o. Accurate g o) (sym e) h

Accurate-raised_first :
    (g : SiteGraph) (a b : Option SiteGraphError)
    → Accurate g a
    → Accurate g b
    → Accurate g (raised_first a b)
Accurate-raised_first g none b h k = k
Accurate-raised_first g (some e) b h k = h

has-none : {A : Type 0} (d : Dict A) (k : String) → has d k ≡ false → get d k ≡ none
has-none d k h = elim (Option-cases (get d k)) [ inl e ↦ e | inr (a, f) ↦ cc ]

selector-missing :
    (g : SiteGraph) (page_id alias : String) (p : PageSpec)
    → get g.pages page_id ≡ some p
    → has p.selectors alias ≡ false
    → selector g page_id alias ≡ inl (no_selector page_id alias)
unfolding selector page
selector-missing g page_id alias p e f = cc (e, has-none p.selectors alias f)

page-missing :
    (g : SiteGraph) (page_id : String)
    → get g.pages page_id ≡ none
    → page g page_id ≡ inl (unknown_page page_id)
unfolding page
page-missing g page_id e = cc

flow-missing :
    (g : SiteGraph) (page_id flow_id : String) (p : PageSpec)
    → get g.pages page_id ≡ some p
    → has p.flows flow_id ≡ false
    → flow g page_id flow_id ≡ inl (no_flow page_id flow_id)
unfolding flow page
flow-missing g page_id flow_id p e f = cc (e, has-none p.flows flow_id f)

check_selector-Accurate :
    (g : SiteGraph) (p : PageSpec) (page_id name : String) (s : Option String) (place : Place)
    → get g.pages page_id ≡ some p
    → Accurate g (check_selector p page_id name s place)
unfolding check_selector
check_selector-Accurate g p page_id name none place found = tt
check_selector-Accurate g p page_id name (some alias) place found =
    elim (Bool-cases (has p.selectors alias)) [
      | inl h ↦ rw h tt
      | inr h ↦ rw h (selector-missing g page_id alias p found h)
    ]

check_postcondition-Accurate :
    (g : SiteGraph) (p : PageSpec) (page_id : String) (e : Postcondition) (place : Place)
    → get g.pages page_id ≡ some p
    → Accurate g (check_postcondition p page_id e place)
unfolding check_postcondition
check_postcondition-Accurate g p page_id e place found = elim (Option-cases e.selector) [
  | inl f ↦ rw f tt
  | inr (alias, f) ↦ rw f (elim (Bool-cases (has p.selectors alias)) [
    | inl h ↦ rw h tt
    | inr h ↦ rw h (selector-missing g page_id alias p found h)
  ])
]

check_destination-Accurate :
    (g : SiteGraph) (p : PageSpec) (page_id : String) (call : ToolCall) (place : Place)
    → get g.pages page_id ≡ some p
    → Accurate g (check_destination g p page_id call place)
unfolding check_destination
check_destination-Accurate g p page_id (navigate e target) place found =
    elim (Option-cases (get g.pages target)) [
      | inl f ↦
          Accurate-of g (check_destination g p page_id (navigate e target) place)
            (some (navigates_to_unknown_page place target)) (page-missing g target f) cc
      | inr (q, f) ↦
          Accurate-of g (check_destination g p page_id (navigate e target) place)
            (check_postcondition q target e place)
            (check_postcondition-Accurate g q target e place f) cc
    ]
check_destination-Accurate g p page_id (click_element e s) place found =
    check_postcondition-Accurate g p page_id e place found
check_destination-Accurate g p page_id (fill_field e s v) place found =
    check_postcondition-Accurate g p page_id e place found
check_destination-Accurate g p page_id (wait_for e s t) place found =
    check_postcondition-Accurate g p page_id e place found
check_destination-Accurate g p page_id (scroll_page e x y s) place found =
    check_postcondition-Accurate g p page_id e place found

check_call-Accurate :
    (g : SiteGraph) (p : PageSpec) (page_id : String) (call : ToolCall) (place : Place)
    → get g.pages page_id ≡ some p
    → Accurate g (check_call g p page_id call place)
unfolding check_call
check_call-Accurate g p page_id call place found =
    let scroll = check_selector p page_id "scroll_page" (scroll_selector call) place in
    let after = check_destination g p page_id call place in
    Accurate-raised_first g (check_selector p page_id (tool call) (tool_selector call) place)
      (raised_first scroll after)
      (check_selector-Accurate g p page_id (tool call) (tool_selector call) place found)
      (Accurate-raised_first g scroll after
        (check_selector-Accurate g p page_id "scroll_page" (scroll_selector call) place found)
        (check_destination-Accurate g p page_id call place found))

check_calls-Accurate :
    (g : SiteGraph) (p : PageSpec) (page_id flow_id : String) (i : ℕ) (calls : List ToolCall)
    → get g.pages page_id ≡ some p
    → Accurate g (check_calls g p page_id flow_id i calls)
unfolding check_calls
check_calls-Accurate g p page_id flow_id i [] found = tt
check_calls-Accurate g p page_id flow_id i (call ∷ calls) found =
    let place = step_of page_id flow_id i in
    Accurate-raised_first g (check_call g p page_id call place)
      (check_calls g p page_id flow_id (suc i) calls)
      (check_call-Accurate g p page_id call place found)
      (check_calls-Accurate g p page_id flow_id (suc i) calls found)

check_flows-Accurate :
    (g : SiteGraph) (p : PageSpec) (page_id : String) (flows : Dict (List ToolCall))
    → get g.pages page_id ≡ some p
    → Accurate g (check_flows g p page_id flows)
unfolding check_flows
check_flows-Accurate g p page_id [] found = tt
check_flows-Accurate g p page_id (item ∷ flows) found =
    Accurate-raised_first g (check_calls g p page_id item.0 0 item.1)
      (check_flows g p page_id flows) (check_calls-Accurate g p page_id item.0 0 item.1 found)
      (check_flows-Accurate g p page_id flows found)

check_pages-Accurate :
    (g : SiteGraph) (pages : Dict PageSpec)
    → FoundIn g.pages pages
    → Accurate g (check_pages g pages)
unfolding check_pages
check_pages-Accurate g [] h = tt
check_pages-Accurate g (item ∷ pages) (found, h) =
    Accurate-raised_first g (check_flows g item.1 item.0 item.1.flows) (check_pages g pages)
      (check_flows-Accurate g item.1 item.0 item.1.flows found) (check_pages-Accurate g pages h)

check_item-Accurate : (g : SiteGraph) (item : DemoPlaylistItem) → Accurate g (check_item g item)
unfolding check_item
check_item-Accurate g item = elim (Option-cases (get g.pages item.page_id)) [
  | inl e ↦
      Accurate-of g (check_item g item)
        (some (unknown_page_id (playlist_order item.order) item.page_id))
        (page-missing g item.page_id e) cc
  | inr (p, e) ↦ elim (Bool-cases (has p.flows item.flow_id)) [
    | inl f ↦ Accurate-of g (check_item g item) none tt cc
    | inr f ↦
        Accurate-of g (check_item g item)
          (some (unknown_flow_id (playlist_order item.order) item.flow_id item.page_id))
          (flow-missing g item.page_id item.flow_id p e f) cc
  ]
]

check_items-Accurate :
    (g : SiteGraph) (items : List DemoPlaylistItem) → Accurate g (check_items g items)
unfolding check_items
check_items-Accurate g [] = tt
check_items-Accurate g (item ∷ items) =
    Accurate-raised_first g (check_item g item) (check_items g items) (check_item-Accurate g item)
      (check_items-Accurate g items)

cross_check-Accurate : (g : SiteGraph) → IsDict g.pages → Accurate g (cross_check g)
unfolding cross_check
cross_check-Accurate g h =
    Accurate-raised_first g (check_pages g g.pages) (check_items g g.demo_playlist)
      (check_pages-Accurate g g.pages h) (check_items-Accurate g g.demo_playlist)

-- The cross-check refuses no graph without reason: when it raises, for pages of different keys, the
-- lookup that the error is about, that of a selector on a page, of a page, or of a flow, fails with
-- the corresponding error when it is made.
pub cross_check-Accuses :
    (g : SiteGraph) (e : SiteGraphError) → IsDict g.pages → cross_check g ≡ some e → Accuses g e
cross_check-Accuses g e h r = subst (λ o. Accurate g o) r (cross_check-Accurate g h)
