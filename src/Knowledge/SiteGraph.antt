-- ===== src/Knowledge/SiteGraph.antt =====
-- navigator/knowledge/site_graph.py, with the tool calls of navigator/core/schemas.py: what a site
-- graph defines, its cross-check when it is loaded, and the lookups during a call. Dictionaries are
-- association lists. YAML, Pydantic's typing, and file paths are parameters; exceptions are values
-- with the parts of their message.
pub mod Lookups
pub mod Checking
pub mod Accuracy
pub mod Playlist
pub mod Loading
mod Tests
use navigator_ai.Prelude.{
  ℕ, zero, suc, ◌+◌, String, Bool, true, false, Option, none, some, List, [], ◌∷◌, map, ◌⊎◌, inl,
  inr, ltb, ◌==◌, string_eq, if◌then◌else◌, Text, codes, has_infix,
}

-- navigator/core/schemas.py

pub data CheckKind : Type 0 where
  visible hidden text_contains value_equals url_matches element_count : CheckKind

pub record Postcondition : Type 0 where
  pub check : CheckKind
  pub selector : Option String
  pub expected : Option String
  pub timeout_ms : ℕ

pub data ValueError : Type 0 where
  requires_expected requires_selector : CheckKind → ValueError
  expects_an_integer : String → ValueError

abbrev required {ℓ} : {A : Type ℓ} → Option A → ValueError → Option ValueError
required none e = some e
required (some a) e = none

-- What is raised first.
abbrev pub raised_first {ℓ} : {E : Type ℓ} → Option E → Option E → Option E
raised_first none next = next
raised_first (some e) next = some e

abbrev needs_expected : CheckKind → Bool
needs_expected text_contains = true
needs_expected value_equals = true
needs_expected url_matches = true
needs_expected element_count = true
needs_expected _ = false

-- `int(self.expected)`, where `is_int` tells whether it raises.
abbrev check_count : (String → Bool) → CheckKind → Option String → Option ValueError
check_count is_int element_count (some text) =
    if is_int text then none else some (expects_an_integer text)
check_count is_int _ _ = none

abbrev check_target : CheckKind → Postcondition → Option ValueError
check_target url_matches p = required p.expected (requires_expected url_matches)
check_target check p = required p.selector (requires_selector check)

unfoldable pub check_shape : (String → Bool) → Postcondition → Option ValueError
check_shape is_int p = raised_first (check_target p.check p) (
    raised_first
      (if needs_expected p.check then required p.expected (requires_expected p.check) else none)
      (check_count is_int p.check p.expected))

-- The fields of FillField besides its selector.
pub record Fill : Type 0 where
  pub value : Text
  pub source : String
  pub live_question : Option Text
  pub value_ref : Option Text
  pub input_name : Option Text
  pub prompt : Option Text
  pub input_type : Text
  pub fallback_value : Option Text

pub data ToolCall : Type 0 where
  click_element : Postcondition → String → ToolCall
  fill_field : Postcondition → String → Fill → ToolCall
  navigate : Postcondition → String → ToolCall
  wait_for : Postcondition → String → ℕ → ToolCall
  scroll_page : Postcondition → ℕ → ℕ → Option String → ToolCall

abbrev pub tool : ToolCall → String
tool (click_element e s) = "click_element"
tool (fill_field e s v) = "fill_field"
tool (navigate e p) = "navigate"
tool (wait_for e s t) = "wait_for"
tool (scroll_page e x y s) = "scroll_page"

abbrev pub expects : ToolCall → Postcondition
expects (click_element e s) = e
expects (fill_field e s v) = e
expects (navigate e p) = e
expects (wait_for e s t) = e
expects (scroll_page e x y s) = e

abbrev pub tool_selector : ToolCall → Option String
tool_selector (click_element e s) = some s
tool_selector (fill_field e s v) = some s
tool_selector (navigate e p) = none
tool_selector (wait_for e s t) = some s
tool_selector (scroll_page e x y s) = s

-- navigator/knowledge/site_graph.py

abbrev pub Dict : Type 0 → Type 0
Dict A = List (String × A)

unfoldable pub get : {A : Type 0} → Dict A → String → Option A
get [] key = none
get (item ∷ items) key = if item.0 == key then some item.1 else get items key

abbrev pub is_some {ℓ} : {A : Type ℓ} → Option A → Bool
is_some none = false
is_some (some a) = true

-- `key in d`
abbrev pub has : {A : Type 0} → Dict A → String → Bool
has d key = is_some (get d key)

pub record PageSpec : Type 0 where
  pub name : String
  pub url : String
  pub selectors : Dict String
  pub flows : Dict (List ToolCall)

pub record DemoPlaylistItem : Type 0 where
  pub order : ℕ
  pub name : String
  pub page_id : String
  pub flow_id : String

pub record SiteGraph : Type 0 where
  pub version : ℕ
  pub site : String
  pub base_url : Text
  pub pages : Dict PageSpec
  pub demo_playlist : List DemoPlaylistItem

-- `where`: page, flow and step, or the order of a playlist item.
pub data Place : Type 0 where
  step_of : String → String → ℕ → Place
  playlist_order : ℕ → Place

pub data SiteGraphError : Type 0 where
  invalid : String → SiteGraphError
  base_url_not_absolute : Text → SiteGraphError
  unknown_page : String → SiteGraphError
  no_selector no_flow : String → String → SiteGraphError
  targets_unknown_selector : Place → String → String → String → SiteGraphError
  navigates_to_unknown_page : Place → String → SiteGraphError
  postcondition_unknown_selector : Place → String → String → SiteGraphError
  unknown_page_id : Place → String → SiteGraphError
  unknown_flow_id : Place → String → String → SiteGraphError

abbrev get_or_raise : {A : Type 0} → Dict A → String → SiteGraphError → SiteGraphError ⊎ A
get_or_raise d key e = elim (get d key) [ none ↦ inl e | some a ↦ inr a ]

unfoldable pub page : SiteGraph → String → SiteGraphError ⊎ PageSpec
page g page_id = get_or_raise g.pages page_id (unknown_page page_id)

unfoldable pub selector : SiteGraph → String → String → SiteGraphError ⊎ String
unfolding page
selector g page_id alias = elim (page g page_id) [
  | inl e ↦ inl e
  | inr p ↦ get_or_raise p.selectors alias (no_selector page_id alias)
]

unfoldable pub flow : SiteGraph → String → String → SiteGraphError ⊎ List ToolCall
unfolding page
flow g page_id flow_id = elim (page g page_id) [
  | inl e ↦ inl e
  | inr p ↦ get_or_raise p.flows flow_id (no_flow page_id flow_id)
]

-- `sorted(items, key=lambda x: x.order)`: items of the same order stay in their order.
unfoldable pub insert_item : DemoPlaylistItem → List DemoPlaylistItem → List DemoPlaylistItem
insert_item item [] = item ∷ []
insert_item item (x ∷ xs) =
    let rest = insert_item item xs in if ltb x.order item.order then x ∷ rest else item ∷ x ∷ xs

unfoldable pub sorted_items : List DemoPlaylistItem → List DemoPlaylistItem
unfolding insert_item
sorted_items [] = []
sorted_items (x ∷ xs) = insert_item x (sorted_items xs)

abbrev pub pair_of : DemoPlaylistItem → String × String
pair_of item = (item.page_id, item.flow_id)

abbrev first_of {ℓ} : {A : Type ℓ} → List A → Option A
first_of [] = none
first_of (x ∷ xs) = some x

unfoldable pub playlist_pairs : SiteGraph → List (String × String)
unfolding sorted_items
playlist_pairs g = map pair_of (sorted_items g.demo_playlist)

unfoldable pub primary_flow : SiteGraph → Option (String × String)
unfolding sorted_items
primary_flow g = elim (first_of (sorted_items g.demo_playlist)) [
  | none ↦ none
  | some item ↦ some (pair_of item)
]

-- The cross-check: none when it returns, else what it raises.

unfoldable pub check_postcondition :
    PageSpec → String → Postcondition → Place → Option SiteGraphError
check_postcondition p page_id e place = elim e.selector [
  | none ↦ none
  | some alias ↦
      if has p.selectors alias
      then none
      else some (postcondition_unknown_selector place alias page_id)
]

unfoldable pub check_selector :
    PageSpec → String → String → Option String → Place → Option SiteGraphError
check_selector p page_id tool none place = none
check_selector p page_id tool (some alias) place =
    if has p.selectors alias then none else some (targets_unknown_selector place tool alias page_id)

-- `isinstance(call, ScrollPage) and call.selector`
abbrev scroll_selector : ToolCall → Option String
scroll_selector (scroll_page e x y (some alias)) = if alias == "" then none else some alias
scroll_selector _ = none

unfoldable pub check_destination :
    SiteGraph → PageSpec → String → ToolCall → Place → Option SiteGraphError
unfolding check_postcondition
check_destination g p page_id (navigate e target) place = elim (get g.pages target) [
  | none ↦ some (navigates_to_unknown_page place target)
  | some destination ↦ check_postcondition destination target e place
]
check_destination g p page_id call place = check_postcondition p page_id (expects call) place

unfoldable pub check_call : SiteGraph → PageSpec → String → ToolCall → Place → Option SiteGraphError
unfolding check_selector check_destination
check_call g p page_id call place =
    raised_first (check_selector p page_id (tool call) (tool_selector call) place) (
      raised_first (check_selector p page_id "scroll_page" (scroll_selector call) place)
        (check_destination g p page_id call place))

-- The loops over the steps of a flow from step `i` on, the flows of a page, and the pages.
unfoldable pub check_calls :
    SiteGraph → PageSpec → String → String → ℕ → List ToolCall → Option SiteGraphError
unfolding check_call
check_calls g p page_id flow_id i [] = none
check_calls g p page_id flow_id i (call ∷ calls) =
    raised_first (check_call g p page_id call (step_of page_id flow_id i))
      (check_calls g p page_id flow_id (suc i) calls)

unfoldable pub check_flows :
    SiteGraph → PageSpec → String → Dict (List ToolCall) → Option SiteGraphError
unfolding check_calls
check_flows g p page_id [] = none
check_flows g p page_id (item ∷ flows) =
    raised_first (check_calls g p page_id item.0 0 item.1) (check_flows g p page_id flows)

unfoldable pub check_pages : SiteGraph → Dict PageSpec → Option SiteGraphError
unfolding check_flows
check_pages g [] = none
check_pages g (item ∷ pages) =
    raised_first (check_flows g item.1 item.0 item.1.flows) (check_pages g pages)

unfoldable pub check_item : SiteGraph → DemoPlaylistItem → Option SiteGraphError
check_item g item = elim (get g.pages item.page_id) [
  | none ↦ some (unknown_page_id (playlist_order item.order) item.page_id)
  | some p ↦
      if has p.flows item.flow_id
      then none
      else some (unknown_flow_id (playlist_order item.order) item.flow_id item.page_id)
]

unfoldable pub check_items : SiteGraph → List DemoPlaylistItem → Option SiteGraphError
unfolding check_item
check_items g [] = none
check_items g (item ∷ items) = raised_first (check_item g item) (check_items g items)

unfoldable pub cross_check : SiteGraph → Option SiteGraphError
unfolding check_pages check_items
cross_check g = raised_first (check_pages g g.pages) (check_items g g.demo_playlist)

-- `relative_to` is none for an upload; for a file it turns a relative URL into that of a file.
unfoldable pub absolute_base : Text → Option (Text → Text) → SiteGraphError ⊎ Text
absolute_base base_url relative_to =
    if has_infix base_url (codes "://") then inr base_url else elim relative_to [
      | none ↦ inl (base_url_not_absolute base_url)
      | some resolve ↦ inr (resolve base_url)
    ]

abbrev checked : SiteGraph → SiteGraphError ⊎ SiteGraph
checked g = elim (cross_check g) [ none ↦ inr g | some e ↦ inl e ]

-- The graph with its base URL made absolute, after the cross-check.
abbrev based : SiteGraph → SiteGraphError ⊎ Text → SiteGraphError ⊎ SiteGraph
based g (inl e) = inl e
based g (inr base) = checked (record g { base_url = base })

abbrev parsed : Option (Text → Text) → String ⊎ SiteGraph → SiteGraphError ⊎ SiteGraph
parsed relative_to (inl message) = inl (invalid message)
parsed relative_to (inr g) = based g (absolute_base g.base_url relative_to)

-- `read` is YAML and Pydantic.
unfoldable pub parse_site_graph :
    (String → String ⊎ SiteGraph) → String → Option (Text → Text) → SiteGraphError ⊎ SiteGraph
parse_site_graph read text relative_to = parsed relative_to (read text)
