-- ===== src/Runtime/DemoGraph/Raising.antt =====
-- When navigator/agent_runtime/demo_graph.py raises.
use navigator_ai.Prelude.{String, Bool, true, false, Option, none, some, List, [], ◌∷◌, ◌||◌, ◌&&◌}
use navigator_ai.Knowledge.SiteGraph.{SiteGraph, ToolCall, DemoPlaylistItem}
use navigator_ai.Runtime.DemoGraph.{Semantics, DemoGraph, Attribute, flow_objective, calls_of}

abbrev any_call : List ToolCall → Bool
any_call [] = false
any_call (call ∷ calls) = true

abbrev is_missing {ℓ} : {A : Type ℓ} → Option A → Bool
is_missing none = true
is_missing (some a) = false

-- Some entry of the playlist has semantics that are no text where one is read, or, if the attribute
-- is missing, a flow with a call.
unfoldable pub any_refused :
    Attribute → (String → Semantics) → SiteGraph → List DemoPlaylistItem → Bool
any_refused attribute semantics g [] = false
any_refused attribute semantics g (item ∷ items) =
    is_missing (flow_objective semantics item.flow_id)
    || ((any_call (calls_of g item.page_id item.flow_id) && is_missing attribute)
        || any_refused attribute semantics g items)
