-- ===== src/App/Registry/Graphs.antt =====
-- The registry of navigator/app/registry.py with the validator of
-- navigator/knowledge/site_graph.py.
use navigator_ai.Prelude.{ℕ, ◌≡◌, String, Option, none, some, List, ◌⊎◌, inl, inr, get_elem?}
use navigator_ai.Knowledge.SiteGraph.{
  SiteGraph, SiteGraphError, ToolCall, parse_site_graph, flow, playlist_pairs,
}
use navigator_ai.Knowledge.SiteGraph.Loading.{accepted, parse_site_graph-passes}
use navigator_ai.Knowledge.SiteGraph.Playlist.{
  Walks, until_leaving, Walks-until_leaving, playlist_pairs-AllResolve,
}
use navigator_ai.App.Registry.{
  Registry, Result, SiteGraphRevision, raised, returned, or_raise, site_graph_error, get_revision,
  parsed, load_graph,
}

-- An upload has no directory.
abbrev pub validator : (String → String ⊎ SiteGraph) → String → Option SiteGraph
validator read text = accepted (parse_site_graph read text none)

load_graph-parse :
    (read : String → String ⊎ SiteGraph) (p : String) (n : Option ℕ) (r : Registry) (g : SiteGraph)
    → load_graph (validator read) p n r ≡ returned g
    → (text : String) × (parse_site_graph read text none ≡ inr g)
unfolding load_graph parsed
load_graph-parse read p n r g e = revision (get_revision p n r) e
  where
    graph :
        (v : SiteGraphError ⊎ SiteGraph)
        → or_raise site_graph_error (accepted v) ≡ returned g
        → v ≡ inr g
    graph (inl x) k = cc
    graph (inr h) k = cc

    revision :
        (v : Result SiteGraphRevision)
        → parsed (validator read) v ≡ returned g
        → (text : String) × (parse_site_graph read text none ≡ inr g)
    revision (raised x) k = cc
    revision (returned v) k = (v.yaml_text, graph (parse_site_graph read v.yaml_text none) k)

-- Registry and site graph together: whatever was uploaded before, the flow of every playlist entry
-- of a graph that is loaded from the registry is found. While it runs, everything that its calls
-- refer to is found on the page that is then the current one, up to the first call that leads to
-- another page: that page is found too, and so is the selector of the postcondition on it. Of
-- the calls after that one, which run on the other page, the theorem says nothing.
pub load_graph-Walks :
    (read : String → String ⊎ SiteGraph) (p : String) (n : Option ℕ) (r : Registry) (g : SiteGraph)
    (i : ℕ) (page_id flow_id : String)
    → load_graph (validator read) p n r ≡ returned g
    → get_elem? (playlist_pairs g) i ≡ some (page_id, flow_id)
    → (calls : List ToolCall) × (flow g page_id flow_id ≡ inr calls)
      × Walks g page_id (until_leaving page_id calls)
load_graph-Walks read p n r g i page_id flow_id loaded at =
    let (text, accepts) = load_graph-parse read p n r g loaded in
    let (calls, found, resolve) =
      playlist_pairs-AllResolve g i page_id flow_id (parse_site_graph-passes read text g accepts).1
        at in
    (calls, found, Walks-until_leaving g page_id calls resolve)
