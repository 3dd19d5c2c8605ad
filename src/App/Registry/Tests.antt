-- ===== src/App/Registry/Tests.antt =====
-- A product with a published revision, a draft, an upload that is refused, and a rollback.
use navigator_ai.Prelude.{
  ◌≡◌, refl, String, true, false, Option, none, some, List, [], ◌∷◌, ◌==◌, string_eq, if◌then◌else◌,
  nat_eq, codes, ◌⊎◌, inl, inr, get_elem?, has_infix, starts_with,
}
use navigator_ai.Knowledge.SiteGraph.{
  get as lookup_key, SiteGraph, ToolCall, click_element, visible, parse_site_graph, absolute_base,
  cross_check, playlist_pairs, flow,
}
use navigator_ai.Knowledge.SiteGraph.Playlist.{Walks, until_leaving}
use navigator_ai.App.Registry.Graphs.{validator, load_graph-Walks}
use navigator_ai.App.Registry.{
  SiteGraphRevision, published_revision, get_revision, Product, Registry, returned, explored,
  recorded, product_by_id, new_product, put_site_graph, latest_revision, load_graph, register,
  revision_row, max_revision,
}
use navigator_ai.App.Registry.Runs.{Op, registers, puts, run, run_all}
use navigator_ai.App.Registry.Live.{active}
use navigator_ai.App.Registry.Demos.{no_products, published_revision-is_published}
use navigator_ai.App.Registry.Uploads.{text_at, run_all-text_at, run-active}
use navigator_ai.App.Registry.Reading.{next_row, put_site_graph-loaded}

abbrev crm_graph : SiteGraph
crm_graph = record {
  version = 3;
  site = "crm";
  base_url = codes "https://crm.example";
  pages = [];
  demo_playlist = [];
}

abbrev parse : String → Option SiteGraph
parse text = if text == "broken" then none else some crm_graph

abbrev crm : Product
crm = new_product "crm" "CRM" "#k1" 0

abbrev with_product : Registry
with_product = record { products = crm ∷ []; site_graph_revisions = [] }

abbrev ops : List Op
ops =
    registers "crm" "CRM" "#k1" 0
    ∷ puts "crm" "v1" recorded true 1
    ∷ puts "crm" "v2" explored false 2
    ∷ puts "crm" "broken" explored true 3
    ∷ []

published_revision-is_published_example :
    (v : SiteGraphRevision) × (get_revision "crm" none (run_all parse ops no_products) ≡ returned v)
    × (v.published ≡ true)
unfolding register put_site_graph published_revision
published_revision-is_published_example = published_revision-is_published parse ops "crm" 1 refl

abbrev one_revision : Registry
one_revision = record with_product {
  site_graph_revisions =
      record {
        product_id = "crm";
        revision = 1;
        source = recorded;
        yaml_text = "v1";
        created_at = 1;
        site = "crm";
        graph_version = 3;
        published = true;
      }
      ∷ [];
}

run_all-text_at_example : text_at "crm" 1 (run_all parse ops one_revision) ≡ some "v1"
unfolding revision_row
run_all-text_at_example = run_all-text_at parse ops one_revision "crm" 1 "v1" refl

run-active_example :
    active "crm" (run parse (puts "crm" "v2" explored false 2) one_revision)
    ≡ active "crm" one_revision
run-active_example = run-active parse (puts "crm" "v2" explored false 2) one_revision "crm" refl

put_site_graph-loaded_example :
    let row = next_row "crm" "v1" recorded 1 with_product crm_graph in
    (latest_revision "crm" (put_site_graph parse "crm" "v1" recorded false 1 with_product).1
      ≡ returned (row false))
    × (load_graph parse "crm"
          (some 1)
          (put_site_graph parse "crm" "v1" recorded false 1 with_product).1
        ≡ returned crm_graph)
    × ((put_site_graph parse "crm" "v1" recorded true 1 with_product).0 ≡ returned (row true))
    × (load_graph parse "crm" none (put_site_graph parse "crm" "v1" recorded true 1 with_product).1
        ≡ returned crm_graph)
unfolding product_by_id max_revision
put_site_graph-loaded_example =
    put_site_graph-loaded parse "crm" "v1" recorded 1 with_product crm crm_graph refl refl false

after_ops : active "crm" (run_all parse ops no_products) ≡ some 1
unfolding register put_site_graph
after_ops = refl

abbrev opens_menu : ToolCall
opens_menu =
    click_element
      (record { check = visible; selector = some "menu"; expected = none; timeout_ms = 15000 })
      "menu"

-- A graph of one page with one flow.
abbrev shown_graph : SiteGraph
shown_graph = record {
  version = 1;
  site = "crm";
  base_url = codes "https://crm.example";
  pages =
      (
        "home",
        record {
          name = "Home";
          url = "";
          selectors = ("menu", "#menu") ∷ [];
          flows = ("tour", opens_menu ∷ []) ∷ [];
        },
      )
      ∷ [];
  demo_playlist = record { order = 1; name = "Tour"; page_id = "home"; flow_id = "tour" } ∷ [];
}

abbrev read : String → String ⊎ SiteGraph
read text = if text == "broken" then inl "no mapping" else inr shown_graph

abbrev uploaded : Registry
uploaded = (put_site_graph (validator read) "crm" "v1" recorded true 5 with_product).1

uploaded-loaded : load_graph (validator read) "crm" none uploaded ≡ returned shown_graph
unfolding load_graph put_site_graph parse_site_graph absolute_base cross_check has_infix starts_with
    lookup_key
uploaded-loaded = refl

tour-first : get_elem? (playlist_pairs shown_graph) 0 ≡ some ("home", "tour")
unfolding playlist_pairs
tour-first = refl

load_graph-Walks_example :
    (calls : List ToolCall) × (flow shown_graph "home" "tour" ≡ inr calls)
    × Walks shown_graph "home" (until_leaving "home" calls)
load_graph-Walks_example =
    load_graph-Walks read "crm" none uploaded shown_graph 0 "home" "tour" uploaded-loaded tour-first
