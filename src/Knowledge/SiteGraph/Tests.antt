-- ===== src/Knowledge/SiteGraph/Tests.antt =====
-- A site graph of two pages, and one with a reference that is missing.
use navigator_ai.Prelude.{◌≡◌, refl, String, none, some, [], ◌∷◌, inl, inr, ◌==◌, string_eq, codes}
use navigator_ai.Knowledge.SiteGraph.Playlist.{until_leaving}
use navigator_ai.Knowledge.SiteGraph.{
  page, SiteGraph, PageSpec, DemoPlaylistItem, ToolCall, Postcondition, click_element, navigate,
  visible, step_of, postcondition_unknown_selector, cross_check, flow, selector, no_selector,
  primary_flow, get, element_count, check_shape, expects_an_integer,
}
use navigator_ai.Knowledge.SiteGraph.Lookups.{Resolves, IsDict}
use navigator_ai.Knowledge.SiteGraph.Checking.{cross_check-Resolves}
use navigator_ai.Knowledge.SiteGraph.Accuracy.{cross_check-Accuses}

abbrev shows : String → Postcondition
shows alias = record { check = visible; selector = some alias; expected = none; timeout_ms = 15000 }

abbrev opens_leads : ToolCall
opens_leads = navigate (shows "table") "leads"

abbrev opens_menu : ToolCall
opens_menu = click_element (shows "menu") "menu"

abbrev home : PageSpec
home = record {
  name = "Home";
  url = "";
  selectors = ("menu", "#menu") ∷ [];
  flows = ("tour", opens_menu ∷ opens_leads ∷ []) ∷ [];
}

abbrev leads : PageSpec
leads = record {
  name = "Leads";
  url = "leads";
  selectors = ("table", "table.leads") ∷ [];
  flows = ("look", []) ∷ [];
}

abbrev item : String → String → DemoPlaylistItem
item p f = record { order = 1; name = f; page_id = p; flow_id = f }

abbrev graph_of : PageSpec → SiteGraph
graph_of second = record {
  version = 1;
  site = "crm";
  base_url = codes "https://crm.example";
  pages = ("home", home) ∷ ("leads", second) ∷ [];
  demo_playlist =
      record { order = 2; name = ""; page_id = "leads"; flow_id = "look" }
      ∷ item "home" "tour"
      ∷ [];
}

abbrev crm_graph : SiteGraph
crm_graph = graph_of leads

-- The table has lost its selector, to which the postcondition on the other page refers.
abbrev no_table : SiteGraph
no_table = graph_of (record leads { selectors = [] })

crm_graph-passes : cross_check crm_graph ≡ none
unfolding cross_check get
crm_graph-passes = refl

tour-found : flow crm_graph "home" "tour" ≡ inr (opens_menu ∷ opens_leads ∷ [])
unfolding flow get
tour-found = refl

no_table-raises :
    cross_check no_table
    ≡ some (postcondition_unknown_selector (step_of "home" "tour" 1) "table" "leads")
unfolding cross_check get
no_table-raises = refl

-- The lower order comes first.
crm_graph-primary_flow : primary_flow crm_graph ≡ some ("home", "tour")
unfolding primary_flow
crm_graph-primary_flow = refl

count-no_integer :
    check_shape
      (λ text. text == "2")
      (record {
        check = element_count;
        selector = some "row";
        expected = some "two";
        timeout_ms = 1;
      })
    ≡ some (expects_an_integer "two")
unfolding check_shape
count-no_integer = refl

cross_check-Resolves_example : Resolves crm_graph "home" opens_leads
cross_check-Resolves_example =
    cross_check-Resolves crm_graph "home" "tour" (opens_menu ∷ opens_leads ∷ []) 1 opens_leads
      crm_graph-passes tour-found refl

no_table-IsDict : IsDict no_table.pages
unfolding get
no_table-IsDict = (refl, (refl, tt))

cross_check-Accuses_example : selector no_table "leads" "table" ≡ inl (no_selector "leads" "table")
cross_check-Accuses_example =
    cross_check-Accuses no_table
      (postcondition_unknown_selector (step_of "home" "tour" 1) "table" "leads") no_table-IsDict
      no_table-raises

-- A flow that goes to the other page and then clicks on what only the first page has: the
-- cross-check accepts it, for it asks the first page, but the lookup on the other page fails.
abbrev astray : SiteGraph
astray = record crm_graph {
  pages =
      ("home", record home { flows = ("tour", opens_leads ∷ opens_menu ∷ []) ∷ [] })
      ∷ ("leads", leads)
      ∷ [];
}

astray-passes : cross_check astray ≡ none
unfolding cross_check get
astray-passes = refl

astray-fails : selector astray "leads" "menu" ≡ inl (no_selector "leads" "menu")
unfolding selector page get
astray-fails = refl

astray-until_leaving : until_leaving "home" (opens_leads ∷ opens_menu ∷ []) ≡ opens_leads ∷ []
unfolding until_leaving
astray-until_leaving = refl
