-- ===== src/Knowledge/SiteGraph/Playlist.antt =====
-- The demo playlist of a checked graph of navigator/knowledge/site_graph.py.
use navigator_ai.Prelude.{
  ℕ, zero, suc, ◌≡◌, refl, sym, subst, ◌==◌, string_eq, eq_iff, String, none, some, List, [], ◌∷◌,
  map, inl, inr, Option-cases, Bool-cases, get_elem?, ltb, if◌then◌else◌,
}
use navigator_ai.Knowledge.SiteGraph.{
  DemoPlaylistItem, ToolCall, SiteGraph, get, has, flow, pair_of, insert_item, sorted_items,
  playlist_pairs, check_item, check_items, check_pages, cross_check,
}
use navigator_ai.Knowledge.SiteGraph.Lookups.{
  Returns, raised_first-none, has-get, flow-get, page_after, Resolves,
}
use navigator_ai.Knowledge.SiteGraph.Checking.{cross_check-Resolves}

check_items-insert_item :
    (g : SiteGraph) (item : DemoPlaylistItem) (xs : List DemoPlaylistItem)
    → check_item g item ≡ none
    → check_items g xs ≡ none
    → check_items g (insert_item item xs) ≡ none
unfolding check_items insert_item
check_items-insert_item g item [] h k = cc
check_items-insert_item g item (x ∷ xs) h k =
    let (here, later) = raised_first-none (check_item g x) (check_items g xs) k in
    elim (Bool-cases (ltb x.order item.order)) [
      | inl e ↦ cc (e, check_items-insert_item g item xs h later)
      | inr e ↦ cc
    ]

check_items-sorted_items :
    (g : SiteGraph) (xs : List DemoPlaylistItem)
    → check_items g xs ≡ none
    → check_items g (sorted_items xs) ≡ none
unfolding check_items sorted_items
check_items-sorted_items g [] k = refl
check_items-sorted_items g (x ∷ xs) k =
    let (here, later) = raised_first-none (check_item g x) (check_items g xs) k in
    check_items-insert_item g x (sorted_items xs) here (check_items-sorted_items g xs later)

check_item-flow :
    (g : SiteGraph) (item : DemoPlaylistItem)
    → check_item g item ≡ none
    → Returns (flow g item.page_id item.flow_id)
unfolding check_item
check_item-flow g item h = elim (Option-cases (get g.pages item.page_id)) [
  | inl e ↦ cc
  | inr (p, e) ↦ elim (Bool-cases (has p.flows item.flow_id)) [
    | inl f ↦
        let (calls, found) = has-get p.flows item.flow_id f in
        (calls, flow-get g item.page_id item.flow_id calls p e found)
    | inr f ↦ cc
  ]
]

check_items-pairs :
    (g : SiteGraph) (xs : List DemoPlaylistItem) (i : ℕ) (page_id flow_id : String)
    → check_items g xs ≡ none
    → get_elem? (map pair_of xs) i ≡ some (page_id, flow_id)
    → Returns (flow g page_id flow_id)
unfolding check_items
check_items-pairs g [] i page_id flow_id h e = cc
check_items-pairs g (x ∷ xs) zero page_id flow_id h e =
    let (calls, found) =
      check_item-flow g x (raised_first-none (check_item g x) (check_items g xs) h).0 in
    (calls, cc)
check_items-pairs g (x ∷ xs) (suc i) page_id flow_id h e =
    check_items-pairs g xs i page_id flow_id
      (raised_first-none (check_item g x) (check_items g xs) h).1 e

-- All calls of a flow resolve.
abbrev AllResolve : SiteGraph → String → List ToolCall → Type 0
AllResolve g page_id [] = Unit {0}
AllResolve g page_id (call ∷ calls) = Resolves g page_id call × AllResolve g page_id calls

AllResolve-each :
    (g : SiteGraph) (page_id : String) (calls : List ToolCall)
    → ((i : ℕ) (call : ToolCall) → get_elem? calls i ≡ some call → Resolves g page_id call)
    → AllResolve g page_id calls
AllResolve-each g page_id [] each = tt
AllResolve-each g page_id (call ∷ calls) each =
    (each 0 call refl, AllResolve-each g page_id calls (λ i c e. each (suc i) c e))

-- What is looked up while a flow runs: each call on the page that the calls before it have led to.
abbrev pub Walks : SiteGraph → String → List ToolCall → Type 0
Walks g page_id [] = Unit {0}
Walks g page_id (call ∷ calls) = Resolves g page_id call × Walks g (page_after page_id call) calls

-- The calls of a flow up to the first one that leads to another page, and that one.
unfoldable pub until_leaving : String → List ToolCall → List ToolCall
until_leaving page_id [] = []
until_leaving page_id (call ∷ calls) =
    let rest = until_leaving page_id calls in
    if page_after page_id call == page_id then call ∷ rest else call ∷ []

pub Walks-until_leaving :
    (g : SiteGraph) (page_id : String) (calls : List ToolCall)
    → AllResolve g page_id calls
    → Walks g page_id (until_leaving page_id calls)
unfolding until_leaving
Walks-until_leaving g page_id [] h = tt
Walks-until_leaving g page_id (call ∷ calls) (here, later) =
    elim (Bool-cases (page_after page_id call == page_id)) [
      | inl e ↦
          let stays = (eq_iff (page_after page_id call) page_id).0 e in
          rw e (
            here,
            subst (λ p. Walks g p (until_leaving page_id calls)) (sym stays)
                (Walks-until_leaving g page_id calls later),
          )
      | inr e ↦ rw e (here, tt)
    ]

-- In a graph that the cross-check accepts, the flow of every entry of the playlist is found, and
-- everything that its calls refer to is found on the page on which the flow starts.
pub playlist_pairs-AllResolve :
    (g : SiteGraph) (i : ℕ) (page_id flow_id : String)
    → cross_check g ≡ none
    → get_elem? (playlist_pairs g) i ≡ some (page_id, flow_id)
    → (calls : List ToolCall) × (flow g page_id flow_id ≡ inr calls) × AllResolve g page_id calls
unfolding cross_check playlist_pairs
playlist_pairs-AllResolve g i page_id flow_id passed at =
    let items_pass =
      (raised_first-none (check_pages g g.pages) (check_items g g.demo_playlist) passed).1 in
    let (calls, found) =
      check_items-pairs g (sorted_items g.demo_playlist) i page_id flow_id
        (check_items-sorted_items g g.demo_playlist items_pass) at in
    (
      calls,
      found,
      AllResolve-each g page_id calls
          (λ j call e. cross_check-Resolves g page_id flow_id calls j call passed found e),
    )
