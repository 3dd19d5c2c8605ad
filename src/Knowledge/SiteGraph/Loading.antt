-- ===== src/Knowledge/SiteGraph/Loading.antt =====
-- Uploading a site graph: `parse_site_graph` of navigator/knowledge/site_graph.py.
use navigator_ai.Prelude.{
  ◌≡◌, refl, ap, String, true, Option, none, some, ◌⊎◌, inl, inr, Option-cases, Bool-cases, Text,
  codes, has_infix,
}
use navigator_ai.Knowledge.SiteGraph.{
  SiteGraph, SiteGraphError, absolute_base, checked, based, parsed, cross_check, parse_site_graph,
}

-- The graph that comes of a text without a directory; a text that is refused gives none.
abbrev pub accepted : {A : Type 0} → SiteGraphError ⊎ A → Option A
accepted (inl e) = none
accepted (inr a) = some a

absolute_base-upload :
    (url base : Text)
    → absolute_base url none ≡ inr base
    → (has_infix url (codes "://") ≡ true) × (base ≡ url)
unfolding absolute_base
absolute_base-upload url base e = elim (Bool-cases (has_infix url (codes "://"))) [
  | inl f ↦ (f, cc)
  | inr f ↦ cc
]

checked-passes : (h g : SiteGraph) → checked h ≡ inr g → (h ≡ g) × (cross_check g ≡ none)
checked-passes h g e = elim (Option-cases (cross_check h)) [ inl f ↦ (cc, cc) | inr (x, f) ↦ cc ]

-- A site graph that is uploaded, without a directory, is accepted only if its base URL has a scheme
-- and the cross-check passes for the graph that is returned.
pub parse_site_graph-passes :
    (read : String → String ⊎ SiteGraph) (text : String) (g : SiteGraph)
    → parse_site_graph read text none ≡ inr g
    → (has_infix g.base_url (codes "://") ≡ true) × (cross_check g ≡ none)
unfolding parse_site_graph
parse_site_graph-passes read text g e = parsed-passes (read text) e
  where
    based-passes :
        (h : SiteGraph) (r : SiteGraphError ⊎ Text)
        → absolute_base h.base_url none ≡ r
        → based h r ≡ inr g
        → (has_infix g.base_url (codes "://") ≡ true) × (cross_check g ≡ none)
    based-passes h (inl x) f k = cc
    based-passes h (inr base) f k =
        let (scheme, same) = absolute_base-upload h.base_url base f in
        let (is_g, passed) = checked-passes (record h { base_url = base }) g k in
        (cc (scheme, same, ap (λ x. x.base_url) is_g), passed)

    parsed-passes :
        (r : String ⊎ SiteGraph)
        → parsed none r ≡ inr g
        → (has_infix g.base_url (codes "://") ≡ true) × (cross_check g ≡ none)
    parsed-passes (inl message) k = cc
    parsed-passes (inr h) k = based-passes h (absolute_base h.base_url none) refl k
