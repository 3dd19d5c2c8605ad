-- ===== src/App/Registry/Reading.antt =====
-- Reading back what `put_site_graph` of navigator/app/registry.py stored.
use navigator_ai.Prelude.{
  ℕ, ◌+◌, ◌<◌, max, ◌≡◌, refl, ap, ◌∙◌, String, Bool, true, Option, none, some, List, [], ◌∷◌, ◌++◌,
  arith, string_eq, nat_eq, nat_beq_iff, beq_refl, if_true,
}
use navigator_ai.App.Registry.{
  SiteGraphSource, Product, SiteGraphRevision, Registry, SiteGraph, returned, product_by_id,
  is_found, revision_row, max_revision, set_active, new_revision, put_site_graph, get,
  latest_revision, load_graph, get_revision, or_raise, no_such_revision, no_such_product,
  no_site_graph, site_graph_error, numbered_row, active_row, parsed,
}
use navigator_ai.App.Registry.Rows.{
  revision_row-append, revision_row-max_revision, product_by_id-update_product,
}
use navigator_ai.App.Registry.Runs.{stored, uploaded, put_site_graph-known}

max_revision-append :
    (v : SiteGraphRevision) (vs : List SiteGraphRevision)
    → max_revision v.product_id (vs ++ v ∷ []) ≡ max v.revision (max_revision v.product_id vs)
unfolding max_revision
max_revision-append v [] = rw (beq_refl v.product_id) refl
max_revision-append v (w ∷ vs) = ground (arith, max_revision-append v vs)

revision_row-new :
    (v : SiteGraphRevision) (vs : List SiteGraphRevision)
    → max_revision v.product_id vs < v.revision
    → revision_row v.product_id v.revision (vs ++ v ∷ []) ≡ some v
revision_row-new v vs lt = ground (
  arith,
  revision_row-append v.product_id v.revision vs v,
  revision_row-max_revision v.product_id v.revision vs lt,
  beq_refl v.product_id,
  nat_beq_iff v.revision v.revision,
)

latest_revision-stored :
    (v : SiteGraphRevision) (publish : Bool) (r : Registry)
    → max_revision v.product_id r.site_graph_revisions < v.revision
    → latest_revision v.product_id (stored v publish r) ≡ returned v
unfolding latest_revision
latest_revision-stored v publish r lt =
    let newest : max_revision v.product_id (r.site_graph_revisions ++ v ∷ []) ≡ v.revision =
      omega (arith, max_revision-append v r.site_graph_revisions, lt) in
    ap
      (λ n. or_raise no_site_graph (revision_row v.product_id n (r.site_graph_revisions ++ v ∷ [])))
      newest
    ∙ ap (or_raise no_site_graph) (revision_row-new v r.site_graph_revisions lt)

numbered_row-stored :
    (v : SiteGraphRevision) (publish : Bool) (r : Registry)
    → max_revision v.product_id r.site_graph_revisions < v.revision
    → numbered_row v.product_id v.revision (stored v publish r) ≡ returned v
unfolding numbered_row
numbered_row-stored v publish r lt =
    ap (or_raise no_such_revision) (revision_row-new v r.site_graph_revisions lt)

get-stored :
    (v : SiteGraphRevision) (r : Registry) (x : Product)
    → product_by_id v.product_id r.products ≡ some x
    → get v.product_id (stored v true r) ≡ returned (set_active v.revision x)
unfolding get
get-stored v r x e = ap (or_raise no_such_product) (
    product_by_id-update_product (set_active v.revision) v.product_id v.product_id r.products
      (λ y. refl)
    ∙ (if_true _ _ (beq_refl v.product_id)
        ∙ ap (λ o. elim o [ none ↦ none | some y ↦ some (set_active v.revision y) ]) e))

active_row-stored :
    (v : SiteGraphRevision) (r : Registry) (x : Product)
    → product_by_id v.product_id r.products ≡ some x
    → max_revision v.product_id r.site_graph_revisions < v.revision
    → get_revision v.product_id none (stored v true r) ≡ returned v
unfolding get_revision active_row
active_row-stored v r x e lt =
    ap (active_row v.product_id (stored v true r)) (get-stored v r x e)
    ∙ numbered_row-stored v true r lt

-- The row of an upload.
abbrev pub next_row :
    String → String → SiteGraphSource → ℕ → Registry → SiteGraph → Bool → SiteGraphRevision
next_row p text source now r graph publish =
    new_revision p text source publish now graph (max_revision p r.site_graph_revisions + 1)

-- What a call without a number reads once a revision was uploaded: a published one is the active
-- one, a draft leaves it as it was.
module _ (parse : String → Option SiteGraph) (p text : String) (source : SiteGraphSource) (now : ℕ)
    (r : Registry) (x : Product) (graph : SiteGraph) (found : product_by_id p r.products ≡ some x)
    (valid : parse text ≡ some graph) where
  put_site_graph-valid :
      (publish : Bool)
      → put_site_graph parse p text source publish now r ≡ (
        returned (next_row p text source now r graph publish),
        stored (next_row p text source now r graph publish) publish r,
      )
  put_site_graph-valid publish =
      put_site_graph-known parse p text source publish now r (ap is_found found)
      ∙ ap (uploaded p text source publish now r) valid

  -- A valid upload for a known product is what the client edits next, the latest revision; its
  -- graph is loaded by its number, and, if the upload was published, without a number as well.
  pub put_site_graph-loaded :
      (publish : Bool)
      → let after = (put_site_graph parse p text source publish now r).1 in
        (latest_revision p after ≡ returned (next_row p text source now r graph publish))
        × (load_graph parse p (some (next_row p text source now r graph publish).revision) after
            ≡ returned graph)
        × ((put_site_graph parse p text source true now r).0
            ≡ returned (next_row p text source now r graph true))
        × (load_graph parse p none (put_site_graph parse p text source true now r).1
            ≡ returned graph)
  unfolding load_graph get_revision parsed
  put_site_graph-loaded publish =
      let lt : max_revision p r.site_graph_revisions < max_revision p r.site_graph_revisions + 1 =
        omega arith in
      let after = ap (λ o. o.1) (put_site_graph-valid publish) in
      let live = ap (λ o. o.1) (put_site_graph-valid true) in
      let text_loaded = ap (or_raise site_graph_error) valid in
      (
        ap (latest_revision p) after
            ∙ latest_revision-stored (next_row p text source now r graph publish) publish r lt,
        ap
              (λ s.
                parsed parse
                  (numbered_row p (next_row p text source now r graph publish).revision s))
              after
            ∙ (ap (parsed parse)
                  (numbered_row-stored (next_row p text source now r graph publish) publish r lt)
                ∙ text_loaded),
        ap (λ o. o.0) (put_site_graph-valid true),
        ap (λ s. parsed parse (get_revision p none s)) live
            ∙ (ap (parsed parse)
                  (active_row-stored (next_row p text source now r graph true) r x found lt)
                ∙ text_loaded),
      )
