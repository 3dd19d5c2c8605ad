-- ===== src/App/Registry/Demos.antt =====
-- What a live demo gets from navigator/app/registry.py.
use navigator_ai.Prelude.{
  ℕ, ◌≡◌, refl, sym, ap, ◌∙◌, inl, inr, String, true, Option, none, some, List, [], Option-cases,
}
use navigator_ai.App.Registry.{
  Product, SiteGraph, SiteGraphRevision, Registry, Result, raised, returned, or_raise, get,
  product_by_id, active_number, published_revision, numbered_row, active_row, get_revision,
  revision_row, nothing_published, no_such_product, no_site_graph, no_such_revision,
}
use navigator_ai.App.Registry.Rows.{is_published}
use navigator_ai.App.Registry.Runs.{Op, run_all}
use navigator_ai.App.Registry.Live.{active, active_of, IsLive, run_all-IsLive}

abbrev pub no_products : Registry
no_products = record { products = []; site_graph_revisions = [] }

no_products-IsLive : IsLive no_products
unfolding product_by_id
no_products-IsLive p n a = cc

returned-injective : {A : Type 0} (a b : A) → returned a ≡ returned b → a ≡ b
returned-injective a b e = cc

active_of_number :
    (o : Option Product) (n : ℕ)
    → active_number (or_raise no_such_product o) ≡ returned n
    → (x : Product) × (o ≡ some x) × (x.active_revision ≡ some n)
active_of_number none n e = cc
active_of_number (some x) n e = elim (Option-cases x.active_revision) [
  | inl f ↦ absurd (nothing_there (sym (ap (or_raise nothing_published) f) ∙ e))
  | inr (m, f) ↦
      (x, refl, f ∙ ap some (returned-injective m n (sym (ap (or_raise nothing_published) f) ∙ e)))
]
  where
    nothing_there : ¬ (◌≡◌ {A = Result ℕ} (raised nothing_published) (returned n))
    nothing_there h = cc

row_of_published :
    (o : Option SiteGraphRevision)
    → is_published o ≡ true
    → (v : SiteGraphRevision) × (o ≡ some v) × (v.published ≡ true)
row_of_published none e = cc
row_of_published (some v) e = (v, refl, e)

get_revision-IsLive :
    (p : String) (n : ℕ) (r : Registry)
    → IsLive r
    → published_revision p r ≡ returned n
    → (v : SiteGraphRevision) × (get_revision p none r ≡ returned v) × (v.published ≡ true)
unfolding published_revision get get_revision active_row numbered_row
get_revision-IsLive p n r i e =
    let (x, found, number) = active_of_number (product_by_id p r.products) n e in
    let live : active p r ≡ some n = ap active_of found ∙ number in
    let (v, row, published) =
      row_of_published (revision_row p n r.site_graph_revisions) (i p n live) in
    (
      v,
      ap (λ o. active_row p r (or_raise no_such_product o)) found
          ∙ (ap (λ o. elim o [ none ↦ raised no_site_graph | some m ↦ numbered_row p m r ]) number
              ∙ ap (or_raise no_such_revision) row),
      published,
    )

-- Whatever products are registered, keys rotated, graphs uploaded and revisions activated, in any
-- order: if a product has a revision for live demos, that revision is found, and it is published. No
-- draft and no missing revision is ever run live.
pub published_revision-is_published :
    (parse : String → Option SiteGraph) (ops : List Op) (p : String) (n : ℕ)
    → published_revision p (run_all parse ops no_products) ≡ returned n
    → (v : SiteGraphRevision) × (get_revision p none (run_all parse ops no_products) ≡ returned v)
      × (v.published ≡ true)
published_revision-is_published parse ops p n e =
    get_revision-IsLive p n (run_all parse ops no_products)
      (run_all-IsLive parse ops no_products no_products-IsLive) e
