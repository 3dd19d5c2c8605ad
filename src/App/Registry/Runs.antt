-- ===== src/App/Registry/Runs.antt =====
-- The operations of navigator/app/registry.py as steps, and what each does to the tables.
use navigator_ai.Prelude.{
  ℕ, suc, ◌+◌, ◌≡◌, refl, sym, ap, ◌∙◌, inl, inr, String, Bool, true, Option, none, some, List, [],
  ◌∷◌, ◌++◌, Bool-cases, arith, string_eq, nat_eq, if◌then◌else◌,
}
use navigator_ai.App.Registry.{
  SiteGraphSource, SiteGraphRevision, Registry, SiteGraph, no_such_product, site_graph_error,
  Result, raised, returned, product_by_id, update_product, is_found, register, rotate_api_key,
  set_handoff_webhook, revision_row, max_revision, mark_published, set_active, insert_revision,
  put_attempts, new_revision, activate, put_site_graph,
}
use navigator_ai.App.Registry.Rows.{revision_row-max_revision}

-- The calls that write.
pub data Op : Type 0 where
  registers : String → String → String → ℕ → Op
  rotates : String → String → Op
  sets_webhook : String → String → Op
  puts : String → String → SiteGraphSource → Bool → ℕ → Op
  activates : String → ℕ → Op

-- The state after a `put_site_graph` that stores a revision.
abbrev pub stored : SiteGraphRevision → Bool → Registry → Registry
stored v publish r = record {
  products =
      if publish
      then update_product (set_active v.revision) v.product_id r.products
      else r.products;
  site_graph_revisions = r.site_graph_revisions ++ v ∷ [];
}

abbrev pub activated : String → ℕ → Registry → Registry
activated p n r = record {
  products = update_product (set_active n) p r.products;
  site_graph_revisions = mark_published p n r.site_graph_revisions;
}

insert_revision-fresh :
    (v : SiteGraphRevision) (publish : Bool) (r : Registry)
    → revision_row v.product_id v.revision r.site_graph_revisions ≡ none
    → insert_revision v publish r ≡ (returned v, stored v publish r)
unfolding insert_revision
insert_revision-fresh v publish r e = rw (e, insert_revision) refl

-- The first attempt succeeds: the next number is not taken.
put_attempts-first :
    (k : ℕ) (row : ℕ → SiteGraphRevision) (p : String) (publish : Bool) (r : Registry)
    → ((n : ℕ) → ((row n).product_id ≡ p) × ((row n).revision ≡ n))
    → let v = row (max_revision p r.site_graph_revisions + 1) in
      put_attempts (suc k) row p publish r ≡ (returned v, stored v publish r)
unfolding put_attempts
put_attempts-first k row p publish r h =
    let n = max_revision p r.site_graph_revisions + 1 in
    let free : revision_row (row n).product_id (row n).revision r.site_graph_revisions ≡ none =
      rw ((h n).0, (h n).1) (revision_row-max_revision p n r.site_graph_revisions (omega arith)) in
    let inserted = insert_revision-fresh (row n) publish r free in
    rw (inserted, put_attempts)
      (ap {B = Result SiteGraphRevision × Registry} (λ o. (returned (row n), o.1)) inserted)

-- What an upload does with the graph that its text stands for.
abbrev pub uploaded :
    String
    → String
    → SiteGraphSource
    → Bool
    → ℕ
    → Registry
    → Option SiteGraph
    → Result SiteGraphRevision × Registry
uploaded p text source publish now r none = (raised site_graph_error, r)
uploaded p text source publish now r (some graph) =
    let v =
      new_revision p text source publish now graph (max_revision p r.site_graph_revisions + 1) in
    (returned v, stored v publish r)

module _ (parse : String → Option SiteGraph) where
  abbrev pub run : Op → Registry → Registry
  run (registers p name hash now) r = (register p name hash now r).1
  run (rotates p hash) r = (rotate_api_key p hash r).1
  run (sets_webhook p url) r = (set_handoff_webhook p url r).1
  run (puts p text source publish now) r = (put_site_graph parse p text source publish now r).1
  run (activates p n) r = (activate p n r).1

  abbrev pub run_all : List Op → Registry → Registry
  run_all [] r = r
  run_all (op ∷ ops) r = run_all ops (run op r)

  pub put_site_graph-known :
      (p text : String) (source : SiteGraphSource) (publish : Bool) (now : ℕ) (r : Registry)
      → is_found (product_by_id p r.products) ≡ true
      → put_site_graph parse p text source publish now r
        ≡ uploaded p text source publish now r (parse text)
  unfolding put_site_graph
  put_site_graph-known p text source publish now r e = rw e (by_text (parse text))
    where
      by_text :
          (o : Option SiteGraph)
          → elim o [
            | none ↦ (raised site_graph_error, r)
            | some graph ↦ put_attempts 6 (new_revision p text source publish now graph) p publish r
          ]
            ≡ uploaded p text source publish now r o
      by_text none = refl
      by_text (some graph) =
          put_attempts-first 5 (new_revision p text source publish now graph) p publish r
            (λ n. (refl, refl))

  -- An upload is refused, with nothing stored, for an unknown product or a text that the
  -- validator refuses; any other is stored, at the first attempt, under the number after the highest number of the
  -- product, and becomes the active revision exactly if it is published.
  pub put_site_graph_lem :
      (p text : String) (source : SiteGraphSource) (publish : Bool) (now : ℕ) (r : Registry)
      → put_site_graph parse p text source publish now r ≡ (
          if is_found (product_by_id p r.products)
          then uploaded p text source publish now r (parse text)
          else (raised no_such_product, r))
  unfolding put_site_graph
  put_site_graph_lem p text source publish now r =
      elim (Bool-cases (is_found (product_by_id p r.products))) [
        | inl e ↦ put_site_graph-known p text source publish now r e ∙ sym (chosen e)
        | inr e ↦ rw e refl
      ]
    where
      chosen :
          is_found (product_by_id p r.products) ≡ true
          → (if is_found (product_by_id p r.products)
              then uploaded p text source publish now r (parse text)
              else (raised no_such_product, r))
            ≡ uploaded p text source publish now r (parse text)
      chosen e = rw e refl
