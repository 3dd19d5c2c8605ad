-- ===== src/App/Registry/Uploads.antt =====
-- What uploads and the other calls of navigator/app/registry.py leave alone, and reading back.
use navigator_ai.Prelude.{
  ℕ, ◌≡◌, refl, sym, ap, ◌∙◌, subst, String, Bool, true, false, Option, none, some, List, [], ◌∷◌,
  ◌++◌, ◌&&◌, arith, ◌==◌, string_eq, nat_eq, if◌then◌else◌, if_false,
}
use navigator_ai.App.Registry.{
  SiteGraphSource, Product, SiteGraphRevision, Registry, SiteGraph, product_by_id, update_product,
  is_found, new_product, register, rotate_api_key, set_handoff_webhook, revision_row,
  mark_published, set_active, activate,
}
use navigator_ai.App.Registry.Runs.{
  Op, registers, rotates, sets_webhook, puts, activates, uploaded, run, run_all, put_site_graph_lem,
}
use navigator_ai.App.Registry.Live.{
  active, active_of, active-append, active-update_product, active-set_active,
}

-- The text of a stored revision.
abbrev pub text_of : Option SiteGraphRevision → Option String
text_of none = none
text_of (some v) = some v.yaml_text

abbrev pub text_at : String → ℕ → Registry → Option String
text_at p n r = text_of (revision_row p n r.site_graph_revisions)

text_of-append :
    (p : String) (n : ℕ) (vs : List SiteGraphRevision) (w : SiteGraphRevision) (t : String)
    → text_of (revision_row p n vs) ≡ some t
    → text_of (revision_row p n (vs ++ w ∷ [])) ≡ some t
unfolding revision_row
text_of-append p n [] w t h = cc
text_of-append p n (v ∷ vs) w t h = ground (arith, text_of-append p n vs w t)

text_of-mark_published :
    (p q : String) (m n : ℕ) (vs : List SiteGraphRevision)
    → text_of (revision_row q n (mark_published p m vs)) ≡ text_of (revision_row q n vs)
unfolding revision_row mark_published
text_of-mark_published p q m n [] = refl
text_of-mark_published p q m n (v ∷ vs) = ground (arith, text_of-mark_published p q m n vs)

text-if :
    {A : Type 0} (p t : String) (n : ℕ) (b : Bool) (x y : A × Registry)
    → text_at p n x.1 ≡ some t
    → text_at p n y.1 ≡ some t
    → text_at p n (if b then x else y).1 ≡ some t
text-if p t n true x y e f = e
text-if p t n false x y e f = f

text_at-uploaded :
    (q t : String) (n : ℕ) (p text : String) (source : SiteGraphSource) (publish : Bool) (now : ℕ)
    (r : Registry) (o : Option SiteGraph)
    → text_at q n r ≡ some t
    → text_at q n (uploaded p text source publish now r o).1 ≡ some t
text_at-uploaded q t n p text source publish now r none h = h
text_at-uploaded q t n p text source publish now r (some graph) h =
    text_of-append q n r.site_graph_revisions _ t h

active-if :
    {A : Type 0} (q : String) (o : Option ℕ) (b : Bool) (x y : A × Registry)
    → active q x.1 ≡ o
    → active q y.1 ≡ o
    → active q (if b then x else y).1 ≡ o
active-if q o true x y e f = e
active-if q o false x y e f = f

-- The calls that may change what live demos of a product run.
abbrev goes_live : Op → String → Bool
goes_live (puts p text source publish now) q = publish && (p == q)
goes_live (activates p n) q = p == q
goes_live _ q = false

active-other :
    (p q : String) (n : ℕ) (xs : List Product)
    → (p == q) ≡ false
    → active_of (product_by_id q (update_product (set_active n) p xs))
      ≡ active_of (product_by_id q xs)
active-other p q n xs e =
    active-set_active p q n xs
    ∙ if_false {b = (p == q) && is_found (product_by_id q xs)} _ _ (ground (arith, e))

active-uploaded :
    (q p text : String) (source : SiteGraphSource) (publish : Bool) (now : ℕ) (r : Registry)
    (o : Option SiteGraph)
    → (publish && (p == q)) ≡ false
    → active q (uploaded p text source publish now r o).1 ≡ active q r
active-uploaded q p text source publish now r none h = refl
active-uploaded q p text source false now r (some graph) h = refl
active-uploaded q p text source true now r (some graph) h = active-other p q _ r.products h

module _ (parse : String → Option SiteGraph) where
  text_at-run :
      (op : Op) (r : Registry) (p : String) (n : ℕ) (t : String)
      → text_at p n r ≡ some t
      → text_at p n (run parse op r) ≡ some t
  unfolding register rotate_api_key set_handoff_webhook activate
  text_at-run (registers q name hash now) r p n t h =
      text-if p t n (is_found (product_by_id q r.products)) _ _ h h
  text_at-run (rotates q hash) r p n t h =
      text-if p t n (is_found (product_by_id q r.products)) _ _ h h
  text_at-run (sets_webhook q url) r p n t h =
      text-if p t n (is_found (product_by_id q r.products)) _ _ h h
  text_at-run (puts q text source publish now) r p n t h =
      subst (λ o. text_at p n o.1 ≡ some t)
        (sym (put_site_graph_lem parse q text source publish now r))
        (text-if p t n (is_found (product_by_id q r.products)) _ _
          (text_at-uploaded p t n q text source publish now r (parse text) h) h)
  text_at-run (activates q m) r p n t h =
      text-if p t n (is_found (revision_row q m r.site_graph_revisions)) _ _
        (text_of-mark_published q p m n r.site_graph_revisions ∙ h) h

  -- A revision that is stored keeps its number and its text through all later calls: uploads
  -- never overwrite, and no call deletes.
  pub run_all-text_at :
      (ops : List Op) (r : Registry) (p : String) (n : ℕ) (t : String)
      → text_at p n r ≡ some t
      → text_at p n (run_all parse ops r) ≡ some t
  run_all-text_at [] r p n t h = h
  run_all-text_at (op ∷ ops) r p n t h =
      run_all-text_at ops (run parse op r) p n t (text_at-run op r p n t h)

  -- Only an upload that is published and an activation, of the product itself, change what its
  -- live demos run: drafts, refused uploads, new products, new keys and webhooks and everything done to other products do not.
  pub run-active :
      (op : Op) (r : Registry) (q : String)
      → goes_live op q ≡ false
      → active q (run parse op r) ≡ active q r
  unfolding register rotate_api_key set_handoff_webhook activate
  run-active (registers p name hash now) r q h =
      active-if q _ (is_found (product_by_id p r.products)) _ _ refl
        (active-append q r.products (new_product p name hash now) refl)
  run-active (rotates p hash) r q h =
      active-if q _ (is_found (product_by_id p r.products)) _ _
        (active-update_product _ p q r.products (λ x. (refl, refl))) refl
  run-active (sets_webhook p url) r q h =
      active-if q _ (is_found (product_by_id p r.products)) _ _
        (active-update_product _ p q r.products (λ x. (refl, refl))) refl
  run-active (puts p text source publish now) r q h =
      ap (λ o. active q o.1) (put_site_graph_lem parse p text source publish now r)
      ∙ active-if q _ (is_found (product_by_id p r.products)) _ _
          (active-uploaded q p text source publish now r (parse text) h) refl
  run-active (activates p n) r q h =
      active-if q _ (is_found (revision_row p n r.site_graph_revisions)) _ _
        (active-other p q n r.products h) refl
