-- ===== src/App/Registry/Live.antt =====
-- What live demos may run, after any calls of navigator/app/registry.py.
use mathlib.Core.Option.{some-injective}
use navigator_ai.Prelude.{
  strip, codes, ℕ, ◌+◌, ◌<◌, ◌≡◌, ◌⊎◌, refl, sym, ◌∙◌, subst, inl, inr, String, Bool, true, false,
  Option, none, some, List, [], ◌∷◌, ◌++◌, ◌&&◌, Bool-cases, arith, ◌==◌, string_eq, nat_eq,
  nat_beq_iff, eq_iff, beq_refl, if◌then◌else◌, if_true, if_false,
}
use navigator_ai.App.Registry.{
  SiteGraphSource, Product, SiteGraphRevision, Registry, SiteGraph, product_by_id, update_product,
  is_found, new_product, register, rotate_api_key, set_handoff_webhook, revision_row, max_revision,
  mark_published, set_active, new_revision, activate,
}
use navigator_ai.App.Registry.Rows.{is_published, revision_row-append, revision_row-max_revision}
use navigator_ai.App.Registry.Runs.{
  Op, registers, rotates, sets_webhook, puts, activates, stored, activated, uploaded, run, run_all,
  put_site_graph_lem,
}

-- The revision that the live demos of a product run.
abbrev pub active_of : Option Product → Option ℕ
active_of none = none
active_of (some x) = x.active_revision

abbrev pub active : String → Registry → Option ℕ
active p r = active_of (product_by_id p r.products)

-- Every active revision is stored and published.
abbrev pub IsLive : Registry → Type 0
IsLive r =
    (p : String) (n : ℕ)
    → active p r ≡ some n
    → is_published (revision_row p n r.site_graph_revisions) ≡ true

pub active-append :
    (p : String) (xs : List Product) (x : Product)
    → x.active_revision ≡ none
    → active_of (product_by_id p (xs ++ x ∷ [])) ≡ active_of (product_by_id p xs)
unfolding product_by_id
active-append p [] x h = ground (arith, h)
active-append p (y ∷ xs) x h = ground (arith, active-append p xs x h)

-- An update that touches neither the id nor the active revision.
pub active-update_product :
    (f : Product → Product) (p q : String) (xs : List Product)
    → ((x : Product)
        → ((f x).product_id ≡ x.product_id) × ((f x).active_revision ≡ x.active_revision))
    → active_of (product_by_id q (update_product f p xs)) ≡ active_of (product_by_id q xs)
unfolding product_by_id update_product
active-update_product f p q [] h = refl
active-update_product f p q (x ∷ xs) h = ground (arith, active-update_product f p q xs h, h x)

pub active-set_active :
    (p q : String) (n : ℕ) (xs : List Product)
    → active_of (product_by_id q (update_product (set_active n) p xs)) ≡ (
        if (p == q) && is_found (product_by_id q xs)
        then some n
        else active_of (product_by_id q xs))
unfolding product_by_id update_product
active-set_active p q n [] = ground arith
active-set_active p q n (x ∷ xs) =
    ground
      (arith, active-set_active p q n xs, eq_iff x.product_id p, eq_iff x.product_id q, eq_iff p q)

published-append :
    (q : String) (m : ℕ) (vs : List SiteGraphRevision) (w : SiteGraphRevision)
    → is_published (revision_row q m vs) ≡ true
    → is_published (revision_row q m (vs ++ w ∷ [])) ≡ true
unfolding revision_row
published-append q m [] w h = cc
published-append q m (v ∷ vs) w h = ground (arith, published-append q m vs w)

published-mark_published :
    (p q : String) (n m : ℕ) (vs : List SiteGraphRevision)
    → is_published (revision_row q m vs) ≡ true
    → is_published (revision_row q m (mark_published p n vs)) ≡ true
unfolding revision_row mark_published
published-mark_published p q n m [] h = cc
published-mark_published p q n m (v ∷ vs) h = ground (arith, published-mark_published p q n m vs)

mark_published-found :
    (p : String) (n : ℕ) (vs : List SiteGraphRevision)
    → is_found (revision_row p n vs) ≡ true
    → is_published (revision_row p n (mark_published p n vs)) ≡ true
unfolding revision_row mark_published
mark_published-found p n [] h = cc
mark_published-found p n (v ∷ vs) h = ground (arith, mark_published-found p n vs)

published-new :
    (v : SiteGraphRevision) (vs : List SiteGraphRevision)
    → v.published ≡ true
    → max_revision v.product_id vs < v.revision
    → is_published (revision_row v.product_id v.revision (vs ++ v ∷ [])) ≡ true
published-new v vs h lt = ground (
  arith,
  revision_row-append v.product_id v.revision vs v,
  revision_row-max_revision v.product_id v.revision vs lt,
  beq_refl v.product_id,
  nat_beq_iff v.revision v.revision,
  h,
)

IsLive-products :
    (r : Registry) (xs : List Product)
    → ((p : String) → active_of (product_by_id p xs) ≡ active p r)
    → IsLive r
    → IsLive (record r { products = xs })
IsLive-products r xs h i p n a = i p n (sym (h p) ∙ a)

IsLive-draft : (v : SiteGraphRevision) (r : Registry) → IsLive r → IsLive (stored v false r)
IsLive-draft v r i p n a = published-append p n r.site_graph_revisions v (i p n a)

-- The active revision after it was set to `m` for the product `p`.
moved_active :
    (p q : String) (m n : ℕ) (xs : List Product)
    → active_of (product_by_id q (update_product (set_active m) p xs)) ≡ some n
    → ((p ≡ q) × (m ≡ n)) ⊎ (active_of (product_by_id q xs) ≡ some n)
moved_active p q m n xs a = elim (Bool-cases ((p == q) && is_found (product_by_id q xs))) [
  | inl e ↦
      let same : some m ≡ some n = sym (active-set_active p q m xs ∙ if_true _ _ e) ∙ a in
      inl ((eq_iff p q).0 (ground (arith, e)), some-injective m n same)
  | inr e ↦ inr (sym (active-set_active p q m xs ∙ if_false _ _ e) ∙ a)
]

IsLive-published :
    (v : SiteGraphRevision) (r : Registry)
    → v.published ≡ true
    → max_revision v.product_id r.site_graph_revisions < v.revision
    → IsLive r
    → IsLive (stored v true r)
IsLive-published v r h lt i p n a = elim (moved_active v.product_id p v.revision n r.products a) [
  | inl (e, f) ↦
      subst (λ q. is_published (revision_row q n (r.site_graph_revisions ++ v ∷ [])) ≡ true) e
        (subst
          (λ m.
            is_published (revision_row v.product_id m (r.site_graph_revisions ++ v ∷ [])) ≡ true)
          f (published-new v r.site_graph_revisions h lt))
  | inr b ↦ published-append p n r.site_graph_revisions v (i p n b)
]

IsLive-activated :
    (p : String) (n : ℕ) (r : Registry)
    → is_found (revision_row p n r.site_graph_revisions) ≡ true
    → IsLive r
    → IsLive (activated p n r)
IsLive-activated p n r h i q m a = elim (moved_active p q n m r.products a) [
  | inl (e, f) ↦
      subst
        (λ x. is_published (revision_row x m (mark_published p n r.site_graph_revisions)) ≡ true) e
        (subst
          (λ k. is_published (revision_row p k (mark_published p n r.site_graph_revisions)) ≡ true)
          f (mark_published-found p n r.site_graph_revisions h))
  | inr b ↦ published-mark_published p q n m r.site_graph_revisions (i q m b)
]

IsLive-uploaded :
    (p text : String) (source : SiteGraphSource) (publish : Bool) (now : ℕ) (r : Registry)
    (o : Option SiteGraph)
    → IsLive r
    → IsLive (uploaded p text source publish now r o).1
IsLive-uploaded p text source publish now r none i = i
IsLive-uploaded p text source true now r (some graph) i =
    IsLive-published
      (new_revision p text source true now graph (max_revision p r.site_graph_revisions + 1)) r refl
      (omega arith) i
IsLive-uploaded p text source false now r (some graph) i =
    IsLive-draft
      (new_revision p text source false now graph (max_revision p r.site_graph_revisions + 1)) r i

IsLive-if :
    {A : Type 0} (b : Bool) (x y : A × Registry)
    → (b ≡ true → IsLive x.1)
    → (b ≡ false → IsLive y.1)
    → IsLive (if b then x else y).1
IsLive-if true x y f g = f refl
IsLive-if false x y f g = g refl

module _ (parse : String → Option SiteGraph) where
  IsLive-run : (op : Op) (r : Registry) → IsLive r → IsLive (run parse op r)
  unfolding register rotate_api_key set_handoff_webhook activate
  IsLive-run (registers p name hash now) r i =
      IsLive-if (is_found (product_by_id p r.products)) _ _ (λ e. i)
        (λ e.
          IsLive-products r (r.products ++ new_product p name hash now ∷ [])
            (λ q. active-append q r.products (new_product p name hash now) refl) i)
  IsLive-run (rotates p hash) r i =
      IsLive-if (is_found (product_by_id p r.products)) _ _
        (λ e.
          IsLive-products r (update_product (λ x. record x { api_key_hash = hash }) p r.products)
            (λ q. active-update_product _ p q r.products (λ x. (refl, refl))) i)
        (λ e. i)
  IsLive-run (sets_webhook p url) r i =
      IsLive-if (is_found (product_by_id p r.products)) _ _
        (λ e.
          IsLive-products r
            (update_product (λ x. record x { handoff_webhook_url = strip (codes url) }) p
              r.products)
            (λ q. active-update_product _ p q r.products (λ x. (refl, refl))) i)
        (λ e. i)
  IsLive-run (puts p text source publish now) r i =
      subst (λ o. IsLive o.1) (sym (put_site_graph_lem parse p text source publish now r))
        (IsLive-if (is_found (product_by_id p r.products)) _ _
          (λ e. IsLive-uploaded p text source publish now r (parse text) i) (λ e. i))
  IsLive-run (activates p n) r i =
      IsLive-if (is_found (revision_row p n r.site_graph_revisions)) _ _
        (λ e. IsLive-activated p n r e i) (λ e. i)

  -- Whatever products are registered, keys rotated, graphs uploaded and revisions activated, in any order, the
  -- active revision of a product, which its live demos run, is a stored revision that is
  -- published: no draft is ever run live.
  pub run_all-IsLive : (ops : List Op) (r : Registry) → IsLive r → IsLive (run_all parse ops r)
  run_all-IsLive [] r i = i
  run_all-IsLive (op ∷ ops) r i = run_all-IsLive ops (run parse op r) (IsLive-run op r i)
