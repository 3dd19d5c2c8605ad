-- ===== src/App/Registry/Rows.antt =====
-- The tables of navigator/app/registry.py after an update.
use navigator_ai.Prelude.{
  ℕ, ◌<◌, ◌≡◌, refl, String, Bool, false, Option, none, some, List, [], ◌∷◌, ◌++◌, ◌&&◌, arith,
  ◌==◌, string_eq, nat_eq, nat_beq_iff, eq_iff, if◌then◌else◌,
}
use navigator_ai.App.Registry.{
  Product, SiteGraphRevision, product_by_id, update_product, is_found, revision_row, max_revision,
}

-- Whether a revision is published, if it is there.
abbrev pub is_published : Option SiteGraphRevision → Bool
is_published none = false
is_published (some v) = v.published

abbrev pub same_row : String → ℕ → SiteGraphRevision → Bool
same_row p n v = (v.product_id == p) && (v.revision == n)

pub revision_row-append :
    (q : String) (m : ℕ) (vs : List SiteGraphRevision) (w : SiteGraphRevision)
    → revision_row q m (vs ++ w ∷ []) ≡ (
        if is_found (revision_row q m vs)
        then revision_row q m vs
        else if same_row q m w
        then some w
        else none)
unfolding revision_row
revision_row-append q m [] w = refl
revision_row-append q m (v ∷ vs) w = ground (arith, revision_row-append q m vs w)

-- No row of a product has a number above the maximum.
pub revision_row-max_revision :
    (p : String) (n : ℕ) (vs : List SiteGraphRevision)
    → max_revision p vs < n
    → revision_row p n vs ≡ none
unfolding revision_row max_revision
revision_row-max_revision p n [] h = refl
revision_row-max_revision p n (v ∷ vs) h =
    ground (arith, revision_row-max_revision p n vs, nat_beq_iff v.revision n)

pub product_by_id-update_product :
    (f : Product → Product) (p q : String) (xs : List Product)
    → ((x : Product) → (f x).product_id ≡ x.product_id)
    → product_by_id q (update_product f p xs) ≡ (
        if p == q
        then (elim (product_by_id q xs) [ none ↦ none | some x ↦ some (f x) ])
        else product_by_id q xs)
unfolding product_by_id update_product
product_by_id-update_product f p q [] h = ground arith
product_by_id-update_product f p q (x ∷ xs) h = ground (
  arith,
  product_by_id-update_product f p q xs h,
  h x,
  eq_iff x.product_id p,
  eq_iff x.product_id q,
  eq_iff p q,
)
