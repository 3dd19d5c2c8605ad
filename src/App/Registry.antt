-- ===== src/App/Registry.antt =====
-- navigator/app/registry.py: products and the revisions of their site graphs. The tables are
-- lists of rows in the order of insertion; keys, their hash and times are arguments, the
-- validator `parse_site_graph` is a parameter. A transaction is one step; indexing on publish and
-- agent settings are left out.
pub mod Rows
pub mod Runs
pub mod Live
pub mod Demos
pub mod Uploads
pub mod Reading
pub mod Keys
pub mod Graphs
mod Tests
use navigator_ai.Knowledge.SiteGraph.{SiteGraph}
use navigator_ai.Prelude.{
  ℕ, zero, suc, ◌+◌, max, String, Bool, true, false, Option, none, some, List, [], ◌∷◌, ◌++◌, ◌&&◌,
  ◌||◌, ◌==◌, string_eq, nat_eq, if◌then◌else◌, Text, codes, strip,
}

pub data SiteGraphSource : Type 0 where
  yaml recorded explored sdk guided : SiteGraphSource

pub record Product : Type 0 where
  pub product_id : String
  pub name : String
  pub api_key_hash : String
  pub created_at : ℕ
  pub active_revision : Option ℕ
  pub handoff_webhook_url : Text

pub record SiteGraphRevision : Type 0 where
  pub product_id : String
  pub revision : ℕ
  pub source : SiteGraphSource
  pub yaml_text : String
  pub created_at : ℕ
  pub site : String
  pub graph_version : ℕ
  pub published : Bool

pub record Registry : Type 0 where
  pub products : List Product
  pub site_graph_revisions : List SiteGraphRevision

pub data RegistryError : Type 0 where
  already_registered no_such_product invalid_key no_site_graph nothing_published no_such_revision
        site_graph_error integrity_error :
      RegistryError

pub data Result (A : Type 0) : Type 0 where
  raised : RegistryError → Result A
  returned : A → Result A

-- `SELECT * FROM products WHERE product_id = ?`, and by the hash of the key.
unfoldable pub product_by_id : String → List Product → Option Product
product_by_id p [] = none
product_by_id p (x ∷ xs) =
    let rest = product_by_id p xs in if x.product_id == p then some x else rest

unfoldable pub product_by_hash : String → List Product → Option Product
product_by_hash h [] = none
product_by_hash h (x ∷ xs) =
    let rest = product_by_hash h xs in if x.api_key_hash == h then some x else rest

abbrev pub or_raise : {A : Type 0} → RegistryError → Option A → Result A
or_raise e none = raised e
or_raise e (some a) = returned a

unfoldable pub get : String → Registry → Result Product
unfolding product_by_id
get p r = or_raise no_such_product (product_by_id p r.products)

abbrev pub is_found : {A : Type 0} → Option A → Bool
is_found none = false
is_found (some a) = true

abbrev pub new_product : String → String → String → ℕ → Product
new_product p name hash now = record {
  product_id = p;
  name = name;
  api_key_hash = hash;
  created_at = now;
  active_revision = none;
  handoff_webhook_url = [];
}

-- `register`, with the id that was given or derived and the hash of the new key.
unfoldable pub register : String → String → String → ℕ → Registry → Result Product × Registry
unfolding product_by_id
register p name hash now r =
    if is_found (product_by_id p r.products) then (raised already_registered, r) else (
      returned (new_product p name hash now),
      record r { products = r.products ++ new_product p name hash now ∷ [] },
    )

unfoldable pub authenticate : String → Registry → Result Product
unfolding product_by_hash
authenticate hash r = or_raise invalid_key (product_by_hash hash r.products)

-- `UPDATE products SET … WHERE product_id = ?`
unfoldable pub update_product : (Product → Product) → String → List Product → List Product
update_product f p [] = []
update_product f p (x ∷ xs) =
    let rest = update_product f p xs in if x.product_id == p then f x ∷ rest else x ∷ rest

unfoldable pub rotate_api_key : String → String → Registry → Result String × Registry
unfolding product_by_id update_product
rotate_api_key p hash r =
    if is_found (product_by_id p r.products)
    then (
      returned hash,
      record r { products = update_product (λ x. record x { api_key_hash = hash }) p r.products },
    )
    else (raised no_such_product, r)

unfoldable pub set_handoff_webhook : String → String → Registry → Result Product × Registry
unfolding get product_by_id update_product
set_handoff_webhook p url r =
    if is_found (product_by_id p r.products)
    then (let r' : Registry = record r {
      products =
          update_product (λ x. record x { handoff_webhook_url = strip (codes url) }) p r.products;
    } in
        (get p r', r'))
    else (raised no_such_product, r)

-- `SELECT * FROM site_graph_revisions WHERE product_id = ? AND revision = ?`
unfoldable pub revision_row : String → ℕ → List SiteGraphRevision → Option SiteGraphRevision
revision_row p n [] = none
revision_row p n (v ∷ vs) =
    let rest = revision_row p n vs in
    if (v.product_id == p) && (v.revision == n) then some v else rest

-- `COALESCE(MAX(revision), 0)` of a product.
unfoldable pub max_revision : String → List SiteGraphRevision → ℕ
max_revision p [] = 0
max_revision p (v ∷ vs) =
    let rest = max_revision p vs in if v.product_id == p then max v.revision rest else rest

-- `ORDER BY revision DESC LIMIT 1`
unfoldable pub latest_revision : String → Registry → Result SiteGraphRevision
unfolding max_revision revision_row
latest_revision p r =
    or_raise no_site_graph
      (revision_row p (max_revision p r.site_graph_revisions) r.site_graph_revisions)

abbrev pub set_active : ℕ → Product → Product
set_active n x = record x { active_revision = some n }

-- One transaction of `put_site_graph`, which inserts a row under the next number; the primary
-- key refuses a number that is there.
unfoldable pub insert_revision :
    SiteGraphRevision → Bool → Registry → Result SiteGraphRevision × Registry
unfolding revision_row update_product
insert_revision v publish r =
    if is_found (revision_row v.product_id v.revision r.site_graph_revisions)
    then (raised integrity_error, r)
    else (
      returned v,
      record {
        products =
            if publish
            then update_product (set_active v.revision) v.product_id r.products
            else r.products;
        site_graph_revisions = r.site_graph_revisions ++ v ∷ [];
      },
    )

-- `for _attempt in range(6)`: again after an integrity error.
unfoldable pub put_attempts :
    ℕ → (ℕ → SiteGraphRevision) → String → Bool → Registry → Result SiteGraphRevision × Registry
unfolding insert_revision max_revision
put_attempts zero row p publish r = (raised integrity_error, r)
put_attempts (suc k) row p publish r =
    let again = put_attempts k row p publish r in
    let (result, r') =
      insert_revision (row (max_revision p r.site_graph_revisions + 1)) publish r in
    elim result [ raised e ↦ again | returned v ↦ (returned v, r') ]

abbrev pub new_revision :
    String → String → SiteGraphSource → Bool → ℕ → SiteGraph → ℕ → SiteGraphRevision
new_revision p text source publish now graph n = record {
  product_id = p;
  revision = n;
  source = source;
  yaml_text = text;
  created_at = now;
  site = graph.site;
  graph_version = graph.version;
  published = publish;
}

abbrev pub active_number : Result Product → Result ℕ
active_number (raised e) = raised e
active_number (returned x) = or_raise nothing_published x.active_revision

unfoldable pub published_revision : String → Registry → Result ℕ
unfolding get
published_revision p r = active_number (get p r)

-- The row of a number, or of the active revision of the product that `get` gave.
unfoldable pub numbered_row : String → ℕ → Registry → Result SiteGraphRevision
unfolding revision_row
numbered_row p n r = or_raise no_such_revision (revision_row p n r.site_graph_revisions)

unfoldable pub active_row : String → Registry → Result Product → Result SiteGraphRevision
unfolding numbered_row
active_row p r (raised e) = raised e
active_row p r (returned x) = elim x.active_revision [
  | none ↦ raised no_site_graph
  | some n ↦ numbered_row p n r
]

unfoldable pub get_revision : String → Option ℕ → Registry → Result SiteGraphRevision
unfolding get active_row numbered_row
get_revision p (some n) r = numbered_row p n r
get_revision p none r = active_row p r (get p r)

-- `UPDATE site_graph_revisions SET published = 1 WHERE product_id = ? AND revision = ?`
unfoldable pub mark_published : String → ℕ → List SiteGraphRevision → List SiteGraphRevision
mark_published p n [] = []
mark_published p n (v ∷ vs) =
    let rest = mark_published p n vs in
    if (v.product_id == p) && (v.revision == n)
    then record v { published = true } ∷ rest
    else v ∷ rest

-- `activate`; the call ends with a `get`, which raises if the product is not there.
unfoldable pub activate : String → ℕ → Registry → Result Product × Registry
unfolding get revision_row mark_published update_product
activate p n r =
    if is_found (revision_row p n r.site_graph_revisions)
    then (let r' : Registry = record {
      products = update_product (set_active n) p r.products;
      site_graph_revisions = mark_published p n r.site_graph_revisions;
    } in
        (get p r', r'))
    else (raised no_such_revision, r)

module _ (parse_site_graph : String → Option SiteGraph) where
  unfoldable pub put_site_graph :
      String → String → SiteGraphSource → Bool → ℕ → Registry → Result SiteGraphRevision × Registry
  unfolding product_by_id put_attempts
  put_site_graph p text source publish now r =
      if is_found (product_by_id p r.products)
      then elim (parse_site_graph text) [
        | none ↦ (raised site_graph_error, r)
        | some graph ↦ put_attempts 6 (new_revision p text source publish now graph) p publish r
      ]
      else (raised no_such_product, r)

  -- A stored text that the validator refuses raises its error.
  unfoldable pub parsed : Result SiteGraphRevision → Result SiteGraph
  parsed (raised e) = raised e
  parsed (returned v) = or_raise site_graph_error (parse_site_graph v.yaml_text)

  unfoldable pub load_graph : String → Option ℕ → Registry → Result SiteGraph
  unfolding get_revision parsed
  load_graph p n r = parsed (get_revision p n r)
