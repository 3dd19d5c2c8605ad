-- ===== src/App/Registry/Keys.antt =====
-- API keys of navigator/app/registry.py: registration, authentication and rotation.
use navigator_ai.Prelude.{
  String, Bool, true, false, Option, none, some, List, [], ◌∷◌, ◌==◌, string_eq, if◌then◌else◌,
}
use navigator_ai.App.Registry.{Product, Registry}

abbrev pub id_of : Option Product → Option String
id_of none = none
id_of (some x) = some x.product_id

-- Whether every product with a key hash is the product `p`.
abbrev only_of : String → String → List Product → Bool
only_of h p [] = true
only_of h p (x ∷ xs) =
    if x.api_key_hash == h
    then (if x.product_id == p then only_of h p xs else false)
    else only_of h p xs

abbrev with_key : String → Product → Product
with_key h x = record x { api_key_hash = h }
