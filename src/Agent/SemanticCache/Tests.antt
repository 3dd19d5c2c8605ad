-- ===== src/Agent/SemanticCache/Tests.antt =====
-- Calls of the cache of navigator/agent/semantic_cache.py with a bound of two entries.
use navigator_ai.Prelude.{
  ℕ, ◌≡◌, ◌≤◌, refl, none, some, List, [], ◌∷◌, length, Text, codes, arith, lower, strip,
  starts_with, has_infix,
}
use navigator_ai.Agent.SemanticCache.{normal, get, put, prefetch_queries}
use navigator_ai.Agent.SemanticCache.Recency.{get-put}
use navigator_ai.Agent.SemanticCache.Isolation.{Op, gets, puts, run, WasPut, get-WasPut}

abbrev crm : Text
crm = codes "crm"

-- The second query is used again before the third entry is put, so that the first one is evicted.
abbrev calls : List (Op ℕ)
calls =
    puts crm (codes "price") 1
    ∷ puts crm (codes "Search") 2
    ∷ gets crm (codes "price")
    ∷ puts crm (codes "mail") 3
    ∷ []

price-kept : (get crm (codes " PRICE") (run 2 calls [])).0 ≡ some 1
unfolding get run put lower strip
price-kept = refl

search-evicted : (get crm (codes "search") (run 2 calls [])).0 ≡ none
unfolding get run put lower strip
search-evicted = refl

-- Two products share an entry if an id has a colon.
abbrev other_product : List (Op ℕ)
other_product = puts (codes "a:b") (codes "c") 7 ∷ []

colon-shares : (get (codes "a") (codes "b:c") (run 2 other_product [])).0 ≡ some 7
unfolding get run put lower strip
colon-shares = refl

find-suggests :
    prefetch_queries (codes "find")
    ≡ codes "find" ∷ codes "show me contact search" ∷ codes "find a contact" ∷ []
unfolding prefetch_queries has_infix starts_with lower
find-suggests = refl

same_query : normal (codes " Price ") ≡ normal (codes "price")
unfolding lower strip
same_query = refl

get-put_example :
    ((get crm (codes " Price ") (put 2 crm (codes "price") 5 (run 2 calls []))).0 ≡ some 5)
    × (length (put 2 crm (codes "price") 5 (run 2 calls [])) ≤ 2)
get-put_example =
    get-put 2 crm (codes "price") (codes " Price ") 5 (run 2 calls []) (omega arith) same_query

get-WasPut_example : WasPut crm (codes " PRICE") 1 calls
get-WasPut_example =
    get-WasPut 2 calls crm (codes " PRICE") 1 (refl, (refl, (refl, tt))) refl price-kept
