-- ===== src/Agent/SemanticCache.antt =====
-- navigator/agent/semantic_cache.py: a bounded cache of retrieval results. The OrderedDict is the
-- list of its items, the oldest first; a call holds the lock throughout and is one step. Texts are
-- ASCII and `max_entries` is not negative.
pub mod Recency
pub mod Isolation
mod Tests
use navigator_ai.Prelude.{
  ℕ, Bool, true, false, Option, none, some, List, [], ◌∷◌, ◌++◌, leb, length, contains, ◌==◌,
  text_eq, if◌then◌else◌, Text, codes, lower, strip, has_infix,
}

-- `query.strip().lower()`
abbrev pub normal : Text → Text
normal query = lower (strip query)

-- `_key`
abbrev pub cache_key : Text → Text → Text
cache_key product_id query = product_id ++ (b':' ∷ normal query)

module _ {Result : Type 0} where
  unfoldable pub find : Text → List (Text × Result) → Option Result
  find key [] = none
  find key (item ∷ items) = if item.0 == key then some item.1 else find key items

  unfoldable pub without : Text → List (Text × Result) → List (Text × Result)
  without key [] = []
  without key (item ∷ items) =
      let rest = without key items in if item.0 == key then rest else item ∷ rest

  -- `self._data[key] = result; self._data.move_to_end(key)`
  abbrev pub to_end : Text → Result → List (Text × Result) → List (Text × Result)
  to_end key result items = without key items ++ (key, result) ∷ []

  -- `while len(self._data) > self.max_entries: self._data.popitem(last=False)`
  unfoldable pub evict : ℕ → List (Text × Result) → List (Text × Result)
  evict max_entries [] = []
  evict max_entries (item ∷ items) =
      let rest = evict max_entries items in
      if leb (length (item ∷ items)) max_entries then item ∷ items else rest

  abbrev moved : Text → Option Result → List (Text × Result) → List (Text × Result)
  moved key none items = items
  moved key (some result) items = to_end key result items

  unfoldable pub get : Text → Text → List (Text × Result) → Option Result × List (Text × Result)
  unfolding find without
  get product_id query items =
      let key = cache_key product_id query in (find key items, moved key (find key items) items)

  unfoldable pub put : ℕ → Text → Text → Result → List (Text × Result) → List (Text × Result)
  unfolding without evict
  put max_entries product_id query result items =
      evict max_entries (to_end (cache_key product_id query) result items)

-- `prefetch_queries`, with `dict.fromkeys` keeping the first of equal queries.
unfoldable from_keys : List Text → List Text → List Text
from_keys seen [] = []
from_keys seen (q ∷ qs) =
    let skipped = from_keys seen qs in
    let kept = q ∷ from_keys (q ∷ seen) qs in if contains seen q then skipped else kept

abbrev given_that : Bool → List Text → List Text
given_that true qs = qs
given_that false qs = []

unfoldable pub prefetch_queries : Text → List Text
unfolding from_keys
prefetch_queries base_query =
    let q = lower base_query in
    from_keys [] (
      (base_query ∷ [])
      ++ (given_that (has_infix q (codes "pric"))
            (codes "how much does it cost" ∷ codes "billing" ∷ codes "enterprise plan" ∷ [])
          ++ (given_that (if has_infix q (codes "search") then true else has_infix q (codes "find"))
                (codes "show me contact search" ∷ codes "find a contact" ∷ [])
              ++ given_that
                  (if has_infix q (codes "send") then true else has_infix q (codes "message"))
                  (codes "how do I send a message" ∷ codes "show messaging" ∷ []))))
