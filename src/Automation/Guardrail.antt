-- ===== src/Automation/Guardrail.antt =====
-- navigator/automation/explore/guardrail.py: whether the explorer may act on an element. The
-- judge, the prompt it is asked with, `json.loads` and `repr` are parameters; texts are ASCII.
pub mod Words
pub mod Keywords
pub mod Safety
mod Tests
use navigator_ai.Prelude.{
  ℕ, String, Bool, true, false, Option, none, some, List, [], ◌∷◌, ◌++◌, map, not, ◌&&◌, ◌||◌, leb,
  take, keep_if, ◌==◌, string_eq, nat_eq, contains, if◌then◌else◌, Text, text_eq, codes, lower,
  strip, starts_with, has_infix, eq_iff, ◌>>=◌,
}

-- `el.get(name)` of an element is a text, and "" for a name it does not have.
abbrev pub Element : Type 0
Element = List (String × Text)

unfoldable pub get : String → Element → Text
get name [] = []
get name ((n, v) ∷ el) = let rest = get name el in if n == name then v else rest

pub data Source : Type 0 where
  keyword nav_heuristic fail_closed llm safe : Source

pub record GuardrailVerdict : Type 0 where
  pub flagged : Bool
  pub reason : Text
  pub source : Source

abbrev pub is_empty : Text → Bool
is_empty [] = true
is_empty (c ∷ s) = false

-- `x or y` of two texts.
abbrev pub or_else : Text → Text → Text
or_else [] t = t
or_else (c ∷ s) t = c ∷ s

abbrev destructive_keywords : List Text
destructive_keywords = map codes (
    "delete" ∷ "remove" ∷ "cancel" ∷ "unsubscribe" ∷ "send" ∷ "submit" ∷ "pay" ∷ "charge" ∷ "invite"
    ∷ "publish" ∷ "destroy" ∷ "archive" ∷ "deactivate" ∷ "revoke" ∷ "transfer" ∷ "purchase"
    ∷ "checkout" ∷ "confirm" ∷ "erase" ∷ "wipe" ∷ "reset" ∷ "terminate" ∷ "suspend" ∷ "disable"
    ∷ "uninstall" ∷ "withdraw" ∷ "refund" ∷ "downgrade" ∷ "upgrade" ∷ "subscribe" ∷ "buy" ∷ "order"
    ∷ [])

abbrev pub text_fields : List String
text_fields = "text" ∷ "label" ∷ "aria_label" ∷ "name" ∷ "value" ∷ "title" ∷ "alt" ∷ []

-- `" ".join(parts)`
unfoldable pub join_spaces : List Text → Text
join_spaces [] = []
join_spaces (p ∷ []) = p
join_spaces (p ∷ q ∷ ps) = p ++ (b' ' ∷ join_spaces (q ∷ ps))

unfoldable pub element_text_blob : Element → Text
unfolding get join_spaces
element_text_blob el =
    strip (join_spaces (keep_if (λ p. not (is_empty p)) (map (λ f. get f el) text_fields)))

abbrev pub is_letter : ℕ → Bool
is_letter c = leb b'a' c && leb c b'z'

-- `re.findall(r"[a-z]+", s)`, with the letters of the word that is being read.
unfoldable pub words_after : Text → Text → List Text
words_after word [] = if is_empty word then [] else word ∷ []
words_after word (c ∷ s) =
    let more = words_after (word ++ c ∷ []) s in
    let next = words_after [] s in
    if is_letter c then more else if is_empty word then next else word ∷ next

abbrev pub words : Text → List Text
words s = words_after [] s

-- `word in DESTRUCTIVE_KEYWORDS`
unfoldable pub is_destructive : Text → Bool
is_destructive w = contains destructive_keywords w

-- The first of the words that is a destructive keyword.
unfoldable pub first_keyword : List Text → Option Text
unfolding is_destructive
first_keyword [] = none
first_keyword (w ∷ ws) = let rest = first_keyword ws in if is_destructive w then some w else rest

unfoldable pub keyword_hit : Element → Option Text
unfolding element_text_blob words_after first_keyword
keyword_hit el =
    let blob = lower (element_text_blob el) in
    if is_empty blob then none else first_keyword (words blob)

abbrev any_starts : Text → List String → Bool
any_starts s [] = false
any_starts s (p ∷ ps) = starts_with s (codes p) || any_starts s ps

abbrev any_infix : Text → List String → Bool
any_infix s [] = false
any_infix s (w ∷ ws) = has_infix s (codes w) || any_infix s ws

abbrev one_of : Text → List String → Bool
one_of s ws = contains (map codes ws) s

abbrev navish : List String
navish =
    "dashboard" ∷ "inbox" ∷ "kanban" ∷ "calendar" ∷ "settings" ∷ "reports" ∷ "home" ∷ "overview"
    ∷ "contacts" ∷ "chat" ∷ "pipeline" ∷ "board" ∷ "projects" ∷ "tasks" ∷ "messages" ∷ "profile"
    ∷ "billing" ∷ "team" ∷ []

unfoldable pub looks_like_nav : Element → Bool
unfolding element_text_blob
looks_like_nav el =
    let tag = lower (get "tag" el) in
    let role = lower (get "role" el) in
    let href = strip (get "href" el) in
    let blob = lower (element_text_blob el) in
    if any_starts (lower href) ("mailto:" ∷ "tel:" ∷ "javascript:" ∷ [])
    then false
    else if (tag == codes "a") && not (is_empty href) && not (href == codes "#")
    then true
    else if one_of role ("link" ∷ "tab" ∷ "menuitem" ∷ "treeitem" ∷ "navigation" ∷ [])
    then true
    else if is_empty blob
    then false
    else any_infix blob navish && one_of tag ("button" ∷ "a" ∷ "div" ∷ "span" ∷ "li" ∷ [])

unfoldable pub looks_like_safe_nav : Element → Bool
looks_like_safe_nav el = elim (keyword_hit el) [ some hit ↦ false | none ↦ looks_like_nav el ]

-- What `json.loads` makes of a text: an object with its values, of which the code looks at
-- Booleans and texts; of any other value, whether it is true and its `str`.
pub data Value : Type 0 where
  null : Value
  boolean : Bool → Value
  string : Text → Value
  other : Bool → Text → Value

pub data Json : Type 0 where
  object : List (String × Value) → Json
  not_object : Json

unfoldable pub field : String → List (String × Value) → Option Value
field k [] = none
field k ((n, v) ∷ fields) = let rest = field k fields in if n == k then some v else rest

-- `str(v or "")`
unfoldable text_of : Option Value → Text
text_of none = []
text_of (some null) = []
text_of (some (boolean b)) = if b then codes "True" else []
text_of (some (string s)) = s
text_of (some (other true s)) = s
text_of (some (other false s)) = []

-- `re.search(r"\{.*\}", s, re.S)`: from the first opening to the last closing brace.
unfoldable to_last_brace : Text → Option Text
to_last_brace [] = none
to_last_brace (c ∷ s) = elim (to_last_brace s) [
  | some t ↦ some (c ∷ t)
  | none ↦ if c == b'}' then some (c ∷ []) else none
]

unfoldable pub first_object : Text → Option Text
unfolding to_last_brace
first_object [] = none
first_object (c ∷ s) =
    let rest = first_object s in
    if c == b'{' then elim (to_last_brace s) [ some t ↦ some (c ∷ t) | none ↦ none ] else rest

-- The verdict of an object with the value `destructive`.
unfoldable pub verdict_of : Option Value → Option Value → Option GuardrailVerdict
unfolding text_of
verdict_of (some (boolean destructive)) given =
    let reason = or_else (strip (text_of given)) (codes "judged destructive") in
    if destructive
    then some (record { flagged = true; reason = reason; source = llm })
    else some
        (record { flagged = false; reason = or_else reason (codes "judged safe"); source = safe })
verdict_of _ given = none

unfoldable pub verdict_in : Json → Option GuardrailVerdict
unfolding field verdict_of
verdict_in (object fields) = verdict_of (field "destructive" fields) (field "reason" fields)
verdict_in not_object = none

-- What a judge does with a prompt: it answers, or raises an exception with a text.
pub data Reply : Type 0 where
  replied : Text → Reply
  raised : Text → Reply

pub data Classified : Type 0 where
  stopped : Text → Classified
  verdict : GuardrailVerdict → Classified

abbrev pub fail : Text → Classified
fail reason = verdict (record { flagged = true; reason = reason; source = fail_closed })

module _ (loads : Text → Option Json) (repr : Text → Text) (prompt : Element → Text) where
  unfoldable pub parse_judge : Text → Option GuardrailVerdict
  unfolding verdict_in first_object
  parse_judge raw = do
    let text = strip raw
    matched ← if is_empty text then none else first_object text
    parsed ← loads matched
    verdict_in parsed

  unfoldable pub judged : Reply → Classified
  unfolding parse_judge
  judged (raised exc) =
      if has_infix (lower exc) (codes "stopped by client")
      then stopped exc
      else fail (codes "judge unavailable: " ++ exc)
  judged (replied raw) = elim (parse_judge raw) [
    | none ↦ fail (codes "unparseable judge reply: " ++ take 80 (repr raw))
    | some v ↦ verdict v
  ]

  -- What follows the keyword test.
  unfoldable pub without_keyword : Element → Bool → Option (Text → Reply) → Classified
  without_keyword el true judge = verdict (record {
    flagged = false;
    reason = codes "safe navigation heuristic";
    source = nav_heuristic;
  })
  without_keyword el false none = fail (codes "no LLM judge configured")
  without_keyword el false (some ask) = judged (ask (prompt el))

  unfoldable pub classify_action : Element → Option (Text → Reply) → Classified
  unfolding without_keyword
  classify_action el judge = elim (keyword_hit el) [
    | some hit ↦
        verdict (record { flagged = true; reason = codes "keyword:" ++ hit; source = keyword })
    | none ↦ without_keyword el (looks_like_safe_nav el) judge
  ]
