-- ===== src/Automation/History/KnownBad.antt =====
-- `known_bad` of navigator/automation/explore/history.py: its cap and its counts.
use navigator_ai.Prelude.{
  ℕ, suc, ◌+◌, ◌≤◌, ◌≡◌, refl, sym, ap, subst, inl, inr, String, Bool, true, false, Option, none,
  some, List, [], ◌∷◌, ◌++◌, ◌&&◌, not, length, length-append, leb, Bool-cases, arith, ◌==◌,
  string_eq, eq_iff, if◌then◌else◌,
}
use navigator_ai.Automation.History.{
  LoadedEpisode, load_recent, unrepaired_in, BadKeys, get_bad, set_bad, or_text, is_some, Pass,
  returned, going, enter, tally, tally_all, tally_episodes, table_of, known_bad,
}

abbrev pub count_of : String → BadKeys → ℕ
count_of k t = elim (get_bad k t) [ none ↦ 0 | some (kind, n) ↦ n ]

abbrev pub occurrences : String → List (String × String) → ℕ
occurrences k [] = 0
occurrences k ((key, kind) ∷ xs) = if key == k then suc (occurrences k xs) else occurrences k xs

-- The unrepaired failures of several episodes.
abbrev pub outcomes : List LoadedEpisode → List (String × String)
outcomes [] = []
outcomes (ep ∷ eps) = unrepaired_in ep.attempts ++ outcomes eps

get_bad-set_bad :
    (k key : String) (v : String × ℕ) (t : BadKeys)
    → get_bad k (set_bad key v t) ≡ (if key == k then some v else get_bad k t)
unfolding set_bad
get_bad-set_bad k key v [] = refl
get_bad-set_bad k key v ((j, w) ∷ t) =
    ground (arith, get_bad-set_bad k key v t, eq_iff j key, eq_iff j k, eq_iff key k)

length-set_bad :
    (key : String) (v : String × ℕ) (t : BadKeys)
    → length (set_bad key v t) ≡ (if is_some (get_bad key t) then length t else suc (length t))
unfolding set_bad
length-set_bad key v [] = refl
length-set_bad key v ((j, w) ∷ t) = ground (arith, length-set_bad key v t)

-- The table has as many keys as were counted, and at most `cap`.
abbrev Capped : ℕ → Pass → Type 0
Capped cap (returned t) = length t ≤ cap
Capped cap (going n t) = (n ≡ length t) × (n ≤ cap)

Capped-enter :
    (cap : ℕ) (key kind : String) (n : ℕ) (t : BadKeys) (found : Option (String × ℕ))
    → get_bad key t ≡ found
    → (leb cap n && not (is_some found)) ≡ false
    → Capped cap (going n t)
    → Capped cap (enter key kind n t found)
unfolding enter
Capped-enter cap key kind n t none e h (i, j) =
    (ground (arith, length-set_bad key (kind, 1) t, ap is_some e), ground arith)
Capped-enter cap key kind n t (some (kind', m)) e h (i, j) =
    (ground (arith, length-set_bad key (or_text kind kind', m + 1) t, ap is_some e), j)

Capped-tally :
    (cap : ℕ) (x : String × String) (n : ℕ) (t : BadKeys)
    → Capped cap (going n t)
    → Capped cap (tally cap x n t)
unfolding tally
Capped-tally cap (key, kind) n t (i, j) =
    elim (Bool-cases (leb cap n && not (is_some (get_bad key t)))) [
      | inl e ↦ subst (Capped cap) (sym (returns e)) (omega arith)
      | inr e ↦
          subst (Capped cap) (sym (goes_on e))
            (Capped-enter cap key kind n t (get_bad key t) refl e (i, j))
    ]
  where
    full : Bool
    full = leb cap n && not (is_some (get_bad key t))

    returns :
        full ≡ true → (if full then returned t else enter key kind n t (get_bad key t)) ≡ returned t
    returns e = rw e refl

    goes_on :
        full ≡ false
        → (if full then returned t else enter key kind n t (get_bad key t))
          ≡ enter key kind n t (get_bad key t)
    goes_on e = rw e refl

Capped-tally_all :
    (cap : ℕ) (xs : List (String × String)) (p : Pass)
    → Capped cap p
    → Capped cap (tally_all cap xs p)
unfolding tally_all
Capped-tally_all cap xs (returned t) c = c
Capped-tally_all cap [] (going n t) c = c
Capped-tally_all cap (x ∷ xs) (going n t) c =
    Capped-tally_all cap xs (tally cap x n t) (Capped-tally cap x n t c)

Capped-tally_episodes :
    (cap : ℕ) (eps : List LoadedEpisode) (p : Pass)
    → Capped cap p
    → Capped cap (tally_episodes cap eps p)
unfolding tally_episodes
Capped-tally_episodes cap [] p c = c
Capped-tally_episodes cap (ep ∷ eps) p c =
    Capped-tally_episodes cap eps (tally_all cap (unrepaired_in ep.attempts) p)
      (Capped-tally_all cap (unrepaired_in ep.attempts) p c)

length-table_of : (cap : ℕ) (p : Pass) → Capped cap p → length (table_of p) ≤ cap
length-table_of cap (returned t) c = c
length-table_of cap (going n t) (i, j) = omega arith

-- However many episodes there are and however much failed in them, the table of known bad
-- elements has at most `max_entries` keys.
known_bad-capped :
    (limit cap : ℕ) (jobs : List LoadedEpisode) → length (known_bad limit cap jobs) ≤ cap
unfolding known_bad
known_bad-capped limit cap jobs =
    length-table_of cap (tally_episodes cap (load_recent limit jobs) (going 0 []))
      (Capped-tally_episodes cap (load_recent limit jobs) (going 0 []) (refl, omega arith))

-- The table is still being filled, counts at most `m` keys, and counts `c` for the key `k`.
abbrev Counts : String → ℕ → ℕ → Pass → Type 0
Counts k m c (returned t) = ⊥
Counts k m c (going n t) = (n ≤ m) × (count_of k t ≡ c)

Counts-enter :
    (k key kind : String) (m c n : ℕ) (t : BadKeys) (found : Option (String × ℕ))
    → get_bad key t ≡ found
    → Counts k m c (going n t)
    → Counts k (suc m) (c + (if key == k then 1 else 0)) (enter key kind n t found)
unfolding enter
Counts-enter k key kind m c n t none e (i, j) =
    (omega arith, ground (arith, get_bad-set_bad k key (kind, 1) t, eq_iff key k))
Counts-enter k key kind m c n t (some (kind', q)) e (i, j) =
    (omega arith, ground (arith, get_bad-set_bad k key (or_text kind kind', q + 1) t, eq_iff key k))

tally-room :
    (cap : ℕ) (key kind : String) (n : ℕ) (t : BadKeys)
    → leb cap n ≡ false
    → tally cap (key, kind) n t ≡ enter key kind n t (get_bad key t)
unfolding tally
tally-room cap key kind n t e = rw e refl

Counts-cong :
    (k : String) {m n c d : ℕ} (p : Pass) → m ≡ n → c ≡ d → Counts k m c p → Counts k n d p
Counts-cong k {m} {n} {c} {d} p e f i =
    subst (λ x. Counts k x d p) e (subst (λ x. Counts k m x p) f i)

Counts-tally_all :
    (cap : ℕ) (k : String) (xs : List (String × String)) (m c : ℕ) (p : Pass)
    → m + length xs ≤ cap
    → Counts k m c p
    → Counts k (m + length xs) (c + occurrences k xs) (tally_all cap xs p)
unfolding tally_all
Counts-tally_all cap k xs m c (returned t) h i = absurd i
Counts-tally_all cap k [] m c (going n t) h (i, j) = (omega arith, omega arith)
Counts-tally_all cap k ((key, kind) ∷ xs) m c (going n t) h i =
    let room : leb cap n ≡ false = ground (arith, i.0) in
    let next : Counts k (suc m) (c + (if key == k then 1 else 0)) (tally cap (key, kind) n t) =
      subst (Counts k _ _) (sym (tally-room cap key kind n t room))
        (Counts-enter k key kind m c n t (get_bad key t) refl i) in
    Counts-cong k (tally_all cap xs (tally cap (key, kind) n t)) (omega arith) (ground arith) (
      Counts-tally_all cap k xs (suc m) (c + (if key == k then 1 else 0))
        (tally cap (key, kind) n t) (omega arith) next)

occurrences-append :
    (k : String) (xs ys : List (String × String))
    → occurrences k (xs ++ ys) ≡ occurrences k xs + occurrences k ys
occurrences-append k [] ys = omega arith
occurrences-append k ((key, kind) ∷ xs) ys = ground (arith, occurrences-append k xs ys)

Counts-tally_episodes :
    (cap : ℕ) (k : String) (eps : List LoadedEpisode) (m c : ℕ) (p : Pass)
    → m + length (outcomes eps) ≤ cap
    → Counts k m c p
    → Counts k
        (m + length (outcomes eps))
        (c + occurrences k (outcomes eps))
        (tally_episodes cap eps p)
unfolding tally_episodes
Counts-tally_episodes cap k [] m c p h i = Counts-cong k p (omega arith) (omega arith) i
Counts-tally_episodes cap k (ep ∷ eps) m c p h i =
    let xs = unrepaired_in ep.attempts in
    let more = length-append xs (outcomes eps) in
    Counts-cong k (tally_episodes cap eps (tally_all cap xs p)) (omega (arith, more))
      (omega (arith, occurrences-append k xs (outcomes eps)))
      (Counts-tally_episodes cap k eps (m + length xs) (c + occurrences k xs) (tally_all cap xs p)
        (omega (arith, h, more)) (Counts-tally_all cap k xs m c p (omega (arith, h, more)) i))

count_of-table_of : (k : String) (m c : ℕ) (p : Pass) → Counts k m c p → count_of k (table_of p) ≡ c
count_of-table_of k m c (returned t) i = absurd i
count_of-table_of k m c (going n t) (i, j) = j

-- As long as the episodes have no more unrepaired failures than `max_entries`, the count that an
-- element gets is the number of its unrepaired failures in the loaded episodes: attempts of one
-- repair ladder are not counted one by one, since an episode lists them as one failure.
known_bad-occurrences :
    (limit cap : ℕ) (jobs : List LoadedEpisode) (k : String)
    → length (outcomes (load_recent limit jobs)) ≤ cap
    → count_of k (known_bad limit cap jobs) ≡ occurrences k (outcomes (load_recent limit jobs))
unfolding known_bad
known_bad-occurrences limit cap jobs k h =
    let eps = load_recent limit jobs in
    count_of-table_of k (length (outcomes eps)) (occurrences k (outcomes eps))
      (tally_episodes cap eps (going 0 []))
      (Counts-cong k (tally_episodes cap eps (going 0 [])) (omega arith) (omega arith)
        (Counts-tally_episodes cap k eps 0 0 (going 0 []) (omega (arith, h)) (omega arith, refl)))
