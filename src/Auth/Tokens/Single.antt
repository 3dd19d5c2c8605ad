-- ===== src/Auth/Tokens/Single.antt =====
-- Concurrent calls of `consume_token` of navigator/auth/session_tokens.py.
use navigator_ai.Prelude.{
  ℕ, ◌+◌, ◌≤◌, ◌≡◌, refl, ap, String, Bool, true, false, ◌&&◌, none, List, [], ◌∷◌, ◌++◌, arith,
  ◌==◌, string_eq, eq_iff, if◌then◌else◌,
}
use navigator_ai.Auth.Tokens.{
  Row, is_none, select, mark_used, Consumed, rejected, granted, Checked, refused, accepted,
  check_row, Consumer, reading, marking, answered, System, consumer_step, after_step, Step,
  inserted, called, moved, Reach, here, next, no_tokens,
}

abbrev one_if : Bool → ℕ
one_if true = 1
one_if false = 0

-- The rows of a token, and those of them that are used.
abbrev pub rows_of : String → List Row → ℕ
rows_of h [] = 0
rows_of h (r ∷ rows) = one_if (r.token_hash == h) + rows_of h rows

abbrev pub used : String → List Row → ℕ
used h [] = 0
used h (r ∷ rows) = (if is_none r.used_at then 0 else one_if (r.token_hash == h)) + used h rows

abbrev is_granted : Consumed → Bool
is_granted (rejected e) = false
is_granted (granted p i) = true

abbrev grant_of : String → Consumer → ℕ
grant_of h (answered k c) = one_if (k == h && is_granted c)
grant_of h _ = 0

-- The calls for a token that were granted.
abbrev pub grants : String → List Consumer → ℕ
grants h [] = 0
grants h (c ∷ cs) = grant_of h c + grants h cs

grants-append :
    (h : String) (cs ds : List Consumer) → grants h (cs ++ ds) ≡ grants h cs + grants h ds
grants-append h [] ds = omega arith
grants-append h (c ∷ cs) ds = omega (arith, grants-append h cs ds)

rows_of-append :
    (h : String) (rs qs : List Row) → rows_of h (rs ++ qs) ≡ rows_of h rs + rows_of h qs
rows_of-append h [] qs = omega arith
rows_of-append h (r ∷ rs) qs = omega (arith, rows_of-append h rs qs)

used-append : (h : String) (rs qs : List Row) → used h (rs ++ qs) ≡ used h rs + used h qs
used-append h [] qs = omega arith
used-append h (r ∷ rs) qs = omega (arith, used-append h rs qs)

used-le-rows_of : (h : String) (rows : List Row) → used h rows ≤ rows_of h rows
used-le-rows_of h [] = omega arith
used-le-rows_of h (r ∷ rows) = ground (arith, used-le-rows_of h rows)

rows_of-select : (h : String) (rows : List Row) → select h rows ≡ none → rows_of h rows ≡ 0
unfolding select
rows_of-select h [] e = refl
rows_of-select h (r ∷ rows) e = ground (arith, rows_of-select h rows)

rows_of-mark_used :
    (h k : String) (now : ℕ) (rows : List Row) → rows_of k (mark_used h now rows).1 ≡ rows_of k rows
unfolding mark_used
rows_of-mark_used h k now [] = refl
rows_of-mark_used h k now (r ∷ rows) = ground (arith, rows_of-mark_used h k now rows)

used-mark_used :
    (h k : String) (now : ℕ) (rows : List Row)
    → used k (mark_used h now rows).1
      ≡ used k rows + (if h == k then (mark_used h now rows).0 else 0)
unfolding mark_used
used-mark_used h k now [] = ground arith
used-mark_used h k now (r ∷ rows) =
    ground
      (arith, used-mark_used h k now rows, eq_iff r.token_hash h, eq_iff h k, eq_iff r.token_hash k)

count-mark_used :
    (h : String) (now : ℕ) (rows : List Row)
    → (mark_used h now rows).0 + used h rows ≡ rows_of h rows
unfolding mark_used
count-mark_used h now [] = refl
count-mark_used h now (r ∷ rows) = ground (arith, count-mark_used h now rows)

-- A token has at most one row, which is used exactly if a call for it was granted.
record IsSingle (h : String) (s : System) : Type 0 where
  unique : rows_of h s.rows ≤ 1
  spent : grants h s.consumers ≡ used h s.rows

-- One step of a call, with `n` grants to the other calls.
consumer_step-spent :
    (h : String) (c : Consumer) (now n : ℕ) (rows : List Row)
    → rows_of h rows ≤ 1
    → n + grant_of h c ≡ used h rows
    → (n + grant_of h (consumer_step c now rows).0 ≡ used h (consumer_step c now rows).1)
      × (rows_of h (consumer_step c now rows).1 ≤ 1)
unfolding consumer_step
consumer_step-spent h (reading k) now n rows u e = by_check (check_row now (select k rows))
  where
    by_check :
        (checked : Checked)
        → (n
              + grant_of h
                  (elim checked [ refused e ↦ answered k (rejected e) | accepted r ↦ marking k r ])
            ≡ used h rows)
          × (rows_of h rows ≤ 1)
    by_check (refused x) = (ground (arith, e), u)
    by_check (accepted r) = (e, u)
consumer_step-spent h (marking k r) now n rows u e = ground (
  arith,
  used-mark_used k h now rows,
  count-mark_used k now rows,
  rows_of-mark_used k h now rows,
  eq_iff k h,
)
consumer_step-spent h (answered k c) now n rows u e = (e, u)

IsSingle-Step : (h : String) {s t : System} → Step s t → IsSingle h s → IsSingle h t
unfolding after_step
IsSingle-Step h {s} (inserted r fresh absent e) i = rw e (record {
  unique = ground (
    arith,
    i.unique,
    rows_of-append h s.rows (r ∷ []),
    rows_of-select r.token_hash s.rows absent,
    eq_iff r.token_hash h,
  );
  spent = ground (arith, i.spent, used-append h s.rows (r ∷ []), fresh);
})
IsSingle-Step h {s} (called k e) i = rw e (record {
  unique = i.unique;
  spent = omega (arith, i.spent, grants-append h s.consumers (reading k ∷ []));
})
IsSingle-Step h {s} (moved cs c ds now p e) i =
    let others : (grants h cs + grants h ds) + grant_of h c ≡ used h s.rows =
      omega (arith, i.spent, ap (grants h) p, grants-append h cs (c ∷ ds)) in
    let (spent, unique) =
      consumer_step-spent h c now (grants h cs + grants h ds) s.rows i.unique others in
    rw e (record {
      unique = unique;
      spent = omega (arith, spent, grants-append h cs ((consumer_step c now s.rows).0 ∷ ds));
    })

IsSingle-Reach : (h : String) {s t : System} → Reach s t → IsSingle h s → IsSingle h t
IsSingle-Reach h here i = i
IsSingle-Reach h (next r st) i = IsSingle-Step h st (IsSingle-Reach h r i)

-- However calls of `consume_token` for any tokens are interleaved with each other and with new
-- tokens, at most one call for a token is ever granted, and its row is marked as used exactly
-- when one was.
pub one_grant :
    (h : String) {s : System}
    → Reach no_tokens s
    → (grants h s.consumers ≤ 1) × (grants h s.consumers ≡ used h s.rows)
one_grant h {s} r =
    let i = IsSingle-Reach h r (record { unique = omega arith; spent = refl }) in
    (omega (arith, i.unique, i.spent, used-le-rows_of h s.rows), i.spent)
