-- ===== src/Automation/Episode.antt =====
-- navigator/automation/explore/episode.py: the attempts of one exploration run and how they are
-- grouped and counted. Files, timestamps, the budget and the stop reason
-- are left out; numbers of attempts are natural.
pub mod Groups
pub mod Counting
mod Tests
use navigator_ai.Prelude.{
  ℕ, zero, suc, ◌+◌, String, Bool, true, false, Option, none, some, List, [], ◌∷◌, ◌++◌, not, ◌&&◌,
  ltb, leb, ◌==◌, string_eq, length, if◌then◌else◌,
}

pub record StepAttempt : Type 0 where
  pub element_key : String
  pub alias : String
  pub selector : String
  pub tool : String
  pub attempt : ℕ
  pub tactic : String
  pub kind : String
  pub ok : Bool
  pub detail : String
  pub duration_ms : ℕ
  pub url_before : String
  pub url_after : String

-- One entry of `by_key`: a sequence that is not empty, as what comes before its last attempt and
-- that attempt, `seq[-1]`.
pub record Group : Type 0 where
  pub element_key : String
  pub tool : String
  pub earlier : List StepAttempt
  pub last : StepAttempt

unfoldable pub seq_of : Group → List StepAttempt
seq_of g = g.earlier ++ g.last ∷ []

abbrev pub has_key : String → String → Group → Bool
has_key k tool g = (g.element_key == k) && (g.tool == tool)

-- `by_key.setdefault((a.element_key, a.tool), []).append(a)`; the dictionary keeps the order in
-- which its keys came.
unfoldable pub append_attempt : StepAttempt → List Group → List Group
append_attempt a [] =
    record { element_key = a.element_key; tool = a.tool; earlier = []; last = a } ∷ []
append_attempt a (g ∷ gs) =
    let rest = append_attempt a gs in
    if has_key a.element_key a.tool g
    then record g { earlier = g.earlier ++ g.last ∷ []; last = a } ∷ gs
    else g ∷ rest

unfoldable pub append_attempts : List StepAttempt → List Group → List Group
unfolding append_attempt
append_attempts [] gs = gs
append_attempts (a ∷ xs) gs = append_attempts xs (append_attempt a gs)

abbrev pub by_key : List StepAttempt → List Group
by_key xs = append_attempts xs []

-- `any(s.attempt > 0 for s in seq)`
unfoldable pub any_repair : List StepAttempt → Bool
any_repair [] = false
any_repair (s ∷ ss) = if ltb 0 s.attempt then true else any_repair ss

pub record EpisodeStore : Type 0 where
  pub max_shots : ℕ
  pub attempts : List StepAttempt
  pub repairs_used : ℕ
  pub shots_written : ℕ
  pub shots : List ℕ

abbrev pub opened : ℕ → EpisodeStore
opened max_shots = record {
  max_shots = max_shots;
  attempts = [];
  repairs_used = 0;
  shots_written = 0;
  shots = [];
}

-- `record` of the source.
unfoldable pub record_attempt : StepAttempt → EpisodeStore → EpisodeStore
record_attempt a e = record e {
  attempts = e.attempts ++ a ∷ [];
  repairs_used = if ltb 0 a.attempt then suc e.repairs_used else e.repairs_used;
}

-- A screenshot of so many bytes; its name is its number, and `shots` are the files written.
unfoldable pub save_shot : ℕ → EpisodeStore → Option ℕ × EpisodeStore
save_shot size e =
    if leb size 0 then (none, e) else if leb e.max_shots e.shots_written then (none, e) else (
      some e.shots_written,
      record e { shots_written = suc e.shots_written; shots = e.shots ++ e.shots_written ∷ [] },
    )

unfoldable pub successful_seqs : List Group → List (List StepAttempt)
unfolding seq_of any_repair
successful_seqs [] = []
successful_seqs (g ∷ gs) =
    let out = successful_seqs gs in
    if g.last.ok && any_repair (seq_of g) then seq_of g ∷ out else out

unfoldable pub unrepaired_seqs : List Group → List (List StepAttempt)
unfolding seq_of
unrepaired_seqs [] = []
unrepaired_seqs (g ∷ gs) =
    let out = unrepaired_seqs gs in if not g.last.ok then seq_of g ∷ out else out

unfoldable pub successful_repairs : EpisodeStore → List (List StepAttempt)
unfolding append_attempts successful_seqs
successful_repairs e = successful_seqs (by_key e.attempts)

unfoldable pub unrepaired_failures : EpisodeStore → List (List StepAttempt)
unfolding append_attempts unrepaired_seqs
unrepaired_failures e = unrepaired_seqs (by_key e.attempts)

abbrev pub Tallies : Type 0
Tallies = List (String × ℕ)

-- `kind_tallies[k] = kind_tallies.get(k, 0) + 1`
unfoldable pub add_one : String → Tallies → Tallies
add_one k [] = (k, 1) ∷ []
add_one k ((j, n) ∷ t) = let rest = add_one k t in if j == k then (j, suc n) ∷ t else (j, n) ∷ rest

pub record Counts : Type 0 where
  pub kind_tallies : Tallies
  pub repair_ok : ℕ
  pub unrepaired : ℕ

unfoldable pub count_group : Group → Counts → Counts
unfolding seq_of any_repair add_one
count_group g c =
    let repaired = if g.last.ok && any_repair (seq_of g) then suc c.repair_ok else c.repair_ok in
    if not g.last.ok
    then record {
      kind_tallies =
          if g.last.kind == "" then c.kind_tallies else add_one g.last.kind c.kind_tallies;
      repair_ok = repaired;
      unrepaired = suc c.unrepaired;
    }
    else record c { repair_ok = repaired }

unfoldable pub count_groups : List Group → Counts → Counts
unfolding count_group
count_groups [] c = c
count_groups (g ∷ gs) c = count_groups gs (count_group g c)

pub record Summary : Type 0 where
  pub attempts : ℕ
  pub repairs_used : ℕ
  pub repair_successes : ℕ
  pub unrepaired_failures : ℕ
  pub kind_tallies : Tallies
  pub shots : ℕ

unfoldable pub finalize : EpisodeStore → Summary
unfolding append_attempts count_groups
finalize e =
    let c =
      count_groups (by_key e.attempts)
        (record { kind_tallies = []; repair_ok = 0; unrepaired = 0 }) in
    record {
      attempts = length e.attempts;
      repairs_used = e.repairs_used;
      repair_successes = c.repair_ok;
      unrepaired_failures = c.unrepaired;
      kind_tallies = c.kind_tallies;
      shots = e.shots_written;
    }
