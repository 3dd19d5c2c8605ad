-- ===== src/Automation/Episode/Counting.antt =====
-- The counts of `finalize` and the runs of `record` and `save_shot` in
-- navigator/automation/explore/episode.py.
use navigator_ai.Prelude.{
  ℕ, zero, suc, ◌+◌, ◌≤◌, ◌≡◌, refl, String, List, [], ◌∷◌, ◌++◌, ◌&&◌, length, arith, ◌==◌,
  string_eq, if◌then◌else◌, not, ltb,
}
use navigator_ai.Automation.Episode.{
  StepAttempt, Group, by_key, EpisodeStore, opened, record_attempt, save_shot, successful_seqs,
  unrepaired_seqs, successful_repairs, unrepaired_failures, Tallies, add_one, Counts, count_group,
  count_groups, finalize,
}

abbrev pub sum : Tallies → ℕ
sum [] = 0
sum ((k, n) ∷ t) = n + sum t

sum-add_one : (k : String) (t : Tallies) → sum (add_one k t) ≡ suc (sum t)
unfolding add_one
sum-add_one k [] = refl
sum-add_one k ((j, n) ∷ t) = ground (arith, sum-add_one k t)

-- The failures that have a kind.
abbrev pub with_kind : List Group → ℕ
with_kind [] = 0
with_kind (g ∷ gs) =
    if not g.last.ok && not (g.last.kind == "") then suc (with_kind gs) else with_kind gs

count_groups-repair_ok :
    (gs : List Group) (c : Counts)
    → (count_groups gs c).repair_ok ≡ c.repair_ok + length (successful_seqs gs)
unfolding count_groups successful_seqs
count_groups-repair_ok [] c = omega arith
count_groups-repair_ok (g ∷ gs) c = ground (arith, count_groups-repair_ok gs (count_group g c))

count_groups-unrepaired :
    (gs : List Group) (c : Counts)
    → (count_groups gs c).unrepaired ≡ c.unrepaired + length (unrepaired_seqs gs)
unfolding count_groups unrepaired_seqs
count_groups-unrepaired [] c = omega arith
count_groups-unrepaired (g ∷ gs) c = ground (arith, count_groups-unrepaired gs (count_group g c))

count_groups-kind_tallies :
    (gs : List Group) (c : Counts)
    → sum (count_groups gs c).kind_tallies ≡ sum c.kind_tallies + with_kind gs
unfolding count_groups
count_groups-kind_tallies [] c = omega arith
count_groups-kind_tallies (g ∷ gs) c =
    ground (
      arith,
      count_groups-kind_tallies gs (count_group g c),
      sum-add_one g.last.kind c.kind_tallies,
    )

seqs-disjoint :
    (gs : List Group) → length (successful_seqs gs) + length (unrepaired_seqs gs) ≤ length gs
unfolding successful_seqs unrepaired_seqs
seqs-disjoint [] = omega arith
seqs-disjoint (g ∷ gs) = ground (arith, seqs-disjoint gs)

-- The summary that `finalize` counts in one pass agrees with the queries of the store:
-- `repair_successes` is the number of `successful_repairs`, `unrepaired_failures` that of
-- `unrepaired_failures`, the tallies by kind add up to the unrepaired failures that have a kind, and no
-- group is counted as repaired and as unrepaired.
finalize-counts :
    (e : EpisodeStore)
    → ((finalize e).repair_successes ≡ length (successful_repairs e))
      × ((finalize e).unrepaired_failures ≡ length (unrepaired_failures e))
      × (sum (finalize e).kind_tallies ≡ with_kind (by_key e.attempts))
      × ((finalize e).repair_successes + (finalize e).unrepaired_failures
          ≤ length (by_key e.attempts))
unfolding finalize successful_repairs unrepaired_failures
finalize-counts e =
    let gs = by_key e.attempts in
    let c : Counts = record { kind_tallies = []; repair_ok = 0; unrepaired = 0 } in
    (
      omega (arith, count_groups-repair_ok gs c),
      omega (arith, count_groups-unrepaired gs c),
      omega (arith, count_groups-kind_tallies gs c),
      omega (arith, seqs-disjoint gs, count_groups-repair_ok gs c, count_groups-unrepaired gs c),
    )

-- What an exploration does with its store.
pub data Event : Type 0 where
  attempted : StepAttempt → Event
  failed_with_shot : ℕ → Event

abbrev handle : Event → EpisodeStore → EpisodeStore
handle (attempted a) e = record_attempt a e
handle (failed_with_shot size) e = (save_shot size e).1

abbrev pub run : List Event → EpisodeStore → EpisodeStore
run [] e = e
run (x ∷ xs) e = run xs (handle x e)

abbrev pub repairs_in : List StepAttempt → ℕ
repairs_in [] = 0
repairs_in (a ∷ xs) = if ltb 0 a.attempt then suc (repairs_in xs) else repairs_in xs

repairs_in-append :
    (xs ys : List StepAttempt) → repairs_in (xs ++ ys) ≡ repairs_in xs + repairs_in ys
repairs_in-append [] ys = omega arith
repairs_in-append (a ∷ xs) ys = ground (arith, repairs_in-append xs ys)

-- The numbers 0, 1, … below n.
abbrev pub below : ℕ → List ℕ
below zero = []
below (suc n) = below n ++ n ∷ []

pub record IsCounted (max_shots : ℕ) (e : EpisodeStore) : Type 0 where
  repairs : e.repairs_used ≡ repairs_in e.attempts
  limit : e.max_shots ≡ max_shots
  capped : e.shots_written ≤ max_shots
  named : e.shots ≡ below e.shots_written

handle-IsCounted : (m : ℕ) (x : Event) (e : EpisodeStore) → IsCounted m e → IsCounted m (handle x e)
unfolding record_attempt save_shot
handle-IsCounted m (attempted a) e i = record {
  repairs = ground (arith, i.repairs, repairs_in-append e.attempts (a ∷ []));
  limit = i.limit;
  capped = i.capped;
  named = i.named;
}
handle-IsCounted m (failed_with_shot size) e i = record {
  repairs = ground (arith, i.repairs);
  limit = ground (arith, i.limit);
  capped = ground (arith, i.limit, i.capped);
  named = ground (arith, i.named);
}

-- However attempts and screenshots follow each other in a run, `repairs_used` is the number of
-- attempts that are repairs, no more screenshots than `max_shots` are written, and the files
-- are numbered 0, 1, 2 and so on: no screenshot overwrites another.
run-IsCounted : (xs : List Event) (max_shots : ℕ) → IsCounted max_shots (run xs (opened max_shots))
run-IsCounted xs max_shots =
    from xs (opened max_shots)
      (record { repairs = refl; limit = refl; capped = omega arith; named = refl })
  where
    from :
        (ys : List Event) (e : EpisodeStore)
        → IsCounted max_shots e
        → IsCounted max_shots (run ys e)
    from [] e i = i
    from (y ∷ ys) e i = from ys (handle y e) (handle-IsCounted max_shots y e i)
