-- ===== src/Automation/History/Recent.antt =====
-- `load_recent` of navigator/automation/explore/history.py.
use navigator_ai.Prelude.{
  ℕ, suc, ◌≤◌, ◌≡◌, refl, sym, ap, ◌∙◌, subst, inl, inr, Bool, List, [], ◌∷◌, ◌++◌, leb, leb→le,
  min, length, length-take, take-drop, drop, Bool-cases, arith, if◌then◌else◌,
}
use navigator_ai.Automation.History.{LoadedEpisode, insert_job, sort_jobs, load_recent}

abbrev NoNewer : ℕ → List LoadedEpisode → Type 0
NoNewer t [] = Unit {0}
NoNewer t (e ∷ es) = (e.mtime ≤ t) × NoNewer t es

abbrev NewestFirst : List LoadedEpisode → Type 0
NewestFirst [] = Unit {0}
NewestFirst (e ∷ es) = NoNewer e.mtime es × NewestFirst es

abbrev pub count : (LoadedEpisode → Bool) → List LoadedEpisode → ℕ
count p [] = 0
count p (e ∷ es) = if p e then suc (count p es) else count p es

NoNewer-le : (s t : ℕ) (es : List LoadedEpisode) → s ≤ t → NoNewer s es → NoNewer t es
NoNewer-le s t [] h n = tt
NoNewer-le s t (e ∷ es) h (m, n) = (omega arith, NoNewer-le s t es h n)

NoNewer-insert_job :
    (t : ℕ) (e : LoadedEpisode) (es : List LoadedEpisode)
    → e.mtime ≤ t
    → NoNewer t es
    → NoNewer t (insert_job e es)
unfolding insert_job
NoNewer-insert_job t e [] h n = (h, tt)
NoNewer-insert_job t e (f ∷ fs) h (m, n) = elim (Bool-cases (leb f.mtime e.mtime)) [
  | inl x ↦ rw x (h, (m, n))
  | inr x ↦ rw x (m, NoNewer-insert_job t e fs h n)
]

NewestFirst-insert_job :
    (e : LoadedEpisode) (es : List LoadedEpisode) → NewestFirst es → NewestFirst (insert_job e es)
unfolding insert_job
NewestFirst-insert_job e [] s = (tt, tt)
NewestFirst-insert_job e (f ∷ fs) (n, s) = elim (Bool-cases (leb f.mtime e.mtime)) [
  | inl x ↦ rw x (
    (leb→le f.mtime e.mtime x, NoNewer-le f.mtime e.mtime fs (leb→le f.mtime e.mtime x) n),
    (n, s),
  )
  | inr x ↦
      rw x (NoNewer-insert_job f.mtime e fs (ground (arith, x)) n, NewestFirst-insert_job e fs s)
]

count-insert_job :
    (p : LoadedEpisode → Bool) (e : LoadedEpisode) (es : List LoadedEpisode)
    → count p (insert_job e es) ≡ count p (e ∷ es)
unfolding insert_job
count-insert_job p e [] = refl
count-insert_job p e (f ∷ fs) = ground (arith, count-insert_job p e fs)

NewestFirst-sort_jobs : (es : List LoadedEpisode) → NewestFirst (sort_jobs es)
unfolding sort_jobs
NewestFirst-sort_jobs [] = tt
NewestFirst-sort_jobs (e ∷ es) = NewestFirst-insert_job e (sort_jobs es) (NewestFirst-sort_jobs es)

count-sort_jobs :
    (p : LoadedEpisode → Bool) (es : List LoadedEpisode) → count p (sort_jobs es) ≡ count p es
unfolding sort_jobs
count-sort_jobs p [] = refl
count-sort_jobs p (e ∷ es) =
    ground (arith, count-insert_job p e (sort_jobs es), count-sort_jobs p es)

length-insert_job :
    (e : LoadedEpisode) (es : List LoadedEpisode) → length (insert_job e es) ≡ suc (length es)
unfolding insert_job
length-insert_job e [] = refl
length-insert_job e (f ∷ fs) = ground (arith, length-insert_job e fs)

length-sort_jobs : (es : List LoadedEpisode) → length (sort_jobs es) ≡ length es
unfolding sort_jobs
length-sort_jobs [] = refl
length-sort_jobs (e ∷ es) = ground (arith, length-insert_job e (sort_jobs es), length-sort_jobs es)

-- The episodes that are loaded are the newest: `limit` of them or all, newest first, and none
-- that is left out is newer than one that is loaded; together they are all the episodes there are, each as
-- often as before.
load_recent-NewestFirst :
    (limit : ℕ) (jobs : List LoadedEpisode)
    → (length (load_recent limit jobs) ≡ min limit (length jobs))
      × NewestFirst (load_recent limit jobs ++ drop limit (sort_jobs jobs))
      × ((p : LoadedEpisode → Bool)
          → count p (load_recent limit jobs ++ drop limit (sort_jobs jobs)) ≡ count p jobs)
unfolding load_recent
load_recent-NewestFirst limit jobs = (
  length-take limit (sort_jobs jobs) ∙ ap (min limit) (length-sort_jobs jobs),
  subst NewestFirst (sym (take-drop limit (sort_jobs jobs))) (NewestFirst-sort_jobs jobs),
  (λ p. ap (count p) (take-drop limit (sort_jobs jobs)) ∙ count-sort_jobs p jobs),
)
