-- ===== src/Agent/Schedule/Speech.antt =====
-- What the cues of navigator/agent/playback_schedule.py mean for the spoken lines.
use navigator_ai.Prelude.{
  ℕ, ◌+◌, ◌≤◌, ◌≡◌, Bool, true, false, Option, none, some, List, [], ◌∷◌, max,
}
use navigator_ai.Agent.Schedule.{Cue, CueKind, speak, act, Step}

abbrev pub is_speak : CueKind → Bool
is_speak speak = true
is_speak act = false

-- No line starts before `t`.
abbrev pub QuietUntil : ℕ → List Cue → Type 0
QuietUntil t [] = Unit
QuietUntil t (c ∷ cs) = (is_speak c.kind ≡ true → t ≤ c.at_ms) × QuietUntil t cs

-- No line starts before an earlier one has ended; `spoken` gives the lengths of the lines.
abbrev pub NoOverlap : (ℕ → ℕ) → List Cue → Type 0
NoOverlap spoken [] = Unit
NoOverlap spoken (c ∷ cs) =
    (is_speak c.kind ≡ true → QuietUntil (c.at_ms + spoken c.idx) cs) × NoOverlap spoken cs

-- Every cue, and the end of every line, is at `total` or before.
abbrev pub EndsBy : (ℕ → ℕ) → ℕ → List Cue → Type 0
EndsBy spoken total [] = Unit
EndsBy spoken total (c ∷ cs) =
    (c.at_ms ≤ total)
    × (is_speak c.kind ≡ true → c.at_ms + spoken c.idx ≤ total)
    × EndsBy spoken total cs

-- The next line that will be placed starts at `t` or later.
NextFrom : ℕ → ℕ → ℕ → Option Step → Type 0
NextFrom t shift ps none = Unit
NextFrom t shift ps (some s) = t ≤ max (s.speak_ms + shift) ps

-- The steps' lines are as long as `spoken` says.
abbrev HaveLengths : (ℕ → ℕ) → List Step → Type 0
HaveLengths spoken [] = Unit
HaveLengths spoken (s ∷ steps) = (s.spoken_ms ≡ spoken s.idx) × HaveLengths spoken steps
