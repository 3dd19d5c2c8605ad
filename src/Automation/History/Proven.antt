-- ===== src/Automation/History/Proven.antt =====
-- `proven_tactics` of navigator/automation/explore/history.py: its cap, and which repair wins.
use mathlib.Core.List.{reverse}
use navigator_ai.Prelude.{
  ℕ, suc, ◌+◌, ◌≤◌, ◌≡◌, refl, inl, inr, String, true, Option, none, some, List, [], ◌∷◌, ◌&&◌, not,
  length, leb, Bool-cases, arith, string_eq, if◌then◌else◌,
}
use navigator_ai.Automation.History.{
  LoadedEpisode, load_recent, Tactics, same_place, get_tactic, set_tactic, has_tactic, is_known,
  note_tactic, note_tactics, successful_repairs_in, note_episodes, proven_tactics,
}

abbrev Place : Type 0
Place = String × String

length-set_tactic :
    (k : Place) (v : String) (t : Tactics)
    → length (set_tactic k v t) ≡ (if has_tactic (get_tactic k t) then length t else suc (length t))
unfolding set_tactic
length-set_tactic k v [] = refl
length-set_tactic k v ((j, w) ∷ t) = ground (arith, length-set_tactic k v t)

abbrev pub AllKnown : Tactics → Type 0
AllKnown [] = Unit {0}
AllKnown ((k, v) ∷ t) = (is_known v ≡ true) × AllKnown t

AllKnown-set_tactic :
    (k : Place) (v : String) (t : Tactics)
    → is_known v ≡ true
    → AllKnown t
    → AllKnown (set_tactic k v t)
unfolding set_tactic
AllKnown-set_tactic k v [] h a = (h, tt)
AllKnown-set_tactic k v ((j, w) ∷ t) h (b, a) = elim (Bool-cases (same_place j k)) [
  | inl e ↦ rw e (h, a)
  | inr e ↦ rw e (b, AllKnown-set_tactic k v t h a)
]

abbrev Sound : ℕ → Tactics → Type 0
Sound cap out = (length out ≤ cap) × AllKnown out

Sound-note_tactic :
    (cap : ℕ) (k : Place) (v : String) (out : Tactics)
    → Sound cap out
    → Sound cap (note_tactic cap (k, v) out)
unfolding note_tactic
Sound-note_tactic cap k v out (l, a) = elim (Bool-cases (is_known v)) [
  | inl e ↦ rw e (elim (Bool-cases (not (has_tactic (get_tactic k out)) && leb cap (length out))) [
    | inl f ↦ rw f (l, a)
    | inr f ↦
        rw f (ground (arith, length-set_tactic k v out, f, l), AllKnown-set_tactic k v out e a)
  ])
  | inr e ↦ rw e (l, a)
]

Sound-note_tactics :
    (cap : ℕ) (rs : List (Place × String)) (out : Tactics)
    → Sound cap out
    → Sound cap (note_tactics cap rs out)
unfolding note_tactics
Sound-note_tactics cap [] out s = s
Sound-note_tactics cap ((k, v) ∷ rs) out s =
    Sound-note_tactics cap rs (note_tactic cap (k, v) out) (Sound-note_tactic cap k v out s)

-- The last repair at a place that a known tactic made, or what was found before.
abbrev last_tactic : Place → Option String → List (Place × String) → Option String
last_tactic key found [] = found
last_tactic key found ((k, v) ∷ rs) =
    last_tactic key (if is_known v && same_place k key then some v else found) rs

module _ (url_path : String → String) where
  abbrev pub repairs_in : List LoadedEpisode → ℕ
  repairs_in [] = 0
  repairs_in (ep ∷ eps) = length (successful_repairs_in url_path ep.attempts) + repairs_in eps

  -- What the newest episode with a repair at a place says of it: the last of its repairs there.
  abbrev pub newest_tactic : Place → List LoadedEpisode → Option String
  newest_tactic key [] = none
  newest_tactic key (ep ∷ eps) =
      last_tactic key (newest_tactic key eps) (successful_repairs_in url_path ep.attempts)

  Sound-note_episodes :
      (cap : ℕ) (es : List LoadedEpisode) (out : Tactics)
      → Sound cap out
      → Sound cap (note_episodes url_path cap es out)
  unfolding note_episodes
  Sound-note_episodes cap [] out s = s
  Sound-note_episodes cap (e ∷ es) out s =
      Sound-note_episodes cap es _
        (Sound-note_tactics cap (successful_repairs_in url_path e.attempts) out s)

  -- Whatever the files of past episodes hold, the table of proven tactics has at most
  -- `max_entries` entries, and every tactic in it is one that the repair ladder knows.
  proven_tactics-Sound :
      (limit cap : ℕ) (jobs : List LoadedEpisode)
      → (length (proven_tactics url_path limit cap jobs) ≤ cap)
        × AllKnown (proven_tactics url_path limit cap jobs)
  unfolding proven_tactics
  proven_tactics-Sound limit cap jobs =
      Sound-note_episodes cap (reverse (load_recent limit jobs)) [] (omega arith, tt)
