-- ===== src/Core/KeyPool/Tests.antt =====
-- Small runs of navigator/core/key_pool.py.
use navigator_ai.Prelude.{ℕ, ◌≡◌, refl, [], ◌∷◌, Text, codes, text_eq, strip, ◌==◌, if◌then◌else◌}
use navigator_ai.Core.KeyPool.{Attempt, value, raised, parse_key_list, add_key, split_commas}

-- A service on which the key "b" works and every other one is limited.
abbrev ask : Text → Attempt ℕ
ask key = if key == codes "b" then value 7 else raised (codes "HTTP 429")

abbrev never : Text → Attempt ℕ
never key = raised (codes "Quota exceeded")

parsed :
    parse_key_list (codes " a, b,,a" ∷ codes "c " ∷ []) ≡ codes "a" ∷ codes "b" ∷ codes "c" ∷ []
unfolding parse_key_list add_key split_commas strip
parsed = refl
