-- ===== src/Prelude/Texts.antt =====
-- Texts as lists of code points, where the program looks into them.
use Prim.Native.Nat.{ℕ, ◌+◌}
use Prim.Native.Char.{code}
use Prim.Native.String.{String}
use mathlib.Core.Path.{◌≡◌, refl}
use mathlib.Core.Logic.{◌↔◌}
use mathlib.Core.Bool.{Bool, true, false, ◌&&◌, ◌||◌}
use mathlib.Core.List.{List, [], ◌∷◌, ◌++◌, map, reverse}
use native.Mathlib.Omega.{arith}
use navigator_ai.Prelude.Tests.{leb, if◌then◌else◌}
use navigator_ai.Prelude.Equality.{Eq, ◌==◌, nat_eq}

abbrev pub Text : Type 0
Text = List ℕ

abbrev pub codes : String → Text
codes String.[] = []
codes (String.◌∷◌ c s) = code c ∷ codes s

abbrev pub list_beq : List ℕ → List ℕ → Bool
list_beq [] [] = true
list_beq [] (y ∷ ys) = false
list_beq (x ∷ xs) [] = false
list_beq (x ∷ xs) (y ∷ ys) = (x == y) && list_beq xs ys

pub list_beq_iff : (xs ys : List ℕ) → (list_beq xs ys ≡ true) ↔ (xs ≡ ys)
list_beq_iff [] [] = ((λ _. refl), (λ _. refl))
list_beq_iff [] (y ∷ ys) = ((λ h. cc), (λ h. cc))
list_beq_iff (x ∷ xs) [] = ((λ h. cc), (λ h. cc))
list_beq_iff (x ∷ xs) (y ∷ ys) =
    ((λ h. ground (arith, list_beq_iff xs ys)), (λ h. ground (arith, list_beq_iff xs ys)))

instance abbrev pub text_eq : Eq Text
text_eq = record { same = list_beq; same_iff = list_beq_iff }

-- `s.startswith(p)`
unfoldable pub starts_with : Text → Text → Bool
starts_with s [] = true
starts_with [] (c ∷ p) = false
starts_with (d ∷ s) (c ∷ p) = (d == c) && starts_with s p

-- `p in s`
unfoldable pub has_infix : Text → Text → Bool
unfolding starts_with
has_infix [] p = starts_with [] p
has_infix (d ∷ s) p = starts_with (d ∷ s) p || has_infix s p

pub starts_with-append : (p s : Text) → starts_with (p ++ s) p ≡ true
unfolding starts_with
starts_with-append [] [] = refl
starts_with-append [] (d ∷ s) = refl
starts_with-append (c ∷ p) s = ground (arith, starts_with-append p s)

has_infix_of_starts_with : (s p : Text) → starts_with s p ≡ true → has_infix s p ≡ true
unfolding has_infix
has_infix_of_starts_with [] p h = h
has_infix_of_starts_with (d ∷ s) p h = rw h

pub has_infix-append : (a p b : Text) → has_infix (a ++ (p ++ b)) p ≡ true
unfolding has_infix
has_infix-append [] p b = has_infix_of_starts_with (p ++ b) p (starts_with-append p b)
has_infix-append (c ∷ a) p b = ground (arith, has_infix-append a p b)

-- A text in a longer one is in any text around that.
pub has_infix-trans_right : (a b p : Text) → has_infix b p ≡ true → has_infix (a ++ b) p ≡ true
unfolding has_infix
has_infix-trans_right [] b p h = h
has_infix-trans_right (c ∷ a) b p h = ground (arith, has_infix-trans_right a b p h)

-- ASCII letters and white space, as `str.lower` and `str.strip` treat them.
unfoldable pub lower_code : ℕ → ℕ
lower_code c = if leb b'A' c && leb c b'Z' then c + 32 else c

unfoldable pub lower : Text → Text
unfolding lower_code
lower s = map lower_code s

unfoldable pub is_space : ℕ → Bool
is_space c = leb 9 c && leb c 13 || leb 28 c && leb c 32

unfoldable pub strip_left : Text → Text
unfolding is_space
strip_left [] = []
strip_left (c ∷ s) = let rest = strip_left s in if is_space c then rest else c ∷ s

unfoldable pub strip : Text → Text
unfolding strip_left
strip s = reverse (strip_left (reverse (strip_left s)))
