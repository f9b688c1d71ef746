-- ===== src/Prelude/Texts.antt =====
-- Text as the list of its code points, where the program looks at characters, with the operations of
-- Python's `str` that it uses.
use Prim.Native.Nat.{ℕ, zero, suc, ◌+◌, ◌/◌, ◌%◌}
use Prim.Native.Char.{code}
use Prim.Native.String.{String}
use mathlib.Core.Path.{◌≡◌, refl}
use mathlib.Core.Logic.{◌↔◌}
use mathlib.Core.Bool.{Bool, true, false, ◌&&◌, ◌||◌}
use mathlib.Core.Option.{Option, none, some}
use mathlib.Core.List.{List, [], ◌∷◌, ◌++◌}
use native.Mathlib.Omega.{arith}
use lario_llms.Prelude.Tests.{◌==◌, ==_iff, ltb, if◌then◌else◌}
use lario_llms.Prelude.Lists.{any}

abbrev pub Text : Type 0
Text = List ℕ

-- `String` has its own `[]` and `∷`
abbrev pub codes : String → Text
codes String.[] = []
codes (String.◌∷◌ c s) = code c ∷ codes s

unfoldable pub eq_text : Text → Text → Bool
eq_text [] [] = true
eq_text [] (y ∷ ys) = false
eq_text (x ∷ xs) [] = false
eq_text (x ∷ xs) (y ∷ ys) = x == y && eq_text xs ys

pub eq_text_iff : (xs ys : Text) → (eq_text xs ys ≡ true) ↔ (xs ≡ ys)
unfolding eq_text
eq_text_iff [] [] = (λ _. refl, λ _. refl)
eq_text_iff [] (y ∷ ys) = (λ h. cc, λ h. cc)
eq_text_iff (x ∷ xs) [] = (λ h. cc, λ h. cc)
eq_text_iff (x ∷ xs) (y ∷ ys) = ground (arith, ==_iff x y, eq_text_iff xs ys)

-- `text.startswith(start)`
unfoldable pub starts_with : Text → Text → Bool
starts_with text [] = true
starts_with [] (x ∷ start) = false
starts_with (y ∷ text) (x ∷ start) = y == x && starts_with text start

pub starts_with-append : (start rest : Text) → starts_with (start ++ rest) start ≡ true
unfolding starts_with
starts_with-append [] rest = refl
starts_with-append (x ∷ start) rest = ground (arith, ==_iff x x, starts_with-append start rest)

-- `text.endswith(end)`
unfoldable pub ends_with : Text → Text → Bool
unfolding eq_text
ends_with [] end = eq_text [] end
ends_with (x ∷ text) end = eq_text (x ∷ text) end || ends_with text end

-- `c in text`
abbrev pub holds : ℕ → Text → Bool
holds c text = any (λ x. x == c) text

-- `text[:n]`
abbrev pub take : ℕ → Text → Text
take zero text = []
take (suc n) [] = []
take (suc n) (x ∷ text) = x ∷ take n text

-- `text.replace(c, by)` for one character
abbrev pub replace : ℕ → Text → Text → Text
replace c by [] = []
replace c by (x ∷ text) = (if x == c then by else x ∷ []) ++ replace c by text

-- `text.rpartition(c)`: what stands before and after the last `c`, or none where there is none
unfoldable pub rpartition : ℕ → Text → Option (Text × Text)
rpartition c [] = none
rpartition c (x ∷ text) = elim (rpartition c text) [
  | some (before, after) ↦ some (x ∷ before, after)
  | none ↦ if x == c then some ([], text) else none
]

-- `text.split(c)[0]`
abbrev pub before : ℕ → Text → Text
before c [] = []
before c (x ∷ text) = let rest = before c text in if x == c then [] else x ∷ rest

-- `text.rstrip(...)`, the characters given by a test
unfoldable pub rstrip : (ℕ → Bool) → Text → Text
rstrip p [] = []
rstrip p (x ∷ text) = elim (rstrip p text) [
  | [] ↦ if p x then [] else x ∷ []
  | y ∷ rest ↦ x ∷ y ∷ rest
]

-- `str(n)`: a number of at most `fuel` digits
unfoldable pub digits : ℕ → ℕ → Text
digits zero n = []
digits (suc fuel) n = elim (ltb n 10) [
  | true ↦ (48 + n) ∷ []
  | false ↦ digits fuel (n / 10) ++ (48 + n % 10) ∷ []
]
