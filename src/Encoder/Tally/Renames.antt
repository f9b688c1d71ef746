-- ===== src/Encoder/Tally/Renames.antt =====
-- The second lines of renames in a manifest, as `manifest_tally` of rtx5080/encoder/controller.py finds them by
-- remembering a key and as neighbours among the lines with a known decision.
use lario_llms.Prelude.{
  ℕ, ◌+◌, ◌≡◌, refl, inl, inr, Bool, true, false, ◌&&◌, Option, none, some, List, [], ◌∷◌,
  if◌then◌else◌, select, Text, eq_text_iff, arith, Bool-cases,
}
use lario_llms.Encoder.Tally.{Line, no_counts, is_counted, eq_texts, is_done, is_alias}

-- a line with a known decision
abbrev pub is_row : Line → Bool
is_row [] = false
is_row (_ ∷ []) = false
is_row (path ∷ d ∷ key) = is_counted d no_counts

-- two DONE lines with the same fields behind the decision
abbrev pub same_commit : Line → Line → Bool
same_commit [] m = false
same_commit (_ ∷ []) m = false
same_commit (p ∷ d ∷ key) [] = false
same_commit (p ∷ d ∷ key) (_ ∷ []) = false
same_commit (p ∷ d ∷ key) (q ∷ e ∷ other) = is_done d && is_done e && eq_texts other key

-- the neighbours that are such a pair
abbrev pub renames_after : Line → List Line → ℕ
renames_after line [] = 0
renames_after line (next ∷ lines) =
    (if same_commit line next then 1 else 0) + renames_after next lines

abbrev pub renames : List Line → ℕ
renames [] = 0
renames (line ∷ lines) = renames_after line lines

-- the key that is remembered after a line
abbrev commit_key : Line → Option (List Text)
commit_key [] = none
commit_key (_ ∷ []) = none
commit_key (path ∷ d ∷ key) = if is_done d then some key else none

abbrev pub latest : Option (List Text) → Line → Option (List Text)
latest previous [] = previous
latest previous (_ ∷ []) = previous
latest previous (path ∷ d ∷ key) =
    if is_counted d no_counts then (if is_done d then some key else none) else previous

abbrev pub is_repeat : Option (List Text) → Line → Bool
is_repeat previous [] = false
is_repeat previous (_ ∷ []) = false
is_repeat previous (path ∷ d ∷ key) = is_counted d no_counts && is_alias (is_done d) key previous

unfoldable pub repeats : Option (List Text) → List Line → ℕ
repeats previous [] = 0
repeats previous (line ∷ lines) =
    (if is_repeat previous line then 1 else 0) + repeats (latest previous line) lines

pub eq_texts-eq : (xs ys : List Text) → eq_texts xs ys ≡ true → xs ≡ ys
eq_texts-eq [] [] h = refl
eq_texts-eq [] (y ∷ ys) h = cc
eq_texts-eq (x ∷ xs) [] h = cc
eq_texts-eq (x ∷ xs) (y ∷ ys) h =
    let head : x ≡ y = (eq_text_iff x y).0 (ground (arith, h)) in
    let tail : xs ≡ ys = eq_texts-eq xs ys (ground (arith, h)) in cc (head, tail)

repeats-renames_after :
    (line : Line) (lines : List Line)
    → repeats (commit_key line) lines ≡ renames_after line (select is_row lines)
unfolding repeats
repeats-renames_after line [] = refl
repeats-renames_after line ([] ∷ lines) = omega (arith, repeats-renames_after line lines)
repeats-renames_after line ((x ∷ []) ∷ lines) = omega (arith, repeats-renames_after line lines)
repeats-renames_after line ((path ∷ d ∷ key) ∷ lines) = elim (Bool-cases (is_counted d no_counts)) [
  | inr other ↦ rw other (omega (arith, repeats-renames_after line lines))
  | inl row ↦ rw (row, repeat_alike line, repeats-renames_after (path ∷ d ∷ key) lines) refl
]
  where
    repeat_alike :
        (l : Line) → is_alias (is_done d) key (commit_key l) ≡ same_commit l (path ∷ d ∷ key)
    repeat_alike [] = refl
    repeat_alike (_ ∷ []) = refl
    repeat_alike (q ∷ e ∷ other) = elim (Bool-cases (is_done e)) [
      | inl committed ↦ rw committed refl
      | inr refused ↦ rw refused refl
    ]

pub repeats-select : (lines : List Line) → repeats none lines ≡ renames (select is_row lines)
unfolding repeats
repeats-select [] = refl
repeats-select ([] ∷ lines) = omega (arith, repeats-select lines)
repeats-select ((x ∷ []) ∷ lines) = omega (arith, repeats-select lines)
repeats-select ((path ∷ d ∷ key) ∷ lines) = elim (Bool-cases (is_counted d no_counts)) [
  | inr other ↦ rw other (omega (arith, repeats-select lines))
  | inl row ↦ rw row (omega (arith, repeats-renames_after (path ∷ d ∷ key) lines))
]
