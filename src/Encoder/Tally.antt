-- ===== src/Encoder/Tally.antt =====
-- `manifest_tally` of rtx5080/encoder/controller.py. A line is its fields between tabs.
pub mod Bump
pub mod Renames
pub mod Rows
use lario_llms.Prelude.{
  ℕ, ◌+◌, Bool, true, false, ◌&&◌, Option, none, some, List, [], ◌∷◌, if◌then◌else◌, any, map, Text,
  codes, eq_text,
}
use lario_llms.Names.{basename}

abbrev pub Line : Type 0
Line = List Text

abbrev pub Counts : Type 0
Counts = List (Text × ℕ)

abbrev pub no_counts : Counts
no_counts =
    map (λ d. (codes d, 0))
      ("DONE" ∷ "TESTDONE" ∷ "FAIL" ∷ "SKIP" ∷ "SKIPCODEC" ∷ "SKIPSIZE" ∷ "NOGAIN" ∷ "OVERSIZE"
        ∷ [])

-- `d in counts`, and `counts[d] += 1`
abbrev pub is_counted : Text → Counts → Bool
is_counted d counts = any (λ c. eq_text c.0 d) counts

unfoldable pub bump : Text → Counts → Counts
unfolding eq_text
bump d [] = []
bump d ((e, n) ∷ counts) =
    let rest = bump d counts in if eq_text e d then (e, n + 1) ∷ counts else (e, n) ∷ rest

-- The bytes reclaimed are the difference of `before` and `after`.
pub record Tally : Type 0 where
  pub counts : Counts
  pub before : ℕ
  pub after : ℕ
  pub aliases : ℕ
  pub last : Option Text
  pub previous : Option (List Text)

abbrev pub eq_texts : List Text → List Text → Bool
eq_texts [] [] = true
eq_texts [] (_ ∷ _) = false
eq_texts (_ ∷ _) [] = false
eq_texts (x ∷ xs) (y ∷ ys) = eq_text x y && eq_texts xs ys

abbrev pub is_done : Text → Bool
is_done d = eq_text d (codes "DONE")

-- the key of a DONE line, which is that of the line counted before
abbrev pub is_alias : Bool → List Text → Option (List Text) → Bool
is_alias is_commit key none = false
is_alias is_commit key (some previous) = is_commit && eq_texts key previous

-- `int(a) - int(b)`, unless one is missing or no number
abbrev pub reclaim : (Text → Option ℕ) → List Text → Tally → Tally
reclaim int [] t = t
reclaim int (a ∷ []) t = t
reclaim int (a ∷ b ∷ _) t = elim (int a) [
  | none ↦ t
  | some m ↦ elim (int b) [
    | none ↦ t
    | some n ↦ record t { before = t.before + m; after = t.after + n }
  ]
]

abbrev pub add_done : (Text → Option ℕ) → Text → List Text → Tally → Tally
add_done int path key t = reclaim int key (record t { last = some (basename path) })

abbrev pub count_line : (Text → Option ℕ) → Text → Text → List Text → Tally → Tally
count_line int path d key t =
    let counted = record t {
      counts = bump d t.counts;
      previous = if is_done d then some key else none;
    } in
    if is_done d then add_done int path key counted else counted

abbrev pub add_decision : (Text → Option ℕ) → Text → Text → List Text → Tally → Tally
add_decision int path d key t =
    if is_alias (is_done d) key t.previous
    then record t { aliases = t.aliases + 1; last = some (basename path) }
    else count_line int path d key t

abbrev pub add_line : (Text → Option ℕ) → Line → Tally → Tally
add_line int [] t = t
add_line int (_ ∷ []) t = t
add_line int (path ∷ d ∷ key) t = if is_counted d t.counts then add_decision int path d key t else t

unfoldable pub tally_lines : (Text → Option ℕ) → List Line → Tally → Tally
tally_lines int [] t = t
tally_lines int (line ∷ lines) t = tally_lines int lines (add_line int line t)

abbrev pub no_tally : Tally
no_tally = record {
  counts = no_counts;
  before = 0;
  after = 0;
  aliases = 0;
  last = none;
  previous = none;
}

-- `int` reads a size; `lines` is none where there is no manifest
unfoldable pub manifest_tally : (Text → Option ℕ) → Option (List Line) → Tally
unfolding tally_lines bump eq_text
manifest_tally int none = no_tally
manifest_tally int (some lines) = tally_lines int lines no_tally
