-- ===== src/Encoder/Tally/Rows.antt =====
-- What the tally of a manifest counts.
use lario_llms.Prelude.{
  ℕ, ◌+◌, ◌≡◌, refl, sym, ap, ◌∙◌, inl, inr, Bool, true, false, false≢true, ◌&&◌, Option, none,
  some, List, [], ◌∷◌, if◌then◌else◌, count, select, Text, codes, eq_text, eq_text_iff, arith,
  Bool-cases,
}
use lario_llms.Names.{basename}
use lario_llms.Encoder.Tally.{
  Line, no_counts, is_counted, bump, Tally, eq_texts, is_done, is_alias, reclaim, add_done,
  count_line, add_decision, add_line, tally_lines, no_tally, manifest_tally,
}
use lario_llms.Encoder.Tally.Bump.{sum, count_of, bump-sum, bump-is_counted, bump-count_of}
use lario_llms.Encoder.Tally.Renames.{
  is_row, is_repeat, latest, repeats, repeats-select, renames, eq_texts-eq,
}

-- a line with the decision `d`, which is a known one
abbrev pub is_decision : Text → Line → Bool
is_decision d [] = false
is_decision d (_ ∷ []) = false
is_decision d (path ∷ e ∷ key) = is_counted e no_counts && eq_text e d

-- the name in the last DONE line
abbrev pub last_of : Option Text → Line → Option Text
last_of acc [] = acc
last_of acc (_ ∷ []) = acc
last_of acc (path ∷ d ∷ key) = if is_done d then some (basename path) else acc

abbrev pub last_commit : Option Text → List Line → Option Text
last_commit acc [] = acc
last_commit acc (line ∷ lines) = last_commit (last_of acc line) lines

abbrev done_key : Text
done_key = codes "DONE"

abbrev one_if : Bool → ℕ
one_if b = if b then 1 else 0

-- the lines that a tally has counted under a decision, the second lines of renames among them
abbrev pub share : Text → Tally → ℕ
share d t = count_of d t.counts + (if is_done d then t.aliases else 0)

-- what a line adds to a tally
record Added (line : Line) (t t' : Tally) : Type 0 where
  rows : sum t'.counts + t'.aliases ≡ one_if (is_row line) + (sum t.counts + t.aliases)
  decided : (d : Text) → share d t' ≡ one_if (is_decision d line) + share d t
  repeated : t'.aliases ≡ one_if (is_repeat t.previous line) + t.aliases
  previous : t'.previous ≡ latest t.previous line
  last : t'.last ≡ last_of t.last line
  known : (d : Text) → is_counted d t'.counts ≡ is_counted d t.counts

-- the fields that the reclaimed bytes do not touch
abbrev Agree : Tally → Tally → Type 0
Agree t t' =
    (t'.counts ≡ t.counts)
    × (t'.aliases ≡ t.aliases)
    × (t'.last ≡ t.last)
    × (t'.previous ≡ t.previous)

reclaim-Agree : (int : Text → Option ℕ) (key : List Text) (t : Tally) → Agree t (reclaim int key t)
reclaim-Agree int [] t = (refl, refl, refl, refl)
reclaim-Agree int (a ∷ []) t = (refl, refl, refl, refl)
reclaim-Agree int (a ∷ b ∷ key) t = split (int a) (int b)
  where
    split :
        (m n : Option ℕ)
        → Agree t (elim m [
          | none ↦ t
          | some m ↦ elim n [
            | none ↦ t
            | some n ↦ record t { before = t.before + m; after = t.after + n }
          ]
        ])
    split none n = (refl, refl, refl, refl)
    split (some m) none = (refl, refl, refl, refl)
    split (some m) (some n) = (refl, refl, refl, refl)

module _ (int : Text → Option ℕ) (path d : Text) (key : List Text) (t : Tally)
    (here : is_counted d t.counts ≡ true) (row : is_counted d no_counts ≡ true) where
  count_line-Added :
      is_alias (is_done d) key t.previous ≡ false
      → Added (path ∷ d ∷ key) t (count_line int path d key t)
  count_line-Added new = split (is_done d) refl
    where
      counted : Bool → Tally
      counted b = record t { counts = bump d t.counts; previous = if b then some key else none }

      under :
          (x : Text)
          → count_of x (bump d t.counts) + (if is_done x then t.aliases else 0)
            ≡ one_if (is_counted d no_counts && eq_text d x) + share x t
      under x = rw row (omega (arith, bump-count_of d x t.counts here))

      split :
          (b : Bool)
          → is_done d ≡ b
          → Added (path ∷ d ∷ key) t (if b then add_done int path key (counted b) else counted b)
      split true e =
          let a = reclaim-Agree int key (record (counted true) { last = some (basename path) }) in
          record {
            rows = rw (a.0, a.1, row) (omega (arith, bump-sum d t.counts here));
            decided = λ x. rw (a.0, a.1) (under x);
            repeated = rw (row, new) (omega (arith, a.1));
            previous = rw (row, e) a.3;
            last = rw e a.2;
            known = λ x. ap (is_counted x) a.0 ∙ bump-is_counted d x t.counts;
          }
      split false e = record {
        rows = rw row (omega (arith, bump-sum d t.counts here));
        decided = under;
        repeated = rw (row, new) (omega arith);
        previous = rw (row, e) refl;
        last = rw e refl;
        known = λ x. bump-is_counted d x t.counts;
      }

  -- the second line of a rename: a DONE line with the key of the one before
  alias-Added :
      is_alias (is_done d) key t.previous ≡ true
      → Added (path ∷ d ∷ key) t (record t { aliases = t.aliases + 1; last = some (basename path) })
  alias-Added again =
      let (committed, before) = alias_done t.previous again in
      record {
        rows = rw row (omega arith);
        decided = λ x. rw row (
            ground
              (arith, eq_text_iff d done_key, eq_text_iff x done_key, eq_text_iff d x, committed));
        repeated = rw (row, again) (omega arith);
        previous = rw (row, committed) before;
        last = rw committed refl;
        known = λ x. refl;
      }
    where
      alias_done :
          (previous : Option (List Text))
          → is_alias (is_done d) key previous ≡ true
          → (is_done d ≡ true) × (previous ≡ some key)
      alias_done none e = cc
      alias_done (some p) e =
          let same : eq_texts key p ≡ true = ground arith in
          (ground (arith, e), ap some (sym (eq_texts-eq key p same)))

  add_decision-Added : Added (path ∷ d ∷ key) t (add_decision int path d key t)
  add_decision-Added = elim (Bool-cases (is_alias (is_done d) key t.previous)) [
    | inl again ↦ rw again (alias-Added again)
    | inr new ↦ rw new (count_line-Added new)
  ]

-- the decisions of the tally are those of an empty one
abbrev Known : Tally → Type 0
Known t = (d : Text) → is_counted d t.counts ≡ is_counted d no_counts

done_counted : is_counted done_key no_counts ≡ true
unfolding eq_text
done_counted = refl

done_is_row : (d : Text) → is_counted d no_counts ≡ false → is_done d ≡ false
done_is_row d h = elim (Bool-cases (is_done d)) [
  | inl e ↦
      let same : d ≡ done_key = (eq_text_iff d done_key).0 e in
      absurd (false≢true (sym h ∙ ap (λ x. is_counted x no_counts) same ∙ done_counted))
  | inr e ↦ e
]

add_line-Added :
    (int : Text → Option ℕ) (line : Line) (t : Tally) → Known t → Added line t (add_line int line t)
add_line-Added int [] t k = record {
  rows = omega arith;
  decided = λ d. omega arith;
  repeated = omega arith;
  previous = refl;
  last = refl;
  known = λ d. refl;
}
add_line-Added int (_ ∷ []) t k = record {
  rows = omega arith;
  decided = λ d. omega arith;
  repeated = omega arith;
  previous = refl;
  last = refl;
  known = λ d. refl;
}
add_line-Added int (path ∷ d ∷ key) t k = elim (Bool-cases (is_counted d no_counts)) [
  | inl row ↦ rw (k d ∙ row) (add_decision-Added int path d key t (k d ∙ row) row)
  | inr other ↦ rw (k d ∙ other) record {
    rows = rw other (omega arith);
    decided = λ x. rw other (omega arith);
    repeated = rw other (omega arith);
    previous = rw other refl;
    last = rw (done_is_row d other) refl;
    known = λ x. refl;
  }
]

-- what a run of lines adds
record Tallied (lines : List Line) (t t' : Tally) : Type 0 where
  rows : sum t'.counts + t'.aliases ≡ count is_row lines + (sum t.counts + t.aliases)
  decided : (d : Text) → share d t' ≡ count (is_decision d) lines + share d t
  repeated : t'.aliases ≡ repeats t.previous lines + t.aliases
  last : t'.last ≡ last_commit t.last lines

tally_lines-Tallied :
    (int : Text → Option ℕ) (lines : List Line) (t : Tally)
    → Known t
    → Tallied lines t (tally_lines int lines t)
unfolding tally_lines repeats
tally_lines-Tallied int [] t k = record {
  rows = omega arith;
  decided = λ d. omega arith;
  repeated = omega arith;
  last = refl;
}
tally_lines-Tallied int (line ∷ lines) t k =
    let a = add_line-Added int line t k in
    let next = add_line int line t in
    let r = tally_lines-Tallied int lines next (λ d. a.known d ∙ k d) in
    let rest : next.aliases + repeats next.previous lines
        ≡ next.aliases + repeats (latest t.previous line) lines =
      ap (λ (p : Option (List Text)). next.aliases + repeats p lines) a.previous in
    record {
      rows = omega (arith, r.rows, a.rows);
      decided = λ d. omega (arith, r.decided d, a.decided d);
      repeated = omega (arith, r.repeated, a.repeated, rest);
      last = r.last ∙ ap (λ (x : Option Text). last_commit x lines) a.last;
    }

share-no_tally : (d : Text) → share d no_tally ≡ 0
share-no_tally d = ground arith

-- Every line of the manifest with a known decision is counted once. The count of each decision is the number of
-- its lines, where those of DONE that are second lines of a rename are counted apart: the DONE lines that follow,
-- lines without a known decision aside, directly on a DONE line with the same fields behind the decision. The
-- title that is reported as last done is the file name in the last DONE line.
pub manifest_tally-lines :
    (int : Text → Option ℕ) (lines : List Line)
    → (sum (manifest_tally int (some lines)).counts + (manifest_tally int (some lines)).aliases
        ≡ count is_row lines)
      × ((d : Text)
          → count_of d (manifest_tally int (some lines)).counts
              + (if is_done d then (manifest_tally int (some lines)).aliases else 0)
            ≡ count (is_decision d) lines)
      × ((manifest_tally int (some lines)).aliases ≡ renames (select is_row lines))
      × ((manifest_tally int (some lines)).last ≡ last_commit none lines)
unfolding manifest_tally
manifest_tally-lines int lines =
    let r = tally_lines-Tallied int lines no_tally (λ d. refl) in
    (
      omega (arith, r.rows),
      (λ d. omega (arith, r.decided d, share-no_tally d)),
      omega (arith, r.repeated, repeats-select lines),
      r.last,
    )
