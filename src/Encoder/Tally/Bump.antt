-- ===== src/Encoder/Tally/Bump.antt =====
-- How `bump` changes the counts of a tally, of `manifest_tally` in rtx5080/encoder/controller.py.
use lario_llms.Prelude.{
  ℕ, ◌+◌, ◌≡◌, refl, ap, inl, inr, true, ◌||◌, [], ◌∷◌, if◌then◌else◌, total, Text, eq_text,
  eq_text_iff, arith, Bool-cases,
}
use lario_llms.Encoder.Tally.{Counts, is_counted, bump}

abbrev pub sum : Counts → ℕ
sum counts = total (λ c. c.1) counts

-- `counts[d]`
abbrev pub count_of : Text → Counts → ℕ
count_of d [] = 0
count_of d ((e, n) ∷ counts) = if eq_text e d then n else count_of d counts

pub bump-sum :
    (d : Text) (counts : Counts) → is_counted d counts ≡ true → sum (bump d counts) ≡ sum counts + 1
unfolding bump
bump-sum d [] h = cc
bump-sum d ((e, n) ∷ counts) h = elim (Bool-cases (eq_text e d)) [
  | inl same ↦ rw same (omega arith)
  | inr other ↦ rw other (omega (arith, bump-sum d counts (rw other at h)))
]

pub bump-is_counted :
    (d e : Text) (counts : Counts) → is_counted e (bump d counts) ≡ is_counted e counts
unfolding bump
bump-is_counted d e [] = refl
bump-is_counted d e ((f, n) ∷ counts) = elim (Bool-cases (eq_text f d)) [
  | inl same ↦ rw same refl
  | inr other ↦ rw other (ap (λ b. eq_text f e || b) (bump-is_counted d e counts))
]

pub bump-count_of :
    (d e : Text) (counts : Counts)
    → is_counted d counts ≡ true
    → count_of e (bump d counts) ≡ (if eq_text d e then 1 else 0) + count_of e counts
unfolding bump
bump-count_of d e [] h = cc
bump-count_of d e ((f, n) ∷ counts) h =
    ground (arith, eq_text_iff f d, eq_text_iff f e, eq_text_iff d e, bump-count_of d e counts)
