-- ===== src/Audiobooks/Catalog/Totals.antt =====
-- `document` of media/audiolib/catalog.py: the totals of a catalog and those of its collections.
use lario_llms.Prelude.{
  ℕ, ◌+◌, ◌≡◌, ◌∙◌, inl, inr, List, [], ◌∷◌, total, length, Text, eq_text, arith, Bool-cases,
}
use lario_llms.Audiobooks.Catalog.{
  Entry, Group, size_or_0, collection_name, count_entry, groups_of, collections_of, document,
}

count_entry-total :
    (name : Text) (size : ℕ) (groups : List Group)
    → (total (λ (g : Group). g.files) (count_entry name size groups)
        ≡ total (λ (g : Group). g.files) groups + 1)
      × (total (λ (g : Group). g.bytes) (count_entry name size groups)
          ≡ total (λ (g : Group). g.bytes) groups + size)
unfolding count_entry
count_entry-total name size [] = (omega arith, omega arith)
count_entry-total name size (g ∷ groups) = elim (Bool-cases (eq_text g.name name)) [
  | inl e ↦ rw e (omega arith, omega arith)
  | inr e ↦ rw e (
    omega (arith, (count_entry-total name size groups).0),
    omega (arith, (count_entry-total name size groups).1),
  )
]

groups_of-total :
    (groups : List Group) (entries : List Entry)
    → (total (λ (g : Group). g.files) (groups_of groups entries)
        ≡ total (λ (g : Group). g.files) groups + length entries)
      × (total (λ (g : Group). g.bytes) (groups_of groups entries)
          ≡ total (λ (g : Group). g.bytes) groups + total size_or_0 entries)
unfolding groups_of
groups_of-total groups [] = (omega arith, omega arith)
groups_of-total groups (e ∷ entries) =
    let one = count_entry-total (collection_name e) (size_or_0 e) groups in
    let rest = groups_of-total (count_entry (collection_name e) (size_or_0 e) groups) entries in
    (omega (arith, one.0, rest.0), omega (arith, one.1, rest.1))

-- The files and the bytes that a catalog reports are the sums over its collections. (Sorting the collections
-- changes no sum.)
pub document-collections :
    (order : List Group → List Group) (entries : List Entry)
    → ((f : Group → ℕ) (groups : List Group) → total f (order groups) ≡ total f groups)
    → (total (λ (g : Group). g.files) (document order entries).collections
        ≡ (document order entries).files)
      × (total (λ (g : Group). g.bytes) (document order entries).collections
          ≡ (document order entries).bytes)
unfolding document collections_of
document-collections order entries sums =
    let t = groups_of-total [] entries in
    (
      sums (λ g. g.files) (groups_of [] entries) ∙ t.0 ∙ omega arith,
      sums (λ g. g.bytes) (groups_of [] entries) ∙ t.1 ∙ omega arith,
    )
