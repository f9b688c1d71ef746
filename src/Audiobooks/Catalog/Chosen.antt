-- ===== src/Audiobooks/Catalog/Chosen.antt =====
-- `select` and `destination` of media/audiolib/catalog.py: what is chosen, and where it lands.
use lario_llms.Prelude.{
  ◌≡◌, sym, ap, subst, inl, inr, Bool, true, false, not, ◌&&◌, List, [], ◌∷◌, ◌++◌, any, all,
  select, length, ltb, All, Text, codes, starts_with, ok, err, ◌>>◌, require, require->>-eq-ok,
  >>=-eq-ok, arith, Bool-cases,
}
use lario_llms.Audiobooks.Catalog.{
  Entry, value_error, join_with, split, is_skipped, is_unsafe, safe_parts, has_parent, destination,
  is_under, prefixes_of, matching, select_entries,
}

All-select : (p : Entry → Bool) (entries : List Entry) → All (λ e. p e ≡ true) (select p entries)
All-select p [] = tt
All-select p (e ∷ entries) = elim (Bool-cases (p e)) [
  | inl hit ↦ rw hit (hit, All-select p entries)
  | inr miss ↦ rw miss (All-select p entries)
]

All-of_all : {A : Type 0} (p : A → Bool) (xs : List A) → all p xs ≡ true → All (λ x. p x ≡ true) xs
All-of_all p [] h = tt
All-of_all p (x ∷ xs) h = (ground arith, All-of_all p xs (ground arith))

-- A choice of collections gives, in their order, the entries of the catalog under one of them, and each of them has
-- an entry; the collections are safe relative paths.
pub select_entries-eq-ok :
    (entries : List Entry) (value : Text) (include : List Text) {chosen : List Entry}
    → select_entries entries (value ∷ include) ≡ ok chosen
    → (prefixes : List Text) × (prefixes_of (value ∷ include) ≡ ok prefixes)
      × (chosen ≡ select (λ e. any (is_under e) prefixes) entries)
      × All (λ e. any (is_under e) prefixes ≡ true) chosen
      × All (λ prefix. any (λ e. is_under e prefix) entries ≡ true) prefixes
unfolding select_entries
select_entries-eq-ok entries value include {chosen = chosen} h =
    let (prefixes, read, h₁) = >>=-eq-ok (prefixes_of (value ∷ include)) (matching entries) h in
    let (found, h₂) =
      require->>-eq-ok (all (λ value. any (λ e. is_under e value) entries) prefixes) value_error _
        h₁ in
    let same : select (λ e. any (is_under e) prefixes) entries ≡ chosen =
      ap (λ r. elim r [ ok x ↦ x | err _ ↦ [] ]) h₂ in
    (
      prefixes,
      read,
      sym same,
      subst (All (λ (e : Entry). any (is_under e) prefixes ≡ true)) same
          (All-select (λ e. any (is_under e) prefixes) entries),
      All-of_all (λ value. any (λ e. is_under e value) entries) prefixes found,
    )

-- The file of a catalog path is written strictly below the resolved root, and the path has neither a `..` nor an
-- over-long part; an absolute path is refused.
pub destination-eq-ok :
    (resolve : Text → Text) (rel root : Text) {path : Text}
    → destination resolve rel root ≡ ok path
    → (parts : List Text) × (safe_parts rel ≡ ok parts)
      × (starts_with rel (codes "/") ≡ false)
      × (any is_unsafe parts ≡ false)
      × (path ≡ resolve (resolve root ++ b'/' ∷ join_with (codes "/") parts))
      × (has_parent path (resolve root) ≡ true)
unfolding destination safe_parts
destination-eq-ok resolve rel root {path = path} h =
    let (parts, read, h₁) =
      >>=-eq-ok (safe_parts rel)
        (λ parts.
          let path = resolve (resolve root ++ b'/' ∷ join_with (codes "/") parts) in
          require (has_parent path (resolve root)) value_error >> ok path)
        h in
    let (below, h₂) =
      require->>-eq-ok
        (has_parent (resolve (resolve root ++ b'/' ∷ join_with (codes "/") parts)) (resolve root))
        value_error _ h₁ in
    let all_parts = select (λ p. not (is_skipped p)) (split b'/' rel) in
    let (relative, h₃) = require->>-eq-ok (not (starts_with rel (codes "/"))) value_error _ read in
    let (safe, h₄) =
      require->>-eq-ok (ltb 0 (length all_parts) && not (any is_unsafe all_parts)) value_error _
        h₃ in
    let same : resolve (resolve root ++ b'/' ∷ join_with (codes "/") parts) ≡ path =
      ap (λ r. elim r [ ok x ↦ x | err _ ↦ [] ]) h₂ in
    let these : all_parts ≡ parts = ap (λ r. elim r [ ok x ↦ x | err _ ↦ [] ]) h₄ in
    (
      parts,
      read,
      ground (arith, relative),
      subst (λ (ps : List Text). any is_unsafe ps ≡ false) these (ground (arith, safe)),
      sym same,
      subst (λ (p : Text). has_parent p (resolve root) ≡ true) same below,
    )
