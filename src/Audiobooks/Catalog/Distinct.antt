-- ===== src/Audiobooks/Catalog/Distinct.antt =====
-- `_dedupe` of media/audiolib/catalog.py keeps one entry of each name and size.
use lario_llms.Prelude.{
  ◌≡◌, refl, ◌⊎◌, inl, inr, Bool, true, false, ◌||◌, none, some, List, [], ◌∷◌, map, All,
  eq_text_iff, arith,
}
use lario_llms.Audiobooks.Catalog.{
  duplicate, Entry, Case, Key, entry_key, eq_key, is_seen, Dropped, dedupe_from, dedupe,
}

eq_key_refl : (k : Key) → eq_key k k ≡ true
eq_key_refl (name, none) = ground (arith, eq_text_iff name name)
eq_key_refl (name, some n) = ground (arith, eq_text_iff name name)

-- no key of the list is in the set, and no two are equal
abbrev pub Fresh : List Key → List Key → Type 0
Fresh seen [] = Unit
Fresh seen (k ∷ ks) = (is_seen k seen ≡ false) × Fresh (k ∷ seen) ks

abbrev pub keys_of : Case → List Entry → List Key
keys_of c entries = map (entry_key c) entries

-- In the order of the entries, each one is the next that is kept or the next that is reported as dropped.
abbrev pub SortedOut : List Entry → List Entry → Dropped → Type 0
SortedOut [] kept dropped = (kept ≡ []) × (dropped ≡ [])
SortedOut (e ∷ entries) kept dropped =
    ((rest : List Entry) × (kept ≡ e ∷ rest) × SortedOut entries rest dropped)
    ⊎ ((rest : Dropped) × (dropped ≡ (e.rel, duplicate) ∷ rest) × SortedOut entries kept rest)

-- what a pass over the entries kept and dropped, where the keys of `seen` were kept before
record Kept (c : Case) (seen : List Key) (entries : List Entry) (out : List Entry × Dropped)
    : Type 0 where
  fresh : Fresh seen (keys_of c out.0)
  sorted : SortedOut entries out.0 out.1
  covered :
      All
        (λ e. (is_seen (entry_key c e) seen || is_seen (entry_key c e) (keys_of c out.0)) ≡ true)
        entries

dedupe_from-Kept :
    (c : Case) (seen : List Key) (entries : List Entry)
    → Kept c seen entries (dedupe_from c seen entries)
unfolding dedupe_from
dedupe_from-Kept c seen [] = record { fresh = tt; sorted = (refl, refl); covered = tt }
dedupe_from-Kept c seen (e ∷ entries) =
    step (is_seen (entry_key c e) seen) refl (dedupe_from-Kept c seen entries)
      (dedupe_from-Kept c (entry_key c e ∷ seen) entries)
  where
    shift :
        (kept : List Key) (es : List Entry)
        → All
            (λ x.
              (is_seen (entry_key c x) (entry_key c e ∷ seen) || is_seen (entry_key c x) kept)
              ≡ true)
            es
        → All
            (λ x.
              (is_seen (entry_key c x) seen || is_seen (entry_key c x) (entry_key c e ∷ kept))
              ≡ true)
            es
    shift kept [] h = tt
    shift kept (x ∷ es) h = (ground (arith, h.0), shift kept es h.1)

    step :
        (b : Bool)
        → is_seen (entry_key c e) seen ≡ b
        → Kept c seen entries (dedupe_from c seen entries)
        → Kept c (entry_key c e ∷ seen) entries (dedupe_from c (entry_key c e ∷ seen) entries)
        → Kept c seen (e ∷ entries) (elim b [
          | true ↦ let rest = dedupe_from c seen entries in (rest.0, (e.rel, duplicate) ∷ rest.1)
          | false ↦ let rest = dedupe_from c (entry_key c e ∷ seen) entries in (e ∷ rest.0, rest.1)
        ])
    step true known here next = record {
      fresh = here.fresh;
      sorted = inr ((dedupe_from c seen entries).1, refl, here.sorted);
      covered = (ground (arith, known), here.covered);
    }
    step false new here next = record {
      fresh = (new, next.fresh);
      sorted = inl ((dedupe_from c (entry_key c e ∷ seen) entries).0, refl, next.sorted);
      covered = (
        ground (arith, eq_key_refl (entry_key c e)),
        shift (keys_of c (dedupe_from c (entry_key c e ∷ seen) entries).0) entries next.covered,
      );
    }

-- Of the entries no two with the same folded name and size are kept, and every entry has the name and size of one
-- that is kept. What is kept and what is reported are the entries taken apart in their order: each entry is
-- kept, or its name is reported as a duplicate.
pub dedupe-Fresh :
    (c : Case) (entries : List Entry)
    → Fresh [] (keys_of c (dedupe c entries).0)
      × All (λ e. is_seen (entry_key c e) (keys_of c (dedupe c entries).0) ≡ true) entries
      × SortedOut entries (dedupe c entries).0 (dedupe c entries).1
unfolding dedupe
dedupe-Fresh c entries = let k = dedupe_from-Kept c [] entries in (k.fresh, k.covered, k.sorted)
