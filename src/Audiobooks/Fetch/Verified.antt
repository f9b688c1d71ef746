-- ===== src/Audiobooks/Fetch/Verified.antt =====
-- What a fetch does to the library file.
use lario_llms.Prelude.{
  ℕ, ◌≡◌, ◌≢◌, refl, sym, ap, ◌∙◌, subst, inl, inr, Bool, true, false, not, ◌&&◌, Option, none,
  some, List, [], ◌∷◌, if◌then◌else◌, ◌==◌, ==_iff, arith, Bool-cases,
}
use lario_llms.Audiobooks.Fetch.{
  Place, Attempt, Outcome, fetched, skipped, stopped_before, failed, cleared, is_known, download,
  publish, attempt, or_next, tries, is_there, up_to_six, fetch,
}

-- A fetched file is whole, if its size is known, and has left no part; any other outcome leaves the file alone.
abbrev pub Verified : ℕ → Place → Outcome × Place → Type 0
Verified want p (fetched n, q) = (q.dest ≡ some n) × (q.part ≡ none) × (want ≢ 0 → n ≡ want)
Verified want p (skipped, q) = (q.dest ≡ p.dest) × (p.dest ≡ some want)
Verified want p (stopped_before, q) = q.dest ≡ p.dest
Verified want p (failed, q) = q.dest ≡ p.dest

-- the same of an attempt
abbrev Tried : ℕ → Place → Option Outcome × Place → Type 0
Tried want p (none, q) = q.dest ≡ p.dest
Tried want p (some outcome, q) = Verified want p (outcome, q)

publish-Tried : (want : ℕ) (p : Place) (r : Bool × Option ℕ) → Tried want p (publish want p r)
publish-Tried want p (false, part) = refl
publish-Tried want p (true, none) = refl
publish-Tried want p (true, some got) = split (is_known want && not (got == want)) refl
  where
    split :
        (b : Bool)
        → (is_known want && not (got == want)) ≡ b
        → Tried want p (
            if b
            then (none, record p { part = some got })
            else (some (fetched got), record { dest = some got; part = none }))
    split true e = refl
    split false e = (refl, refl, λ known. ground (arith, known))

attempt-Tried : (want : ℕ) (a : Attempt) (p : Place) → Tried want p (attempt want a p)
attempt-Tried want a p = split a.stopped
  where
    split :
        (b : Bool)
        → Tried want p (
            if b
            then (some stopped_before, p)
            else publish want p (download want a (cleared want p.part)))
    split true = refl
    split false = publish-Tried want p (download want a (cleared want p.part))

tries-Verified :
    (want : ℕ) (attempts : List Attempt) (p : Place) → Verified want p (tries want attempts p)
unfolding tries
tries-Verified want [] p = refl
tries-Verified want (a ∷ attempts) p =
    split (attempt want a p) (attempt-Tried want a p)
      (tries-Verified want attempts (attempt want a p).1)
  where
    later :
        (q : Place) (r : Outcome × Place) → q.dest ≡ p.dest → Verified want q r → Verified want p r
    later q (fetched n, s) e h = h
    later q (skipped, s) e h = (h.0 ∙ e, sym e ∙ h.1)
    later q (stopped_before, s) e h = h ∙ e
    later q (failed, s) e h = h ∙ e

    split :
        (r : Option Outcome × Place)
        → Tried want p r
        → Verified want r.1 (tries want attempts r.1)
        → Verified want p (or_next r (tries want attempts r.1))
    split (none, q) h k = later q (tries want attempts q) h k
    split (some outcome, q) h k = h

-- A fetch replaces the library file only by a transfer of the expected size, if the size is known, and then leaves no
-- part; it skips a file that has the expected size already; and a fetch that fails or is stopped leaves the
-- library file as it was.
pub fetch-Verified :
    (want : ℕ) (attempts : ℕ → Attempt) (p : Place) → Verified want p (fetch want attempts p)
unfolding fetch
fetch-Verified want attempts p = split p.dest refl
  where
    split :
        (d : Option ℕ)
        → p.dest ≡ d
        → Verified want p
            (if is_there want d then (skipped, p) else tries want (up_to_six attempts) p)
    split none e = tries-Verified want (up_to_six attempts) p
    split (some n) e = elim (Bool-cases (n == want)) [
      | inl same ↦ rw same (refl, e ∙ ap some (ground (arith, same)))
      | inr differ ↦ rw differ (tries-Verified want (up_to_six attempts) p)
    ]

-- A file that was fetched with a known size is skipped by every later fetch of it, which changes nothing.
pub fetch-fetch :
    (want : ℕ) (attempts later : ℕ → Attempt) (p : Place) {n : ℕ} {q : Place}
    → want ≢ 0
    → fetch want attempts p ≡ (fetched n, q)
    → fetch want later q ≡ (skipped, q)
unfolding fetch
fetch-fetch want attempts later p {n = n} {q = q} known h =
    let v : Verified want p (fetched n, q) =
      subst (Verified want p) h (fetch-Verified want attempts p) in
    let size : n ≡ want = v.2 known in
    let there : is_there want q.dest ≡ true = rw v.0 ((==_iff n want).1 size) in rw there refl
