-- ===== src/Names/Unique/Fresh.antt =====
-- The name that is handed out is free, and it is the first free one.
use lario_llms.Prelude.{
  ℕ, zero, suc, ◌-◌, ◌≤◌, ◌<◌, ◌≡◌, ◌≢◌, refl, sym, ap, ◌∙◌, ◌⊎◌, inl, inr, true, false, List, [],
  ◌∷◌, Text, eq_text_iff, rpartition, ok, err, ◌>>=◌, >>=-eq-ok, arith, length, Bool-cases,
  if-cases, All, subst, ◌==◌,
}
use lario_llms.Names.{Unicode, utf16_len, sanitise, key}
use lario_llms.Names.Unique.{
  Seen, is_seen, Parts, parts_of, numbered, search, pick, unique, unique_names,
}

pub ≤-cases : (m n : ℕ) → m ≤ n → (m ≡ n) ⊎ (suc m ≤ n)
≤-cases m n h = elim (Bool-cases (m == n)) [
  | inl e ↦ inl (ground arith)
  | inr e ↦ inr (ground arith)
]

module _ (u : Unicode) (seen : Seen) where
  abbrev pub Taken : Text → Type 0
  Taken base = is_seen (key u base) seen ≡ true

  abbrev pub Free : Text → Type 0
  Free base = is_seen (key u base) seen ≡ false

  -- the name carries the number, and the names with the numbers from `first` to before it are taken
  pub record Numbered (p : Parts) (width first : ℕ) (base : Text) : Type 0 where
    pub number : ℕ
    pub from : first ≤ number
    pub to : number ≤ 9999
    pub name : base ≡ numbered p width number
    pub free : Free base
    pub least : (m : ℕ) → first ≤ m → m < number → Taken (numbered p width m)

  search-eq-ok :
      (p : Parts) (width fuel : ℕ) {base : Text}
      → fuel ≤ 9999
      → search u seen p width fuel ≡ ok base
      → Numbered p width (9999 - fuel) base
  unfolding search
  search-eq-ok p width zero {base = base} small h =
      elim (Bool-cases (is_seen (key u (numbered p width 9999)) seen)) [
        | inl taken ↦ let k = rw taken at h in cc
        | inr free ↦
            let k : ok (numbered p width 9999) ≡ ok base = rw free at h in
            let e : numbered p width 9999 ≡ base = cc in
            record {
              number = 9999;
              from = omega arith;
              to = omega arith;
              name = sym e;
              free = subst Free e free;
              least = λ m low high. absurd (omega arith);
            }
      ]
  search-eq-ok p width (suc fuel) {base = base} small h =
      elim (if-cases (is_seen (key u (numbered p width (9999 - suc fuel))) seen)
        (ok (numbered p width (9999 - suc fuel))) (search u seen p width fuel) h) [
          | inl (taken, rest) ↦
              let n = search-eq-ok p width fuel (omega arith) rest in
              record {
                number = n.number;
                from = omega (arith, n.from);
                to = n.to;
                name = n.name;
                free = n.free;
                least = later taken n;
              }
          | inr (free, k) ↦
              let e : numbered p width (9999 - suc fuel) ≡ base = cc in
              record {
                number = 9999 - suc fuel;
                from = omega arith;
                to = omega arith;
                name = sym e;
                free = subst Free e free;
                least = λ m low high. absurd (omega arith);
              }
        ]
    where
      later :
          Taken (numbered p width (9999 - suc fuel))
          → (n : Numbered p width (9999 - fuel) base) → (m : ℕ) → 9999 - suc fuel ≤ m
          → m < n.number
          → Taken (numbered p width m)
      later taken n m low high = elim (≤-cases (9999 - suc fuel) m low) [
        | inl same ↦ subst (λ x. Taken (numbered p width x)) same taken
        | inr after ↦ n.least m (omega (arith, after)) high
      ]

  -- the first answer of `unique`: the cleaned name itself, or the first free numbered one
  pub record Picked (candidate : Text) (p : Parts) (base : Text) : Type 0 where
    pub free : Free base
    pub first :
        (base ≡ candidate)
        ⊎ (Taken candidate × (width : ℕ) × (utf16_len p.ext ≡ ok width) × Numbered p width 2 base)

  pick-eq-ok :
      (candidate : Text) (p : Parts) {base : Text}
      → pick u seen candidate p ≡ ok base
      → Picked candidate p base
  unfolding pick
  pick-eq-ok candidate p {base = base} h =
      elim (if-cases (is_seen (key u candidate) seen) (ok candidate)
        (utf16_len p.ext >>= λ width. search u seen p width 9997) h) [
          | inl (taken, rest) ↦
              let (width, measured, found) =
                >>=-eq-ok (utf16_len p.ext) (λ width. search u seen p width 9997) rest in
              let n = search-eq-ok p width 9997 (omega arith) found in
              record { free = n.free; first = inr (taken, width, measured, n) }
          | inr (free, k) ↦
              let e : candidate ≡ base = cc in
              record { free = subst Free e free; first = inl (sym e) }
        ]

-- A name that `unique` hands out has a key that was not claimed, and claims it. It is the cleaned name, or,
-- when that is claimed, the cleaned name with a number from 2 to 9999, and every lower number is claimed.
pub unique-eq-ok :
    (u : Unicode) (seen : Seen) (name : Text) {base : Text} {seen' : Seen}
    → unique u seen name ≡ ok (base, seen')
    → (candidate : Text) × (sanitise u name ≡ ok candidate)
      × (is_seen (key u base) seen ≡ false)
      × (is_seen (key u base) seen' ≡ true)
      × (seen' ≡ (key u base, candidate) ∷ seen)
      × Picked u seen candidate (parts_of candidate (rpartition b'.' candidate)) base
unfolding unique
unique-eq-ok u seen name {base = base} {seen' = seen'} h =
    let parts = λ (candidate : Text). parts_of candidate (rpartition b'.' candidate) in
    let (candidate, cleaned, h') =
      >>=-eq-ok (sanitise u name)
        (λ candidate. pick u seen candidate (parts candidate) >>= λ base.
          ok (base, (key u base, candidate) ∷ seen))
        h in
    let (b, picked, h'') =
      >>=-eq-ok (pick u seen candidate (parts candidate))
        (λ base. ok (base, (key u base, candidate) ∷ seen)) h' in
    let same : b ≡ base = ap (λ r. elim r [ ok x ↦ x.0 | err _ ↦ [] ]) h'' in
    let p =
      subst (Picked u seen candidate (parts candidate)) same
        (pick-eq-ok u seen candidate (parts candidate) picked) in
    let claimed : (key u base, candidate) ∷ seen ≡ seen' =
      ap (λ (b : Text). (key u b, candidate) ∷ seen) (sym same)
      ∙ ap (λ r. elim r [ ok x ↦ x.1 | err _ ↦ [] ]) h'' in
    (
      candidate,
      cleaned,
      p.free,
      subst (λ s. is_seen (key u base) s ≡ true) claimed
          (ground (arith, eq_text_iff (key u base) (key u base))),
      sym claimed,
      p,
    )

-- no two of the names have the same key
abbrev pub Distinct : Unicode → List Text → Type 0
Distinct u [] = Unit
Distinct u (b ∷ bs) = All (λ c. key u c ≢ key u b) bs × Distinct u bs

free-cons :
    (u : Unicode) (k stored c : Text) (seen : Seen)
    → is_seen (key u c) ((k, stored) ∷ seen) ≡ false
    → (key u c ≢ k) × (is_seen (key u c) seen ≡ false)
free-cons u k stored c seen h = (λ e. ground (arith, eq_text_iff k (key u c), e), ground arith)

All-free-cons :
    (u : Unicode) (k stored : Text) (seen : Seen) (bases : List Text)
    → All (λ c. is_seen (key u c) ((k, stored) ∷ seen) ≡ false) bases
    → All (λ c. key u c ≢ k) bases × All (λ c. is_seen (key u c) seen ≡ false) bases
All-free-cons u k stored seen [] h = (tt, tt)
All-free-cons u k stored seen (c ∷ bases) h =
    let here = free-cons u k stored c seen h.0 in
    let rest = All-free-cons u k stored seen bases h.1 in ((here.0, rest.0), (here.1, rest.1))

-- The names that one directory hands out to a list of files, one for each, differ from each other and from
-- every name that was claimed before, also where the file system does not tell upper from lower case.
pub unique_names-Distinct :
    (u : Unicode) (seen : Seen) (names : List Text) {bases : List Text} {last : Seen}
    → unique_names u seen names ≡ ok (bases, last)
    → (length bases ≡ length names)
      × Distinct u bases
      × All (λ b. is_seen (key u b) seen ≡ false) bases
unfolding unique_names
unique_names-Distinct u seen [] {bases = bases} h =
    let e : [] ≡ bases = ap (λ r. elim r [ ok x ↦ x.0 | err _ ↦ [] ]) h in
    subst (λ bs. (length bs ≡ 0) × Distinct u bs × All (λ b. is_seen (key u b) seen ≡ false) bs) e
      (refl, tt, tt)
unique_names-Distinct u seen (name ∷ names) {bases = bases} h =
    let (first, found, h') =
      >>=-eq-ok (unique u seen name)
        (λ (base, claimed).
          unique_names u claimed names >>= λ (bases, last). ok (base ∷ bases, last))
        h in
    let (more, rest, h'') =
      >>=-eq-ok (unique_names u first.1 names) (λ (bases, last). ok (first.0 ∷ bases, last)) h' in
    let (candidate, _, free, _, claimed, _) = unique-eq-ok u seen name found in
    let (same, distinct, frees) = unique_names-Distinct u first.1 names rest in
    let split =
      All-free-cons u (key u first.0) candidate seen more.0
        (subst (λ (s : Seen). All (λ b. is_seen (key u b) s ≡ false) more.0) claimed frees) in
    let e : first.0 ∷ more.0 ≡ bases = ap (λ r. elim r [ ok x ↦ x.0 | err _ ↦ [] ]) h'' in
    subst
      (λ (bs : List Text).
        (length bs ≡ suc (length names))
        × Distinct u bs
        × All (λ b. is_seen (key u b) seen ≡ false) bs)
      e (ap suc same, (split.0, distinct), (free, split.1))
