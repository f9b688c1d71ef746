-- ===== src/Names/Unique/Full.antt =====
-- When no name is found, every name that the loop can make is claimed.
use lario_llms.Prelude.{
  ℕ, zero, suc, ◌-◌, ◌≤◌, ◌≡◌, refl, ◌∷◌, ◌⊎◌, inl, inr, Text, rpartition, Fault, Result, ok, err,
  ◌>>=◌, arith, Bool-cases, if-cases, subst,
}
use lario_llms.Names.{Unicode, utf16_len, sanitise, key}
use lario_llms.Names.Unique.{Seen, is_seen, Parts, parts_of, numbered, search, pick, unique}
use lario_llms.Names.Unique.Fresh.{Taken, ≤-cases}

search-eq-err :
    (u : Unicode) (seen : Seen) (p : Parts) (width fuel : ℕ) {fault : Fault}
    → search u seen p width fuel ≡ err fault
    → (m : ℕ) → 9999 - fuel ≤ m
    → m ≤ 9999
    → Taken u seen (numbered p width m)
unfolding search
search-eq-err u seen p width zero h m low high =
    elim (Bool-cases (is_seen (key u (numbered p width 9999)) seen)) [
      | inl taken ↦
          let e : 9999 ≡ m = omega arith in subst (λ x. Taken u seen (numbered p width x)) e taken
      | inr free ↦ let k = rw free at h in cc
    ]
search-eq-err u seen p width (suc fuel) h m low high =
    elim (if-cases (is_seen (key u (numbered p width (9999 - suc fuel))) seen)
      (ok (numbered p width (9999 - suc fuel))) (search u seen p width fuel) h) [
        | inl (taken, rest) ↦ elim (≤-cases (9999 - suc fuel) m low) [
          | inl same ↦ subst (λ x. Taken u seen (numbered p width x)) same taken
          | inr after ↦ search-eq-err u seen p width fuel rest m (omega (arith, after)) high
        ]
        | inr (free, k) ↦ cc
      ]

-- what `unique` found when it failed for a name that was cleaned to this one
pub record Exhausted (u : Unicode) (seen : Seen) (candidate : Text) (p : Parts) : Type 0 where
  pub taken : Taken u seen candidate
  pub unmeasured_or_full :
      ((fault : Fault) × (utf16_len p.ext ≡ err fault))
      ⊎ ((width : ℕ) × (utf16_len p.ext ≡ ok width)
          × ((m : ℕ) → 2 ≤ m → m ≤ 9999 → Taken u seen (numbered p width m)))

pick-eq-err :
    (u : Unicode) (seen : Seen) (candidate : Text) (p : Parts) {fault : Fault}
    → pick u seen candidate p ≡ err fault
    → Exhausted u seen candidate p
unfolding pick
pick-eq-err u seen candidate p h =
    elim (if-cases (is_seen (key u candidate) seen) (ok candidate)
      (utf16_len p.ext >>= λ width. search u seen p width 9997) h) [
        | inl (taken, rest) ↦ record {
          taken = taken;
          unmeasured_or_full = measured (utf16_len p.ext) refl rest;
        }
        | inr (free, k) ↦ cc
      ]
  where
    measured :
        (r : Result ℕ) {fault : Fault}
        → utf16_len p.ext ≡ r
        → (r >>= λ width. search u seen p width 9997) ≡ err fault
        → ((fault : Fault) × (utf16_len p.ext ≡ err fault))
          ⊎ ((width : ℕ) × (utf16_len p.ext ≡ ok width)
              × ((m : ℕ) → 2 ≤ m → m ≤ 9999 → Taken u seen (numbered p width m)))
    measured (err fault) e k = inl (fault, e)
    measured (ok width) e k =
        inr
          (width, e, λ m low high. search-eq-err u seen p width 9997 k m (omega (arith, low)) high)

unique_of :
    (u : Unicode) (seen : Seen) (name : Text) (r : Result Text) {fault : Fault}
    → sanitise u name ≡ r
    → ◌>>=◌ {W = Text × Seen} r (λ candidate.
      pick u seen candidate (parts_of candidate (rpartition b'.' candidate)) >>= λ base.
      ok (base, (key u base, candidate) ∷ seen))
      ≡ err fault
    → ((fault : Fault) × (sanitise u name ≡ err fault))
      ⊎ ((candidate : Text) × (sanitise u name ≡ ok candidate)
          × Exhausted u seen candidate (parts_of candidate (rpartition b'.' candidate)))
unique_of u seen name (err fault) e h = inl (fault, e)
unique_of u seen name (ok candidate) e h = inr (
  candidate,
  e,
  picked (pick u seen candidate (parts_of candidate (rpartition b'.' candidate))) refl h,
)
  where
    picked :
        (r : Result Text) {fault : Fault}
        → pick u seen candidate (parts_of candidate (rpartition b'.' candidate)) ≡ r
        → ◌>>=◌ {W = Text × Seen} r (λ base. ok (base, (key u base, candidate) ∷ seen)) ≡ err fault
        → Exhausted u seen candidate (parts_of candidate (rpartition b'.' candidate))
    picked (err f) k _ =
        pick-eq-err u seen candidate (parts_of candidate (rpartition b'.' candidate)) k
    picked (ok base) k g = cc

-- `unique` fails only if the name cannot be cleaned, or if the cleaned name is claimed and either its extension
-- has no UTF-16 length or it is claimed with every number from 2 to 9999 as well.
pub unique-eq-err :
    (u : Unicode) (seen : Seen) (name : Text) {fault : Fault}
    → unique u seen name ≡ err fault
    → ((fault : Fault) × (sanitise u name ≡ err fault))
      ⊎ ((candidate : Text) × (sanitise u name ≡ ok candidate)
          × Exhausted u seen candidate (parts_of candidate (rpartition b'.' candidate)))
unfolding unique
unique-eq-err u seen name h = unique_of u seen name (sanitise u name) refl h
