-- ===== src/Names/Unique.antt =====
-- `unique` of media/core/names.py: a name that is not yet claimed in a directory. What is claimed is a list of
-- the keys with the names they were stored with, the newest first.
pub mod Fresh
pub mod Full
pub mod Total
pub mod Numbers
use lario_llms.Prelude.{
  ℕ, zero, suc, ◌+◌, ◌-◌, Bool, true, false, ◌||◌, Option, none, some, List, [], ◌∷◌, ◌++◌, max,
  any, length, if◌then◌else◌, Text, codes, eq_text, take, rpartition, digits, Result, ok, err,
  raised, ◌>>=◌,
}
use lario_llms.Names.{Unicode, exfat_max_component, utf16_len, sanitise, key}

abbrev pub Seen : Type 0
Seen = List (Text × Text)

-- `k in seen`
abbrev pub is_seen : Text → Seen → Bool
is_seen k seen = any (λ (j, _). eq_text j k) seen

-- the parts of a name around its last dot; `dotted` is false for a name without extension and a dotfile
pub record Parts : Type 0 where
  pub stem : Text
  pub dotted : Bool
  pub ext : Text

abbrev pub parts_of : Text → Option (Text × Text) → Parts
parts_of name none = record { stem = name; dotted = false; ext = [] }
parts_of name (some ([], ext)) = record { stem = name; dotted = false; ext = [] }
parts_of name (some (c ∷ stem, ext)) = record { stem = c ∷ stem; dotted = true; ext = ext }

abbrev pub tail_of : Parts → Text
tail_of p = if p.dotted then b'.' ∷ p.ext else []

-- ` (n)`
abbrev pub mid : ℕ → Text
mid n = b' ' ∷ b'(' ∷ digits 5 n ++ b')' ∷ []

-- the name with the number `n`; `width` is the length of the extension
abbrev pub numbered : Parts → ℕ → ℕ → Text
numbered p width n =
    let room = exfat_max_component - width - length (mid n) - (if p.dotted then 1 else 0) in
    take (max 1 room) p.stem ++ mid n ++ tail_of p

-- the loop from the number `9999 - fuel` on; it gives up after the number 9999
unfoldable pub search : Unicode → Seen → Parts → ℕ → ℕ → Result Text
unfolding key eq_text digits
search u seen p width zero =
    let base = numbered p width 9999 in
    if is_seen (key u base) seen then err (raised "RuntimeError") else ok base
search u seen p width (suc fuel) =
    let base = numbered p width (9999 - suc fuel) in
    elim (is_seen (key u base) seen) [ false ↦ ok base | true ↦ search u seen p width fuel ]

abbrev pub pick : Unicode → Seen → Text → Parts → Result Text
unfolding search
pick u seen candidate p = elim (is_seen (key u candidate) seen) [
  | false ↦ ok candidate
  | true ↦ utf16_len p.ext >>= λ width. search u seen p width 9997
]

-- the name, and what is claimed afterwards
unfoldable pub unique : Unicode → Seen → Text → Result (Text × Seen)
unfolding search rpartition
unique u seen name = sanitise u name >>= λ candidate.
    pick u seen candidate (parts_of candidate (rpartition b'.' candidate)) >>= λ base.
    ok (base, (key u base, candidate) ∷ seen)

-- one call for each name, as the planner makes them for the files of a directory (media/run.py)
unfoldable pub unique_names : Unicode → Seen → List Text → Result (List Text × Seen)
unfolding unique
unique_names u seen [] = ok ([], seen)
unique_names u seen (name ∷ names) = unique u seen name >>= λ (base, claimed).
    unique_names u claimed names >>= λ (bases, last). ok (base ∷ bases, last)
