-- ===== src/Registry/Removal.antt =====
-- The argument edits of a preset (shared/modelctl.py, effective_models): replacing the value of a flag
-- and removing flags.
use lario_llms.Prelude.{
  ℕ, zero, suc, ◌+◌, ◌≤◌, String, ◌≡◌, refl, sym, ap, ◌∙◌, inl, inr, true, false, not, ◌||◌, Option,
  none, some, List, [], ◌∷◌, ◌++◌, arith, str_eq, eq_iff, if◌then◌else◌, length, select, member,
  Bool-cases, Option-cases,
}
use lario_llms.Registry.{set_after, remove_first, remove_while, remove_flags}

-- `args[args.index(flag)+1]`; `none` where the flag is missing or last
unfoldable pub value_after : String → List String → Option String
value_after flag [] = none
value_after flag (x ∷ []) = none
value_after flag (x ∷ y ∷ r) =
    let rest = value_after flag (y ∷ r) in if str_eq x flag then some y else rest

value_after-cons :
    (flag x value : String) (r : List String)
    → str_eq x flag ≡ false
    → value_after flag r ≡ some value
    → value_after flag (x ∷ r) ≡ some value
unfolding value_after
value_after-cons flag x value [] e h = cc
value_after-cons flag x value (y ∷ r) e h = ground arith

-- A replacement that succeeds is read back as the flag's value, and moves no other argument.
pub set_after-value_after :
    (flag value : String) (xs : List String) {ys : List String}
    → set_after flag value xs ≡ some ys
    → (value_after flag ys ≡ some value) × (length ys ≡ length xs)
unfolding set_after value_after
set_after-value_after flag value [] h = ground arith
set_after-value_after flag value (x ∷ []) h = ground arith
set_after-value_after flag value (x ∷ y ∷ r) h =
    elim (Option-cases (set_after flag value (y ∷ r))) [
      | inl nothing ↦ ground arith
      | inr (r', found) ↦
          let ih : (value_after flag r' ≡ some value) × (length r' ≡ length (y ∷ r)) =
            set_after-value_after flag value (y ∷ r) found in
          ground (arith, ih, value_after-cons flag x value r')
    ]

remove_first-length :
    (flag : String) (xs : List String)
    → member flag xs ≡ true
    → length (remove_first flag xs) + 1 ≡ length xs
unfolding remove_first
remove_first-length flag [] h = ground arith
remove_first-length flag (x ∷ r) h = ground (arith, remove_first-length flag r)

abbrev without : String → List String → List String
without flag xs = select (λ x. not (str_eq flag x)) xs

without-remove_first :
    (flag : String) (xs : List String) → without flag (remove_first flag xs) ≡ without flag xs
unfolding remove_first
without-remove_first flag [] = refl
without-remove_first flag (x ∷ r) = ground (arith, without-remove_first flag r)

without_self : (flag : String) (xs : List String) → member flag xs ≡ false → without flag xs ≡ xs
without_self flag [] h = refl
without_self flag (x ∷ r) h = ground (arith, without_self flag r)

-- The loop stops with the flag gone, and every other argument in its order.
pub remove_while-without :
    (fuel : ℕ) (flag : String) (xs : List String)
    → length xs ≤ fuel
    → remove_while fuel flag xs ≡ without flag xs
unfolding remove_while
remove_while-without zero flag [] h = refl
remove_while-without zero flag (x ∷ r) h = absurd (omega arith)
remove_while-without (suc fuel) flag xs h = elim (Bool-cases (member flag xs)) [
  | inl there ↦ rw there (
      remove_while-without fuel flag (remove_first flag xs)
        (omega (arith, remove_first-length flag xs there))
      ∙ without-remove_first flag xs)
  | inr gone ↦ rw gone (sym (without_self flag xs gone))
]

member-without :
    (flag other : String) (xs : List String)
    → member flag (without other xs) ≡ (if str_eq other flag then false else member flag xs)
member-without flag other [] = ground arith
member-without flag other (x ∷ r) =
    ground (arith, member-without flag other r, eq_iff other flag, eq_iff other x, eq_iff flag x)

-- After the removals exactly the arguments that no removal names are left.
pub member-remove_flags :
    (flag : String) (flags xs : List String)
    → member flag (remove_flags flags xs) ≡ (if member flag flags then false else member flag xs)
unfolding remove_flags
member-remove_flags flag [] xs = refl
member-remove_flags flag (f ∷ fs) xs = ground (
  arith,
  member-remove_flags flag fs (remove_while (length xs) f xs),
  ap (member flag) (remove_while-without (length xs) f xs (omega arith)),
  member-without flag f xs,
  eq_iff f flag,
  eq_iff flag f,
)

pub member-append :
    (flag : String) (xs ys : List String)
    → member flag (xs ++ ys) ≡ (member flag xs || member flag ys)
member-append flag [] ys = refl
member-append flag (x ∷ xs) ys = ground (arith, member-append flag xs ys)
