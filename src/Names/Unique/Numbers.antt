-- ===== src/Names/Unique/Numbers.antt =====
-- The number in a numbered name can be read back: the digits of `str`, and the text before a bracket.
use lario_llms.Prelude.{
  ℕ, zero, suc, ◌+◌, ◌-◌, ◌*◌, ◌/◌, ◌%◌, ◌<◌, ◌≡◌, refl, ap, ◌∙◌, Bool, true, false, [], ◌∷◌, ◌++◌,
  ltb, ltb→lt, ◌==◌, ==_iff, Text, before, digits, All, arith,
}

-- the value of a decimal text
pub value : ℕ → Text → ℕ
value n [] = n
value n (x ∷ text) = value (10 * n + (x - 48)) text

value-append :
    (n : ℕ) (text : Text) (x : ℕ) → value n (text ++ x ∷ []) ≡ 10 * value n text + (x - 48)
unfolding value
value-append n [] x = refl
value-append n (y ∷ text) x = value-append (10 * n + (y - 48)) text x

-- `10 ** n`
abbrev pub ten_to : ℕ → ℕ
ten_to zero = 1
ten_to (suc n) = 10 * ten_to n

-- a number of at most as many digits as there is fuel is read back
pub value-digits : (fuel n : ℕ) → n < ten_to fuel → value 0 (digits fuel n) ≡ n
unfolding value digits
value-digits zero n h = omega arith
value-digits (suc fuel) n h = split (ltb n 10) refl (λ less. value-digits fuel (n / 10) less)
  where
    split :
        (b : Bool)
        → ltb n 10 ≡ b
        → (n / 10 < ten_to fuel → value 0 (digits fuel (n / 10)) ≡ n / 10)
        → value 0
            (elim b [ true ↦ (48 + n) ∷ [] | false ↦ digits fuel (n / 10) ++ (48 + n % 10) ∷ [] ])
          ≡ n
    split true e more = omega arith
    split false e more =
        value-append 0 (digits fuel (n / 10)) (48 + n % 10) ∙ omega (arith, more (omega (arith, h)))

-- no digit is a bracket
pub digits-All : (fuel n : ℕ) → All (λ x. (x == b')') ≡ false) (digits fuel n)
unfolding digits
digits-All zero n = tt
digits-All (suc fuel) n = split (ltb n 10) refl (digits-All fuel (n / 10))
  where
    digit : (r : ℕ) → r < 10 → ((48 + r) == b')') ≡ false
    digit r h = ground (arith, h)

    last :
        (text : Text)
        → All (λ x. (x == b')') ≡ false) text
        → All (λ x. (x == b')') ≡ false) (text ++ (48 + n % 10) ∷ [])
    last [] h = (digit (n % 10) (omega arith), tt)
    last (x ∷ text) h = (h.0, last text h.1)

    split :
        (b : Bool)
        → ltb n 10 ≡ b
        → All (λ x. (x == b')') ≡ false) (digits fuel (n / 10))
        → All
            (λ x. (x == b')') ≡ false)
            (elim b [ true ↦ (48 + n) ∷ [] | false ↦ digits fuel (n / 10) ++ (48 + n % 10) ∷ [] ])
    split true e more = (digit n (ltb→lt n 10 e), tt)
    split false e more = last (digits fuel (n / 10)) more

pub before-append :
    (c : ℕ) (text rest : Text)
    → All (λ x. (x == c) ≡ false) text
    → before c (text ++ c ∷ rest) ≡ text
before-append c [] rest h = ground (arith, ==_iff c c)
before-append c (x ∷ text) rest h = rw h.0 (ap (λ t. x ∷ t) (before-append c text rest h.1))
