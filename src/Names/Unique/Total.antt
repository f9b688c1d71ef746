-- ===== src/Names/Unique/Total.antt =====
-- A directory with room has a free name.
use lario_llms.Prelude.{
  ℕ, zero, suc, ◌+◌, ◌≤◌, ◌<◌, ◌≡◌, ◌≢◌, refl, sym, ap, ◌∙◌, subst, inl, inr, true, not, [], ◌∷◌,
  select, length, Text, eq_text, eq_text_iff, rpartition, Result, ok, err, arith, Bool-cases,
}
use lario_llms.Names.{Unicode, utf16_len, sanitise, key}
use lario_llms.Names.Unique.{Seen, is_seen, Parts, parts_of, numbered, unique}
use lario_llms.Names.Unique.Fresh.{Taken}
use lario_llms.Names.Unique.Full.{Exhausted, unique-eq-err}

-- the entries of other keys
without : Text → Seen → Seen
without k seen = select (λ e. not (eq_text e.0 k)) seen

length-without : (k : Text) (seen : Seen) → length (without k seen) ≤ length seen
unfolding without
length-without k [] = omega arith
length-without k (e ∷ seen) = ground (arith, length-without k seen)

length-without_seen :
    (k : Text) (seen : Seen) → is_seen k seen ≡ true → length (without k seen) + 1 ≤ length seen
unfolding without
length-without_seen k [] h = cc
length-without_seen k (e ∷ seen) h = elim (Bool-cases (eq_text e.0 k)) [
  | inl same ↦ rw same (omega (arith, length-without k seen))
  | inr other ↦ rw other (
      omega (
        arith,
        length-without_seen k seen (let g : is_seen k seen ≡ true = ground (arith, h, other) in g),
      ))
]

is_seen-without :
    (k j : Text) (seen : Seen) → j ≢ k → is_seen j seen ≡ true → is_seen j (without k seen) ≡ true
unfolding without
is_seen-without k j [] apart h = cc
is_seen-without k j (e ∷ seen) apart h = elim (Bool-cases (eq_text e.0 k)) [
  | inl same ↦ rw same (
      is_seen-without k j seen apart (elim (Bool-cases (eq_text e.0 j)) [
        | inl e' ↦ absurd (apart (sym ((eq_text_iff e.0 j).0 e') ∙ (eq_text_iff e.0 k).0 same))
        | inr e' ↦ ground (arith, h, e')
      ]))
  | inr other ↦ rw other (elim (Bool-cases (eq_text e.0 j)) [
    | inl e' ↦ rw e' refl
    | inr e' ↦ rw e' (is_seen-without k j seen apart (ground (arith, h, e')))
  ])
]

-- As many different keys as are claimed need as many entries.
pigeonhole :
    (f : ℕ → Text) (n low : ℕ) (seen : Seen)
    → ((i j : ℕ) → low ≤ i → i < j → j < low + n → f j ≢ f i)
    → ((i : ℕ) → low ≤ i → i < low + n → is_seen (f i) seen ≡ true)
    → n ≤ length seen
pigeonhole f zero low seen apart taken = omega arith
pigeonhole f (suc n) low seen apart taken =
    let rest =
      pigeonhole f n (low + 1) (without (f low) seen)
        (λ i j a b c. apart i j (omega (arith, a)) b (omega (arith, c)))
        (λ i a b.
          is_seen-without (f low) (f i) seen
            (apart low i (omega arith) (omega (arith, a)) (omega (arith, b)))
            (taken i (omega (arith, a)) (omega (arith, b)))) in
    omega (arith, rest, length-without_seen (f low) seen (taken low (omega arith) (omega arith)))

-- `unique` ends with a name whenever fewer than 9,998 names are claimed in the directory, the name can be cleaned, the
-- extension of the cleaned name has a UTF-16 length, and no two of its numbered forms have the same key.
pub unique_ends :
    (u : Unicode) (seen : Seen) (name candidate : Text) (width : ℕ)
    → sanitise u name ≡ ok candidate
    → utf16_len (parts_of candidate (rpartition b'.' candidate)).ext ≡ ok width
    → ((i j : ℕ)
        → 2 ≤ i
        → i < j
        → j < 10000
        → key u (numbered (parts_of candidate (rpartition b'.' candidate)) width j)
          ≢ key u (numbered (parts_of candidate (rpartition b'.' candidate)) width i))
    → length seen < 9998
    → (r : Text × Seen) × (unique u seen name ≡ ok r)
unique_ends u seen name candidate width clean measured apart room =
    of_result (unique u seen name) refl
  where
    p : Parts
    p = parts_of candidate (rpartition b'.' candidate)

    full : ((m : ℕ) → 2 ≤ m → m ≤ 9999 → Taken u seen (numbered p width m)) → ⊥
    full taken = omega (
      arith,
      room,
      pigeonhole (λ i. key u (numbered p width i)) 9998 2 seen
          (λ i j a b c. apart i j a b (omega (arith, c))) (λ i a b. taken i a (omega (arith, b))),
    )

    exhausted : Exhausted u seen candidate p → ⊥
    exhausted x = elim x.unmeasured_or_full [
      | inl (fault, broken) ↦ let k = sym measured ∙ broken in cc
      | inr (w, measures, taken) ↦
          let same : width ≡ w =
            ap (λ r. elim r [ ok n ↦ n | err _ ↦ 0 ]) (sym measured ∙ measures) in
          full (λ m a b. subst (λ n. Taken u seen (numbered p n m)) (sym same) (taken m a b))
    ]

    of_result :
        (r : Result (Text × Seen))
        → unique u seen name ≡ r
        → (r : Text × Seen) × (unique u seen name ≡ ok r)
    of_result (ok r) e = (r, e)
    of_result (err fault) e = elim (unique-eq-err u seen name e) [
      | inl (f, broken) ↦ let k = sym clean ∙ broken in cc
      | inr (other, cleaned, x) ↦
          let same : candidate ≡ other =
            ap (λ r. elim r [ ok n ↦ n | err _ ↦ [] ]) (sym clean ∙ cleaned) in
          absurd (
            exhausted (
              subst (λ (c : Text). Exhausted u seen c (parts_of c (rpartition b'.' c))) (sym same)
                x))
    ]
