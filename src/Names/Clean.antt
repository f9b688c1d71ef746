-- ===== src/Names/Clean.antt =====
-- What `sanitise` of media/core/names.py leaves in a name.
use lario_llms.Prelude.{
  ℕ, zero, suc, ◌-◌, ◌≡◌, refl, inl, inr, Bool, true, false, Option, none, some, [], ◌∷◌, ◌++◌, max,
  if◌then◌else◌, leb, ◌==◌, any, All, Text, codes, holds, take, replace, rpartition, before, rstrip,
  ok, err, >>=-eq-ok, arith, Bool-cases, subst, ap,
}
use lario_llms.Names.{
  Unicode, illegal, is_control, is_dot_or_space, is_surrogate, units, utf16_len, encode_error,
  exfat_max_component, replacement, replace_controls, replace_each, take_units, cut_parts, cut_bare,
  cut_stem, is_one_of, is_reserved, avoid_reserved, never_empty, cleaned, sanitise, basename,
}

module _ {ℓ} (Q : ℕ → Type ℓ) where
  All-append : (xs ys : Text) → All Q xs → All Q ys → All Q (xs ++ ys)
  All-append [] ys h k = k
  All-append (x ∷ xs) ys h k = (h.0, All-append xs ys h.1 k)

  All-if : (b : Bool) (xs ys : Text) → All Q xs → All Q ys → All Q (if b then xs else ys)
  All-if true xs ys h k = h
  All-if false xs ys h k = k

  All-replace : (c : ℕ) (by text : Text) → All Q by → All Q text → All Q (replace c by text)
  All-replace c by [] h k = tt
  All-replace c by (x ∷ text) h k =
      All-append (if x == c then by else x ∷ []) (replace c by text)
        (All-if (x == c) by (x ∷ []) h (k.0, tt)) (All-replace c by text h k.1)

  All-replace_each : (cs by text : Text) → All Q by → All Q text → All Q (replace_each cs by text)
  All-replace_each [] by text h k = k
  All-replace_each (c ∷ cs) by text h k =
      All-replace_each cs by (replace c by text) h (All-replace c by text h k)

  All-rstrip : (p : ℕ → Bool) (text : Text) → All Q text → All Q (rstrip p text)
  unfolding rstrip
  All-rstrip p [] h = tt
  All-rstrip p (x ∷ text) h = step (rstrip p text) (All-rstrip p text h.1)
    where
      step :
          (rest : Text)
          → All Q rest
          → All Q (elim rest [ [] ↦ if p x then [] else x ∷ [] | y ∷ ys ↦ x ∷ y ∷ ys ])
      step [] k = All-if (p x) [] (x ∷ []) tt (h.0, tt)
      step (y ∷ rest) k = (h.0, k)

  All-take : (n : ℕ) (text : Text) → All Q text → All Q (take n text)
  All-take zero text h = tt
  All-take (suc n) [] h = tt
  All-take (suc n) (x ∷ text) h = (h.0, All-take n text h.1)

  All-take_units : (n : ℕ) (text : Text) → All Q text → All Q (take_units n text)
  unfolding take_units
  All-take_units n [] h = tt
  All-take_units n (x ∷ text) h =
      All-if (leb (units x) n) (x ∷ take_units (n - units x) text) []
        (h.0, All-take_units (n - units x) text h.1) tt

  Parted : Option (Text × Text) → Type ℓ
  Parted none = Unit
  Parted (some (stem, ext)) = All Q stem × All Q ext

  rpartition-Parted : (c : ℕ) (text : Text) → All Q text → Parted (rpartition c text)
  unfolding rpartition Parted
  rpartition-Parted c [] h = tt
  rpartition-Parted c (x ∷ text) h = step (rpartition c text) (rpartition-Parted c text h.1)
    where
      found : (b : Bool) → Parted (if b then some ([], text) else none)
      found true = (tt, h.1)
      found false = tt

      step :
          (o : Option (Text × Text))
          → Parted o
          → Parted (elim o [
            | some (before, after) ↦ some (x ∷ before, after)
            | none ↦ if x == c then some ([], text) else none
          ])
      step none k = found (x == c)
      step (some (stem, ext)) k = ((h.0, k.0), k.1)

  bare : (name : Text) {cut : Text} → All Q name → cut_bare name ≡ ok cut → All Q cut
  unfolding rstrip
  bare name {cut = cut} h e =
      let same : rstrip is_dot_or_space (take exfat_max_component name) ≡ cut =
        ap (λ r. elim r [ ok x ↦ x | err _ ↦ [] ]) e in
      subst (All Q) same (
        All-rstrip is_dot_or_space (take exfat_max_component name)
          (All-take exfat_max_component name h))

  stemmed :
      (b : Bool) (text : Text) {cut : Text}
      → (if b then err encode_error else ok text) ≡ ok cut
      → All Q text
      → All Q cut
  stemmed true text e h = cc
  stemmed false text {cut = cut} e h =
      let same : text ≡ cut = ap (λ r. elim r [ ok x ↦ x | err _ ↦ [] ]) e in subst (All Q) same h

  cut_parts-All :
      (name : Text) (o : Option (Text × Text)) {cut : Text}
      → Q b'.'
      → All Q name
      → Parted o
      → cut_parts name o ≡ ok cut
      → All Q cut
  unfolding Parted utf16_len cut_stem
  cut_parts-All name none dot h k e = bare name h e
  cut_parts-All name (some ([], ext)) dot h k e = bare name h e
  cut_parts-All name (some (c ∷ stem, ext)) dot h k e =
      let (n, measured, e') =
        >>=-eq-ok (utf16_len ext)
          (λ n.
            if any is_surrogate (c ∷ stem)
            then err encode_error
            else ok (
                rstrip is_dot_or_space (take_units (max 1 (exfat_max_component - n - 1)) (c ∷ stem))
                ++ b'.' ∷ ext))
          e in
      let room = max 1 (exfat_max_component - n - 1) in
      stemmed (any is_surrogate (c ∷ stem))
        (rstrip is_dot_or_space (take_units room (c ∷ stem)) ++ b'.' ∷ ext) e'
        (All-append (rstrip is_dot_or_space (take_units room (c ∷ stem))) (b'.' ∷ ext)
          (All-rstrip is_dot_or_space (take_units room (c ∷ stem))
            (All-take_units room (c ∷ stem) k.0))
          (dot, k.1))

All-both :
    {Q R S : ℕ → Type 0} (f : (x : ℕ) → Q x → R x → S x) (text : Text)
    → All Q text
    → All R text
    → All S text
All-both f [] h k = tt
All-both f (x ∷ text) h k = (f x h.0 k.0, All-both f text h.1 k.1)

replace-gone :
    (c : ℕ) (by text : Text)
    → All (λ x. (c == x) ≡ false) by
    → All (λ x. (c == x) ≡ false) (replace c by text)
replace-gone c by [] h = tt
replace-gone c by (x ∷ text) h = elim (Bool-cases (x == c)) [
  | inl e ↦
      rw e (All-append (λ x. (c == x) ≡ false) by (replace c by text) h (replace-gone c by text h))
  | inr e ↦ rw e (swap e, replace-gone c by text h)
]
  where
    swap : (x == c) ≡ false → (c == x) ≡ false
    swap e = ground arith

replace_controls-gone : (text : Text) → All (λ x. is_control x ≡ false) (replace_controls text)
replace_controls-gone [] = tt
replace_controls-gone (x ∷ text) = elim (Bool-cases (is_control x)) [
  | inl e ↦ rw e (refl, replace_controls-gone text)
  | inr e ↦ rw e (e, replace_controls-gone text)
]

All-weaken : {Q R : ℕ → Type 0} (f : (x : ℕ) → Q x → R x) (text : Text) → All Q text → All R text
All-weaken f [] h = tt
All-weaken f (x ∷ text) h = (f x h.0, All-weaken f text h.1)

replace_each-gone :
    (cs by text : Text)
    → All (λ x. holds x cs ≡ false) by
    → All (λ x. holds x cs ≡ false) (replace_each cs by text)
replace_each-gone [] by text h = All-nothing (replace_each [] by text)
  where
    All-nothing : (t : Text) → All (λ x. holds x [] ≡ false) t
    All-nothing [] = tt
    All-nothing (x ∷ t) = (refl, All-nothing t)
replace_each-gone (c ∷ cs) by text h =
    All-both (λ x here rest. ground (arith, here, rest)) (replace_each cs by (replace c by text))
      (All-replace_each (λ x. (c == x) ≡ false) cs by (replace c by text) apart
        (replace-gone c by text apart))
      (replace_each-gone cs by (replace c by text) (All-weaken (λ x k. ground (arith, k)) by h))
  where
    apart : All (λ x. (c == x) ≡ false) by
    apart = All-weaken (λ x k. ground (arith, k)) by h

-- neither a control character nor one of the list ILLEGAL
abbrev pub Plain : ℕ → Type 0
Plain x = (is_control x ≡ false) × (holds x illegal ≡ false)

cleaned-Plain : (u : Unicode) (name : Text) → All Plain (cleaned u name)
cleaned-Plain u name =
    let text = u.normalize (basename (replace 0 [] name)) in
    All-both {Q = λ x. is_control x ≡ false} {R = λ x. holds x illegal ≡ false} {S = Plain}
      (λ x k l. (k, l)) (cleaned u name)
      (All-replace_each (λ x. is_control x ≡ false) illegal replacement (replace_controls text)
        (refl, tt) (replace_controls-gone text))
      (replace_each-gone illegal replacement (replace_controls text) (refl, tt))

-- A name that `sanitise` returns has no control character and none of the seven characters of the list ILLEGAL,
-- whatever the normalisation of Unicode puts into it. A slash or a backslash, which are not in the list, may
-- be there.
pub sanitise-Plain :
    (u : Unicode) (name : Text) {clean : Text} → sanitise u name ≡ ok clean → All Plain clean
unfolding sanitise
sanitise-Plain u name {clean = clean} done =
    let plain_one = let k : (false ≡ false) × (false ≡ false) = (refl, refl) in k in
    let text = cleaned u name in
    let (cut, found, e) =
      >>=-eq-ok (cut_parts text (rpartition b'.' text))
        (λ cut. ok (never_empty (avoid_reserved u cut))) done in
    let plain = cleaned-Plain u name in
    let same : never_empty (avoid_reserved u cut) ≡ clean =
      ap (λ r. elim r [ ok x ↦ x | err _ ↦ [] ]) e in
    let kept =
      cut_parts-All Plain text (rpartition b'.' text) (refl, refl) plain
        (rpartition-Parted Plain b'.' text plain) found in
    let safe = All-if Plain (is_reserved u cut) (b'_' ∷ cut) cut ((refl, refl), kept) kept in
    subst (All Plain) same (
      All-if Plain (is_one_of ("" ∷ "." ∷ ".." ∷ []) (avoid_reserved u cut))
        (replacement ++ codes "unnamed") (avoid_reserved u cut)
        (
          plain_one,
          (
            plain_one,
            (plain_one, (plain_one, (plain_one, (plain_one, (plain_one, (plain_one, tt)))))),
          ),
        )
        safe)
