-- ===== src/Names/Paths.antt =====
-- `within` and `relpath_under` of media/core/names.py: whether a path lies under a root, once both are resolved.
use lario_llms.Prelude.{
  append_last, ℕ, ◌+◌, ◌≡◌, ◌↔◌, ◌⊎◌, refl, sym, ap, ◌∙◌, inl, inr, Bool, true, false, ◌||◌, Option,
  none, some, [], ◌∷◌, ◌++◌, if◌then◌else◌, length, drop, Text, eq_text, eq_text_iff, starts_with,
  starts_with-append, ends_with, codes, arith, Bool-cases, ==_iff,
}

module _ (realpath : Text → Text) where
  unfoldable pub within : Text → Text → Bool
  unfolding eq_text starts_with
  within root path =
      let root = realpath root in
      let target = realpath path in eq_text target root || starts_with target (root ++ b'/' ∷ [])

  -- For resolved paths of which one begins with the other and a slash, `os.path.relpath` is what follows.
  unfoldable pub relpath_under : Text → Text → Option Text
  unfolding eq_text starts_with
  relpath_under root path =
      let root = realpath root in
      let target = realpath path in
      if eq_text target root
      then some []
      else if starts_with target (root ++ b'/' ∷ [])
      then some (drop (length root + 1) target)
      else none

pub drop-start :
    (start text : Text) → starts_with text start ≡ true → text ≡ start ++ drop (length start) text
unfolding starts_with
drop-start [] text h = refl
drop-start (x ∷ start) [] h = cc
drop-start (x ∷ start) (y ∷ text) h = ground (arith, ==_iff y x, drop-start start text)

length-slash : (root : Text) → length (root ++ b'/' ∷ []) ≡ length root + 1
length-slash [] = refl
length-slash (x ∷ root) = omega (arith, length-slash root)

drop-length : (start rest : Text) → drop (length start) (start ++ rest) ≡ rest
drop-length [] rest = refl
drop-length (x ∷ start) rest = drop-length start rest

append-neq : (root : Text) (x : ℕ) (rest : Text) → eq_text (root ++ x ∷ rest) root ≡ false
unfolding eq_text
append-neq [] x rest = refl
append-neq (y ∷ root) x rest = ground (arith, append-neq root x rest)

-- Where the real path of the root does not end in a slash, as that of the root folder of the system does: the
-- path of one place under another is the rest of its real path behind the root and a slash, and it is empty
-- for the root itself; nothing else lies under a root.
pub relpath_under-eq-some :
    (realpath : Text → Text) (root path rel : Text)
    → ends_with (realpath root) (codes "/") ≡ false
    → (relpath_under realpath root path ≡ some rel) ↔ (
        ((realpath path ≡ realpath root) × (rel ≡ []))
        ⊎ (realpath path ≡ realpath root ++ b'/' ∷ rel))
unfolding relpath_under
relpath_under-eq-some realpath root path rel _ = (there, back)
  where
    target : Text
    target = realpath path

    start : Text
    start = realpath root ++ b'/' ∷ []

    value : {x : Text} → some x ≡ some rel → x ≡ rel
    value e = cc

    empty : some [] ≡ some rel → rel ≡ []
    empty e = sym (value e)

    there :
        relpath_under realpath root path ≡ some rel
        → ((realpath path ≡ realpath root) × (rel ≡ []))
          ⊎ (realpath path ≡ realpath root ++ b'/' ∷ rel)
    there h = elim (Bool-cases (eq_text target (realpath root))) [
      | inl same ↦ inl ((eq_text_iff target (realpath root)).0 same, empty (rw same at h))
      | inr apart ↦ elim (Bool-cases (starts_with target start)) [
        | inl under ↦
            let e : drop (length (realpath root) + 1) target ≡ rel =
              value (rw (apart, under) at h) in
            inr (
              drop-start start target under
              ∙ ap (λ n. start ++ drop n target) (length-slash (realpath root))
              ∙ ap (λ r. start ++ r) e
              ∙ append_last (realpath root) b'/' rel)
        | inr outside ↦ let k = rw (apart, outside) at h in cc
      ]
    ]

    back :
        ((realpath path ≡ realpath root) × (rel ≡ []))
          ⊎ (realpath path ≡ realpath root ++ b'/' ∷ rel)
        → relpath_under realpath root path ≡ some rel
    back (inl (same, none_left)) =
        rw (same, none_left) (ground (arith, eq_text_iff (realpath root) (realpath root)))
    back (inr under) =
        rw (under, append-neq (realpath root) b'/' rel)
          (rw (sym (append_last (realpath root) b'/' rel), starts_with-append start rel)
            (ap some (
              ap (λ n. drop n (start ++ rel)) (sym (length-slash (realpath root)))
              ∙ drop-length start rel)))

-- A path is within a root exactly if it has a path under it.
pub within-relpath_under :
    (realpath : Text → Text) (root path : Text)
    → (within realpath root path ≡ true)
      ↔ ((rel : Text) × (relpath_under realpath root path ≡ some rel))
unfolding within relpath_under
within-relpath_under realpath root path =
    split (eq_text (realpath path) (realpath root))
      (starts_with (realpath path) (realpath root ++ b'/' ∷ []))
      (drop (length (realpath root) + 1) (realpath path))
  where
    split :
        (same under : Bool) (rest : Text)
        → ((same || under) ≡ true) ↔ (
            (rel : Text) × ((if same then some [] else if under then some rest else none)
              ≡ some rel))
    split true under rest = (λ h. ([], refl), λ h. refl)
    split false true rest = (λ h. (rest, refl), λ h. refl)
    split false false rest = (λ h. cc, λ (rel, h). cc)
