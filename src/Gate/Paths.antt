-- ===== src/Gate/Paths.antt =====
-- `check_paths` of media/core/gate.py: one destination, sources that exist, and no tree inside another one.
use mathlib.Core.List.{append-nil}
use lario_llms.Prelude.{
  append_last, ◌≡◌, ◌≢◌, ◌⊎◌, inl, inr, false≢true, codes, ends_with, starts_with-append, refl, sym,
  ap, ◌∙◌, subst, Bool, true, false, not, ◌&&◌, ◌||◌, List, [], ◌∷◌, ◌++◌, map, if◌then◌else◌, Text,
  eq_text, eq_text_iff, starts_with, Result, ok, err, ◌>>=◌, ◌>>◌, require, require->>-eq-ok,
  >>=-eq-ok, All, arith,
}
use lario_llms.Names.{is_empty}
use lario_llms.Gate.{refusal}

-- what the operating system answers
pub record System : Type 0 where
  pub realpath : Text → Text
  pub exists : Text → Bool
  pub is_dir : Text → Bool
  pub is_writable : Text → Bool

unfoldable pub is_inside : Text → Text → Bool
unfolding starts_with
is_inside path root = starts_with path (root ++ b'/' ∷ [])

pub data Nesting : Type 0 where
  source_in_dest : Nesting
  dest_in_source : Nesting
  source_in_source : Nesting

abbrev pub with_dest : Text → Text → List Nesting
with_dest real_dest real =
    if is_inside real real_dest
    then source_in_dest ∷ []
    else if is_inside real_dest real
    then dest_in_source ∷ []
    else []

abbrev pub with_sources : List Text → Text → List Nesting
with_sources [] real = []
with_sources (other ∷ others) real =
    (if is_inside real other || is_inside other real then source_in_source ∷ [] else [])
    ++ with_sources others real

abbrev pub is_none : List Nesting → Bool
is_none [] = true
is_none (_ ∷ _) = false

-- the checks of one source, after the real paths of the sources before it
unfoldable pub check_source : System → Bool → Text → List Text → Text → Result Text
unfolding is_inside eq_text
check_source s excused real_dest earlier src =
    let real = s.realpath src in
    require (s.exists src) refusal
    >> (require (s.is_dir src) refusal
        >> (require (not (eq_text real real_dest)) refusal
            >> (require (is_none (with_dest real_dest real ++ with_sources earlier real) || excused)
                  refusal
                >> ok real)))

unfoldable pub check_sources : System → Bool → Text → List Text → List Text → Result (List Text)
unfolding check_source
check_sources s excused real_dest earlier [] = ok earlier
check_sources s excused real_dest earlier (src ∷ srcs) =
    check_source s excused real_dest earlier src >>= λ real.
    check_sources s excused real_dest (earlier ++ real ∷ []) srcs

abbrev pub has_sources : List Text → Bool
has_sources [] = false
has_sources (_ ∷ _) = true

unfoldable pub check_paths : System → Text → List Text → Bool → Text → Result (Text × List Text)
unfolding check_sources
check_paths s dest srcs allow_nested allow_reason =
    require (has_sources srcs) refusal
    >> (require (s.is_dir dest) refusal
        >> (require (s.is_writable dest) refusal
            >> (check_sources s (allow_nested && not (is_empty allow_reason)) (s.realpath dest) []
                  srcs
                >>= λ real_srcs. ok (s.realpath dest, real_srcs))))

-- a path lies below a folder, whose path does not end in a slash
abbrev pub Below : Text → Text → Type 0
Below path root = (rel : Text) × (path ≡ root ++ b'/' ∷ rel)

-- neither path is in the tree of the other
abbrev pub Separate : Text → Text → Type 0
Separate a b = (¬ Below a b) × (¬ Below b a)

is_inside-false : (path root : Text) → is_inside path root ≡ false → ¬ Below path root
unfolding is_inside
is_inside-false path root h (rel, e) =
    let start = root ++ b'/' ∷ [] in
    let whole : path ≡ start ++ rel = e ∙ sym (append_last root b'/' rel) in
    let under : starts_with path start ≡ true =
      ap (λ t. starts_with t start) whole ∙ starts_with-append start rel in
    false≢true (sym h ∙ under)

-- each path is separate from the destination and from the paths before it
abbrev pub Disjoint : Text → List Text → List Text → Type 0
Disjoint dest earlier [] = Unit
Disjoint dest earlier (r ∷ rs) =
    Separate r dest × All (Separate r) earlier × Disjoint dest (earlier ++ r ∷ []) rs

with_sources-eq-nil :
    (others : List Text) (real : Text)
    → is_none (with_sources others real) ≡ true
    → All (Separate real) others
with_sources-eq-nil [] real h = tt
with_sources-eq-nil (other ∷ others) real h =
    step (is_inside real other) (is_inside other real) refl refl (with_sources-eq-nil others real) h
  where
    step :
        (a b : Bool)
        → is_inside real other ≡ a
        → is_inside other real ≡ b
        → (is_none (with_sources others real) ≡ true → All (Separate real) others)
        → is_none ((if a || b then source_in_source ∷ [] else []) ++ with_sources others real)
          ≡ true
        → Separate real other × All (Separate real) others
    step true b e f rest k = cc
    step false true e f rest k = cc
    step false false e f rest k =
        ((is_inside-false real other e, is_inside-false other real f), rest k)

with_dest-Separate :
    (real_dest real : Text) (rest : List Nesting)
    → is_none (with_dest real_dest real ++ rest) ≡ true
    → Separate real real_dest × (is_none rest ≡ true)
with_dest-Separate real_dest real rest h =
    step (is_inside real real_dest) (is_inside real_dest real) refl refl h
  where
    step :
        (a b : Bool)
        → is_inside real real_dest ≡ a
        → is_inside real_dest real ≡ b
        → is_none
            ((if a then source_in_dest ∷ [] else if b then dest_in_source ∷ [] else []) ++ rest)
          ≡ true
        → Separate real real_dest × (is_none rest ≡ true)
    step true b e f k = cc
    step false true e f k = cc
    step false false e f k =
        ((is_inside-false real real_dest e, is_inside-false real_dest real f), k)

-- what holds of the sources that passed, after the real paths of earlier ones
pub record Passed (s : System) (excused : Bool) (real_dest : Text) (earlier srcs : List Text)
    (reals : List Text) : Type 0 where
  pub resolved : reals ≡ earlier ++ map s.realpath srcs
  pub existing : All (λ src. (s.exists src ≡ true) × (s.is_dir src ≡ true)) srcs
  pub other : All (λ src. s.realpath src ≢ real_dest) srcs
  pub disjoint : excused ≡ false → Disjoint real_dest earlier (map s.realpath srcs)

check_source-eq-ok :
    (s : System) (excused : Bool) (real_dest : Text) (earlier : List Text) (src : Text)
    {real : Text}
    → check_source s excused real_dest earlier src ≡ ok real
    → (real ≡ s.realpath src)
      × (s.exists src ≡ true)
      × (s.is_dir src ≡ true)
      × (s.realpath src ≢ real_dest)
      × (excused ≡ false
          → Separate (s.realpath src) real_dest × All (Separate (s.realpath src)) earlier)
unfolding check_source
check_source-eq-ok s excused real_dest earlier src h =
    let (there, h₁) = require->>-eq-ok (s.exists src) refusal _ h in
    let (dir, h₂) = require->>-eq-ok (s.is_dir src) refusal _ h₁ in
    let (apart, h₃) = require->>-eq-ok (not (eq_text (s.realpath src) real_dest)) refusal _ h₂ in
    let (free, h₄) =
      require->>-eq-ok
        (is_none (with_dest real_dest (s.realpath src) ++ with_sources earlier (s.realpath src))
          || excused)
        refusal _ h₃ in
    (
      sym (ap (λ r. elim r [ ok x ↦ x | err _ ↦ [] ]) h₄),
      there,
      dir,
      (λ same. ground (arith, apart, eq_text_iff (s.realpath src) real_dest, same)),
      λ strict. of_free strict free,
    )
  where
    of_free :
        excused ≡ false
        → (is_none (with_dest real_dest (s.realpath src) ++ with_sources earlier (s.realpath src))
            || excused)
          ≡ true
        → Separate (s.realpath src) real_dest × All (Separate (s.realpath src)) earlier
    of_free strict free =
        let nothing : is_none
              (with_dest real_dest (s.realpath src) ++ with_sources earlier (s.realpath src))
            ≡ true =
          ground (arith, strict, free) in
        let (far, rest) = with_dest-Separate real_dest (s.realpath src) _ nothing in
        (far, with_sources-eq-nil earlier (s.realpath src) rest)

check_sources-eq-ok :
    (s : System) (excused : Bool) (real_dest : Text) (earlier srcs : List Text) {reals : List Text}
    → check_sources s excused real_dest earlier srcs ≡ ok reals
    → Passed s excused real_dest earlier srcs reals
unfolding check_sources
check_sources-eq-ok s excused real_dest earlier [] {reals = reals} h = record {
  resolved = sym (ap (λ r. elim r [ ok x ↦ x | err _ ↦ [] ]) h) ∙ sym (append-nil earlier);
  existing = tt;
  other = tt;
  disjoint = λ _. tt;
}
check_sources-eq-ok s excused real_dest earlier (src ∷ srcs) h =
    let (real, checked, h') =
      >>=-eq-ok (check_source s excused real_dest earlier src)
        (λ real. check_sources s excused real_dest (earlier ++ real ∷ []) srcs) h in
    let (same, there, dir, apart, separate) =
      check_source-eq-ok s excused real_dest earlier src checked in
    let rest =
      check_sources-eq-ok s excused real_dest (earlier ++ s.realpath src ∷ []) srcs
        (rw same at h') in
    record {
      resolved = rest.resolved ∙ append_last earlier (s.realpath src) (map s.realpath srcs);
      existing = ((there, dir), rest.existing);
      other = (apart, rest.other);
      disjoint = λ strict. ((separate strict).0, (separate strict).1, rest.disjoint strict);
    }

-- A run is let through only with a destination that is a writable directory and at least one source; then the
-- real paths are those of the arguments, every source is a directory, none is the destination, and unless
-- nesting is allowed with a reason no source lies below the destination or below a source before it, nor one
-- of these below the source. None of the real paths may end in a slash, as that of the root folder does:
-- nothing is found to lie below it.
pub check_paths-eq-ok :
    (s : System) (dest : Text) (srcs : List Text) (allow_nested : Bool) (allow_reason : Text)
    {real_dest : Text} {reals : List Text}
    → All (λ path. ends_with (s.realpath path) (codes "/") ≡ false) (dest ∷ srcs)
    → check_paths s dest srcs allow_nested allow_reason ≡ ok (real_dest, reals)
    → (srcs ≢ [])
      × (s.is_dir dest ≡ true)
      × (s.is_writable dest ≡ true)
      × (real_dest ≡ s.realpath dest)
      × (reals ≡ map s.realpath srcs)
      × All (λ src. (s.exists src ≡ true) × (s.is_dir src ≡ true)) srcs
      × All (λ src. s.realpath src ≢ real_dest) srcs
      × (((allow_nested ≡ true) × (allow_reason ≢ []))
          ⊎ Disjoint real_dest [] (map s.realpath srcs))
unfolding check_paths
check_paths-eq-ok s dest srcs allow_nested allow_reason {real_dest = d} {reals = reals} _ h =
    let excused = allow_nested && not (is_empty allow_reason) in
    let (some_source, h₁) = require->>-eq-ok (has_sources srcs) refusal _ h in
    let (dir, h₂) = require->>-eq-ok (s.is_dir dest) refusal _ h₁ in
    let (writable, h₃) = require->>-eq-ok (s.is_writable dest) refusal _ h₂ in
    let (found, checked, h₄) =
      >>=-eq-ok (check_sources s excused (s.realpath dest) [] srcs)
        (λ real_srcs. ok (s.realpath dest, real_srcs)) h₃ in
    let same_dest : s.realpath dest ≡ d = ap (λ r. elim r [ ok x ↦ x.0 | err _ ↦ [] ]) h₄ in
    let same : found ≡ reals = ap (λ r. elim r [ ok x ↦ x.1 | err _ ↦ [] ]) h₄ in
    let passed : Passed s excused d [] srcs reals =
      subst (λ (x : Text). Passed s excused x [] srcs reals) same_dest
        (subst (Passed s excused (s.realpath dest) [] srcs) same
          (check_sources-eq-ok s excused (s.realpath dest) [] srcs checked)) in
    (
      (λ e. cc (some_source, e)),
      dir,
      writable,
      sym same_dest,
      passed.resolved,
      passed.existing,
      passed.other,
      excused_or allow_nested allow_reason passed.disjoint,
    )
  where
    excused_or :
        {D : Type 0} (nested : Bool) (reason : Text)
        → ((nested && not (is_empty reason)) ≡ false → D)
        → ((nested ≡ true) × (reason ≢ [])) ⊎ D
    excused_or true (c ∷ cs) k = inl (refl, λ e. cc)
    excused_or true [] k = inr (k refl)
    excused_or false reason k = inr (k refl)
