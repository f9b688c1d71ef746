-- ===== src/Names/Examples.antt =====
-- Names on a file system that folds the case of ASCII letters.
use lario_llms.Prelude.{
  append_last, length, ℕ, ◌+◌, ◌-◌, ◌≡◌, refl, true, false, ◌&&◌, none, some, [], ◌∷◌, map, leb,
  if◌then◌else◌, Text, codes, eq_text, starts_with, ends_with, rpartition, rstrip, digits, All, ok,
  err, raised, ◌↔◌, ◌⊎◌, ◌++◌, zero, suc, ◌≤◌, ◌<◌, ◌≢◌, sym, ap, ◌∙◌, max, before, drop, take,
  arith,
}
use lario_llms.Names.{
  Unicode, illegal_character, trailing_dot_or_space, basename, is_clutter, utf16_len,
  exfat_problems, take_units, cut_stem, sanitise, key,
}
use lario_llms.Names.Unique.Numbers.{value, value-digits, digits-All, before-append}
use lario_llms.Names.Unique.Total.{unique_ends}
use lario_llms.Names.Clean.{Plain, sanitise-Plain}
use lario_llms.Names.Paths.{relpath_under, relpath_under-eq-some}
use lario_llms.Names.Unique.{
  Seen, is_seen, parts_of, search, unique, unique_names, mid, tail_of, numbered, Parts,
}
use lario_llms.Names.Unique.Fresh.{Picked, Distinct, unique-eq-ok, unique_names-Distinct}

abbrev upper_one : ℕ → ℕ
upper_one c = if leb b'a' c && leb c b'z' then c - 32 else c

abbrev lower_one : ℕ → ℕ
lower_one c = if leb b'A' c && leb c b'Z' then c + 32 else c

abbrev ascii : Unicode
ascii = record {
  normalize = λ t. t;
  upper = map upper_one;
  lower = map lower_one;
  casefold = map lower_one;
}

clutter : is_clutter ascii (codes "/a/IMG.TMP/") ≡ true
unfolding is_clutter basename rstrip rpartition eq_text starts_with ends_with
clutter = refl

problems :
    exfat_problems ascii (codes "con?.txt ")
    ≡ ok (illegal_character b'?' ∷ trailing_dot_or_space ∷ [])
unfolding exfat_problems basename rstrip rpartition utf16_len eq_text
problems = refl

-- the room is counted in units: the second character does not fit
cut_in_two : take_units 2 (65 ∷ 128512 ∷ []) ≡ 65 ∷ []
unfolding take_units
cut_in_two = refl

device : sanitise ascii (codes "dir/con.a:b") ≡ ok (codes "_con.a_b")
unfolding sanitise cut_stem utf16_len take_units basename rpartition rstrip eq_text
device = refl

sanitise-Plain_example : All Plain (codes "_con.a_b")
sanitise-Plain_example = sanitise-Plain ascii (codes "dir/con.a:b") device

-- a dot at the end of an extension stays
dot_stays : sanitise ascii (codes "foo.txt ") ≡ ok (codes "foo.txt ")
unfolding sanitise cut_stem utf16_len take_units basename rpartition rstrip eq_text
dot_stays = refl

-- a compatibility character that Unicode decomposes to a slash (U+FF0F) brings a directory into the name
abbrev fullwidth : Unicode
fullwidth = record ascii { normalize = map (λ c. if leb 65295 c && leb c 65295 then b'/' else c) }

slash_comes_back : sanitise fullwidth (codes ".." ++ 65295 ∷ codes "x.jpg") ≡ ok (codes "../x.jpg")
unfolding sanitise cut_stem utf16_len take_units basename rpartition rstrip eq_text
slash_comes_back = refl

abbrev after_one : Seen
after_one = (codes "a.mov", codes "A.MOV") ∷ []

abbrev after_two : Seen
after_two = (codes "a (2).mov", codes "a.mov") ∷ after_one

second : unique ascii after_one (codes "a.mov") ≡ ok (codes "a (2).mov", after_two)
unfolding unique search digits utf16_len sanitise cut_stem take_units basename rpartition rstrip
    eq_text key
second = refl

unique-eq-ok_example :
    (candidate : Text) × (sanitise ascii (codes "a.mov") ≡ ok candidate)
    × (is_seen (key ascii (codes "a (2).mov")) after_one ≡ false)
    × (is_seen (key ascii (codes "a (2).mov")) after_two ≡ true)
    × (after_two ≡ (key ascii (codes "a (2).mov"), candidate) ∷ after_one)
    × Picked ascii after_one candidate
        (parts_of candidate (rpartition b'.' candidate))
        (codes "a (2).mov")
unique-eq-ok_example = unique-eq-ok ascii after_one (codes "a.mov") second

both :
    unique_names ascii [] (codes "A.MOV" ∷ codes "a.mov" ∷ [])
    ≡ ok (codes "A.MOV" ∷ codes "a (2).mov" ∷ [], after_two)
unfolding unique_names unique search digits utf16_len sanitise cut_stem take_units basename
    rpartition rstrip eq_text key
both = refl

unique_names-Distinct_example :
    ◌≡◌ {A = ℕ} 2 2
    × Distinct ascii (codes "A.MOV" ∷ codes "a (2).mov" ∷ [])
    × All (λ b. is_seen (key ascii b) [] ≡ false) (codes "A.MOV" ∷ codes "a (2).mov" ∷ [])
unique_names-Distinct_example =
    unique_names-Distinct ascii [] (codes "A.MOV" ∷ codes "a.mov" ∷ []) both

-- a file system on which all names are the same
abbrev one_key : Unicode
one_key = record ascii { casefold = λ t. [] }

abbrev full : Seen
full = ([], codes "a.mov") ∷ []

exhausted : unique one_key full (codes "a.mov") ≡ err (raised "RuntimeError")
unfolding unique search digits utf16_len sanitise cut_stem take_units basename rpartition rstrip
    eq_text key
exhausted = refl

abbrev as_given : Text → Text
as_given path = path

slashless : ends_with (as_given (codes "/m")) (codes "/") ≡ false
unfolding ends_with
slashless = refl

relpath_under-eq-some_example :
    (relpath_under as_given (codes "/m") (codes "/m/a") ≡ some (codes "a"))
    ↔ (((codes "/m/a" ≡ codes "/m") × (codes "a" ≡ [])) ⊎ (codes "/m/a" ≡ codes "/m/a"))
relpath_under-eq-some_example =
    relpath_under-eq-some as_given (codes "/m") (codes "/m/a") (codes "a") slashless

-- the numbered forms of one name are different, so two claimed names leave room for it
abbrev plain : Unicode
plain = record ascii { casefold = λ t. t }

abbrev parts : Parts
parts = record { stem = codes "a"; dotted = true; ext = codes "mov" }

-- the number that stands between the brackets, behind one character, a space and a bracket
abbrev number_in : Text → ℕ
number_in name = value 0 (before b')' (drop 3 name))

take_one : (n : ℕ) → 1 ≤ n → take n (codes "a") ≡ codes "a"
take_one zero h = absurd (omega arith)
take_one (suc zero) h = refl
take_one (suc (suc n)) h = refl

number_in-numbered : (n : ℕ) → n < 10000 → number_in (numbered parts 3 n) ≡ n
number_in-numbered n small =
    ap (λ t. number_in (t ++ mid n ++ tail_of parts))
      (take_one (max 1 (255 - 3 - length (mid n) - 1)) (omega arith))
    ∙ ap (λ t. value 0 (before b')' t)) (append_last (digits 5 n) b')' (codes ".mov"))
    ∙ ap (value 0) (before-append b')' (digits 5 n) (codes ".mov") (digits-All 5 n))
    ∙ value-digits 5 n (omega (arith, small))

different :
    (i j : ℕ) → i < j → j < 10000 → key plain (numbered parts 3 j) ≢ key plain (numbered parts 3 i)
unfolding key
different i j less small same =
    let e =
      sym (number_in-numbered j small)
      ∙ ap number_in same
      ∙ number_in-numbered i (omega (arith, less, small)) in
    omega (arith, e, less)

parted : parts_of (codes "a.mov") (rpartition b'.' (codes "a.mov")) ≡ parts
unfolding rpartition
parted = refl

clean : sanitise plain (codes "a.mov") ≡ ok (codes "a.mov")
unfolding sanitise cut_stem utf16_len take_units basename rpartition rstrip eq_text
clean = refl

unique_ends_example : (r : Text × Seen) × (unique plain after_one (codes "a.mov") ≡ ok r)
unfolding rpartition utf16_len
unique_ends_example =
    unique_ends plain after_one (codes "a.mov") (codes "a.mov") 3 clean refl
      (λ i j low less small. different i j less small) (omega arith)

-- no path is found to lie under the root folder
under_slash : relpath_under as_given (codes "/") (codes "/a") ≡ none
unfolding relpath_under starts_with eq_text
under_slash = refl
