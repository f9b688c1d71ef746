-- ===== src/Audiobooks/Catalog.antt =====
-- media/audiolib/catalog.py: the entries of the catalog, their places in the library, and the choice of some of
-- them. Paths and names are texts of code points.
pub mod Distinct
pub mod Totals
pub mod Chosen
use lario_llms.Prelude.{
  ℕ, zero, suc, ◌+◌, ◌-◌, String, Bool, true, false, not, ◌&&◌, ◌||◌, Option, none, some, List, [],
  ◌∷◌, ◌++◌, map, if◌then◌else◌, ltb, ◌==◌, any, all, total, select, length, Text, codes, eq_text,
  starts_with, holds, rpartition, Fault, Result, ok, err, raised, ◌>>=◌, ◌>>◌, require,
}
use lario_llms.Gate.{is_among}
use lario_llms.Names.{is_empty, basename}

-- `size` is none where the source does not tell it
pub record Entry : Type 0 where
  pub rel : Text
  pub size : Option ℕ
  pub code : String
  pub fileid : ℕ

-- `entry['size'] or 0`
abbrev pub size_or_0 : Entry → ℕ
size_or_0 e = elim e.size [ none ↦ 0 | some n ↦ n ]

abbrev pub value_error : Fault
value_error = raised "ValueError"

-- `text.split(c)`
abbrev pub put : ℕ → List Text → List Text
put x [] = (x ∷ []) ∷ []
put x (part ∷ parts) = (x ∷ part) ∷ parts

abbrev pub split : ℕ → Text → List Text
split c [] = [] ∷ []
split c (x ∷ text) = let rest = split c text in if x == c then [] ∷ rest else put x rest

-- `c.join(parts)`
abbrev pub join_with : Text → List Text → Text
join_with by [] = []
join_with by (part ∷ []) = part
join_with by (part ∷ next ∷ parts) = part ++ by ++ join_with by (next ∷ parts)

abbrev pub is_unsafe : Text → Bool
is_unsafe part = eq_text part (codes "..") || holds 0 part || ltb 255 (length part)

abbrev pub is_skipped : Text → Bool
is_skipped part = is_empty part || eq_text part (codes ".")

unfoldable pub safe_parts : Text → Result (List Text)
unfolding eq_text starts_with
safe_parts rel =
    let parts = select (λ p. not (is_skipped p)) (split b'/' rel) in
    require (not (starts_with rel (codes "/"))) value_error
    >> (require (ltb 0 (length parts) && not (any is_unsafe parts)) value_error >> ok parts)

-- `base in path.parents`
unfoldable pub has_parent : Text → Text → Bool
unfolding eq_text starts_with
has_parent path base =
    if eq_text base (codes "/")
    then not (eq_text path base)
    else starts_with path (base ++ b'/' ∷ [])

-- `resolve` gives the real path
unfoldable pub destination : (Text → Text) → Text → Text → Result Text
unfolding safe_parts has_parent
destination resolve rel root = safe_parts rel >>= λ parts.
    let path = resolve (resolve root ++ b'/' ∷ join_with (codes "/") parts) in
    require (has_parent path (resolve root)) value_error >> ok path

-- `str.lower` and `str.isspace` are parameters
pub record Case : Type 0 where
  pub lower : Text → Text
  pub is_space : ℕ → Bool

-- `' '.join(text.split())`: the words, without the spaces around them
abbrev pub words_of : (ℕ → Bool) → Text → List Text
words_of is_space [] = [] ∷ []
words_of is_space (x ∷ text) =
    let rest = words_of is_space text in if is_space x then [] ∷ rest else put x rest

abbrev pub squeeze : Case → Text → Text
squeeze c text =
    join_with (codes " ") (select (λ w. not (is_empty w)) (words_of c.is_space (c.lower text)))

abbrev pub eq_size : Option ℕ → Option ℕ → Bool
eq_size none none = true
eq_size (some m) (some n) = m == n
eq_size _ _ = false

-- `_key`
abbrev pub Key : Type 0
Key = Text × Option ℕ

unfoldable pub entry_key : Case → Entry → Key
unfolding basename
entry_key c e = (squeeze c (basename e.rel), e.size)

abbrev pub eq_key : Key → Key → Bool
eq_key (name, size) (other, n) = eq_text name other && eq_size size n

abbrev pub is_seen : Key → List Key → Bool
is_seen k seen = any (eq_key k) seen

pub data Reason : Type 0 where
  duplicate : Reason
  extensionless_duplicate : Reason

abbrev pub Dropped : Type 0
Dropped = List (Text × Reason)

-- the entries that are kept, and what is dropped
unfoldable pub dedupe_from : Case → List Key → List Entry → List Entry × Dropped
unfolding entry_key eq_text
dedupe_from c seen [] = ([], [])
dedupe_from c seen (e ∷ entries) = elim (is_seen (entry_key c e) seen) [
  | true ↦ let rest = dedupe_from c seen entries in (rest.0, (e.rel, duplicate) ∷ rest.1)
  | false ↦ let rest = dedupe_from c (entry_key c e ∷ seen) entries in (e ∷ rest.0, rest.1)
]

unfoldable pub dedupe : Case → List Entry → List Entry × Dropped
unfolding dedupe_from
dedupe c entries = dedupe_from c [] entries

-- `rel.rsplit('/', 1)[0]` and `name.rsplit('.', 1)[0]`: all of a text without the character
unfoldable pub up_to_last : ℕ → Text → Text
unfolding rpartition
up_to_last c text = elim (rpartition c text) [ none ↦ text | some (before, _) ↦ before ]

-- the mark of an entry in the set: a folded name, NUL, and the folder
unfoldable pub mark : Case → Text → Text → Text
unfolding up_to_last
mark c name rel = squeeze c name ++ 0 ∷ up_to_last b'/' rel

unfoldable pub marks : Case → List Entry → List Text
unfolding up_to_last basename
marks c [] = []
marks c (e ∷ entries) =
    let rest = marks c entries in
    if holds b'.' (basename e.rel)
    then mark c (up_to_last b'.' (basename e.rel)) e.rel ∷ rest
    else rest

unfoldable pub is_stray : Case → List Text → Entry → Bool
unfolding basename up_to_last eq_text
is_stray c with_ext e =
    not (holds b'.' (basename e.rel)) && is_among (mark c (basename e.rel) e.rel) with_ext

unfoldable pub drop_strays : Case → List Text → List Entry → List Entry × Dropped
unfolding is_stray
drop_strays c with_ext [] = ([], [])
drop_strays c with_ext (e ∷ entries) =
    let rest = drop_strays c with_ext entries in
    if is_stray c with_ext e
    then (rest.0, (e.rel, extensionless_duplicate) ∷ rest.1)
    else (e ∷ rest.0, rest.1)

unfoldable pub drop_extensionless : Case → List Entry → List Entry × Dropped
unfolding drop_strays marks
drop_extensionless c entries = drop_strays c (marks c entries) entries

-- The counts of a collection. Groups are kept in the order of their first entries here; `order` sorts them by
-- name.
pub record Group : Type 0 where
  pub name : Text
  pub files : ℕ
  pub bytes : ℕ

abbrev pub first_two : List Text → List Text
first_two [] = []
first_two (a ∷ []) = a ∷ []
first_two (a ∷ b ∷ _) = a ∷ b ∷ []

abbrev pub collection_name : Entry → Text
collection_name e = join_with (codes "/") (first_two (split b'/' e.rel))

unfoldable pub count_entry : Text → ℕ → List Group → List Group
unfolding eq_text
count_entry name size [] = record { name = name; files = 1; bytes = size } ∷ []
count_entry name size (g ∷ groups) =
    let rest = count_entry name size groups in
    if eq_text g.name name
    then record g { files = g.files + 1; bytes = g.bytes + size } ∷ groups
    else g ∷ rest

unfoldable pub groups_of : List Group → List Entry → List Group
unfolding count_entry
groups_of groups [] = groups
groups_of groups (e ∷ entries) =
    groups_of (count_entry (collection_name e) (size_or_0 e) groups) entries

unfoldable pub collections_of : (List Group → List Group) → List Entry → List Group
unfolding groups_of
collections_of order entries = order (groups_of [] entries)

pub record Document : Type 0 where
  pub files : ℕ
  pub bytes : ℕ
  pub collections : List Group
  pub entries : List Entry

unfoldable pub document : (List Group → List Group) → List Entry → Document
unfolding collections_of
document order entries = record {
  files = length entries;
  bytes = total size_or_0 entries;
  collections = collections_of order entries;
  entries = entries;
}

abbrev pub is_under : Entry → Text → Bool
is_under e value = eq_text e.rel value || starts_with e.rel (value ++ b'/' ∷ [])

-- `'/'.join(safe_parts(value))` for each collection that is asked for
unfoldable pub prefixes_of : List Text → Result (List Text)
unfolding safe_parts
prefixes_of [] = ok []
prefixes_of (value ∷ include) = safe_parts value >>= λ parts.
    prefixes_of include >>= λ rest. ok (join_with (codes "/") parts ∷ rest)

abbrev pub matching : List Entry → List Text → Result (List Entry)
matching entries prefixes =
    require (all (λ value. any (λ e. is_under e value) entries) prefixes) value_error
    >> ok (select (λ e. any (is_under e) prefixes) entries)

unfoldable pub select_entries : List Entry → List Text → Result (List Entry)
unfolding prefixes_of eq_text starts_with
select_entries entries [] = ok entries
select_entries entries (value ∷ include) =
    prefixes_of (value ∷ include) >>= λ prefixes. matching entries prefixes
