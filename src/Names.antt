-- ===== src/Names.antt =====
-- media/core/names.py: the names that a run may produce. `unique` is in Names/Unique. Unicode's tables are
-- parameters; the other operations on text are computed on code points.
pub mod Unique
pub mod Paths
pub mod Clean
pub mod Examples
use lario_llms.Prelude.{
  ℕ, zero, suc, ◌+◌, ◌-◌, ◌≤◌, String, ◌≡◌, Bool, true, false, not, ◌&&◌, ◌||◌, Option, none, some,
  List, [], ◌∷◌, ◌++◌, max, if◌then◌else◌, ltb, leb, ◌==◌, any, total, Text, codes, eq_text,
  starts_with, ends_with, holds, take, replace, rpartition, before, rstrip, Fault, Result, ok, err,
  raised, ◌>>=◌,
}

-- `unicodedata.normalize('NFKC', ...)`, `str.upper`, `str.lower` and `str.casefold`
pub record Unicode : Type 0 where
  pub normalize : Text → Text
  pub upper : Text → Text
  pub lower : Text → Text
  pub casefold : Text → Text

abbrev pub illegal : Text
illegal = codes ":*?\"|<>"

abbrev pub is_control : ℕ → Bool
is_control c = ltb c 32 || c == 127

abbrev pub reserved_names : List String
reserved_names =
    "CON" ∷ "PRN" ∷ "AUX" ∷ "NUL" ∷ "COM1" ∷ "COM2" ∷ "COM3" ∷ "COM4" ∷ "COM5" ∷ "COM6" ∷ "COM7"
    ∷ "COM8" ∷ "COM9" ∷ "LPT1" ∷ "LPT2" ∷ "LPT3" ∷ "LPT4" ∷ "LPT5" ∷ "LPT6" ∷ "LPT7" ∷ "LPT8"
    ∷ "LPT9" ∷ []

abbrev pub clutter_names : List String
clutter_names =
    ".DS_Store" ∷ "Thumbs.db" ∷ "desktop.ini" ∷ "@eaDir" ∷ ".stfolder" ∷ "Spotlight-V100"
    ∷ ".Spotlight-V100" ∷ ".Trashes" ∷ ".Trash-1000" ∷ "fseventsd" ∷ ".fseventsd" ∷ "@Recycle.Bin"
    ∷ "$RECYCLE.BIN" ∷ ".directory" ∷ "lost+found" ∷ []

abbrev pub clutter_suffixes : List String
clutter_suffixes = ".tmp" ∷ ".part" ∷ ".crdownload" ∷ ".partial" ∷ []

abbrev pub exfat_max_component : ℕ
exfat_max_component = 255

-- `text in names`, `text.endswith(suffixes)`
abbrev pub is_one_of : List String → Text → Bool
is_one_of names text = any (λ s. eq_text text (codes s)) names

abbrev pub ends_in : List String → Text → Bool
ends_in suffixes text = any (λ s. ends_with text (codes s)) suffixes

-- `os.path.basename`
unfoldable pub basename : Text → Text
unfolding rpartition
basename path = elim (rpartition b'/' path) [ none ↦ path | some (_, base) ↦ base ]

abbrev pub is_slash : ℕ → Bool
is_slash c = c == b'/'

unfoldable pub is_clutter : Unicode → Text → Bool
unfolding basename rstrip rpartition eq_text starts_with ends_with
is_clutter u path =
    let base = basename (rstrip is_slash path) in
    is_one_of clutter_names base
    || starts_with base (codes "._")
    || ends_in clutter_suffixes (u.lower base)

-- UTF-16 has two units for a code point beyond the basic plane, and none for a lone surrogate.
abbrev pub units : ℕ → ℕ
units c = if ltb c 65536 then 1 else 2

abbrev pub is_surrogate : ℕ → Bool
is_surrogate c = leb 55296 c && ltb c 57344

abbrev pub encode_error : Fault
encode_error = raised "UnicodeEncodeError"

unfoldable pub utf16_len : Text → Result ℕ
utf16_len text = if any is_surrogate text then err encode_error else ok (total units text)

pub data Problem : Type 0 where
  empty_name : Problem
  control_character : Problem
  illegal_character : ℕ → Problem
  newline_or_nul : Problem
  trailing_dot_or_space : Problem
  too_long : ℕ → Problem
  reserved_name : Text → Problem

abbrev pub report : Bool → Problem → List Problem
report b problem = if b then problem ∷ [] else []

abbrev pub is_dot_or_space : ℕ → Bool
is_dot_or_space c = c == b'.' || c == b' '

abbrev pub illegal_in : Text → Text → List Problem
illegal_in name [] = []
illegal_in name (c ∷ cs) = report (holds c name) (illegal_character c) ++ illegal_in name cs

abbrev pub is_empty : Text → Bool
is_empty [] = true
is_empty (_ ∷ _) = false

abbrev pub is_reserved : Unicode → Text → Bool
is_reserved u name = is_one_of reserved_names (u.upper (before b'.' name))

unfoldable pub exfat_problems : Unicode → Text → Result (List Problem)
unfolding basename rstrip rpartition utf16_len eq_text
exfat_problems u name = utf16_len name >>= λ n. ok (
    report (is_empty name) empty_name
    ++ report (any is_control name) control_character
    ++ illegal_in name illegal
    ++ report (holds 0 name || holds 10 name) newline_or_nul
    ++ report (not (eq_text (basename name) (rstrip is_dot_or_space (basename name))))
        trailing_dot_or_space
    ++ report (ltb exfat_max_component n) (too_long n)
    ++ report (is_reserved u name) (reserved_name (u.upper (before b'.' name))))

-- `sanitise` is called with its default replacement only. As a template of `re.sub` it stands for itself.
abbrev pub replacement : Text
replacement = b'_' ∷ []

-- `_CONTROL.sub('_', text)`
abbrev pub replace_controls : Text → Text
replace_controls [] = []
replace_controls (x ∷ text) = (if is_control x then b'_' else x) ∷ replace_controls text

-- one `replace` for each character of the list
abbrev pub replace_each : Text → Text → Text → Text
replace_each [] by text = text
replace_each (c ∷ cs) by text = replace_each cs by (replace c by text)

-- `text.encode('utf-16-le')[:2 * n].decode('utf-16-le', 'ignore')`
unfoldable pub take_units : ℕ → Text → Text
take_units n [] = []
take_units n (x ∷ text) =
    let rest = take_units (n - units x) text in if leb (units x) n then x ∷ rest else []

-- `head.rstrip('. ') + dot + ext`, the stem cut to the room that the extension leaves
abbrev pub cut_stem : Text → Text → Result Text
unfolding rstrip take_units utf16_len
cut_stem stem ext = utf16_len ext >>= λ n.
    if any is_surrogate stem
    then err encode_error
    else ok (
        rstrip is_dot_or_space (take_units (max 1 (exfat_max_component - n - 1)) stem)
        ++ b'.' ∷ ext)

abbrev pub cut_bare : Text → Result Text
cut_bare name = ok (rstrip is_dot_or_space (take exfat_max_component name))

abbrev pub cut_parts : Text → Option (Text × Text) → Result Text
cut_parts name none = cut_bare name
cut_parts name (some ([], ext)) = cut_bare name
cut_parts name (some (c ∷ stem, ext)) = cut_stem (c ∷ stem) ext

abbrev pub avoid_reserved : Unicode → Text → Text
avoid_reserved u name = if is_reserved u name then b'_' ∷ name else name

abbrev pub never_empty : Text → Text
never_empty name =
    if is_one_of ("" ∷ "." ∷ ".." ∷ []) name then replacement ++ codes "unnamed" else name

abbrev pub cleaned : Unicode → Text → Text
cleaned u name =
    replace_each illegal replacement (replace_controls (u.normalize (basename (replace 0 [] name))))

unfoldable pub sanitise : Unicode → Text → Result Text
unfolding rpartition
sanitise u name =
    let name = cleaned u name in
    cut_parts name (rpartition b'.' name) >>= λ cut. ok (never_empty (avoid_reserved u cut))

unfoldable pub key : Unicode → Text → Text
key u name = u.casefold (u.normalize name)
