-- ===== src/Gate.antt =====
-- media/core/gate.py: what is checked before a run touches a file. Gate/Paths has the shape of the arguments and
-- Gate/RunDir the directory of a run. A refusal is the exception `Refusal`.
pub mod Paths
pub mod RunDir
pub mod Mounts
pub mod Examples
use lario_llms.Prelude.{
  ℕ, ◌+◌, String, ◌≡◌, Bool, true, false, not, ◌&&◌, ◌||◌, Option, none, some, List, [], ◌∷◌, ◌++◌,
  if◌then◌else◌, ltb, ◌==◌, any, all, select, member, str_eq, Text, codes, eq_text, holds, replace,
  rpartition, ends_with, Dict, lookup, Fault, Result, ok, err, raised, ◌>>=◌, ◌>>◌, require,
}
use lario_llms.Names.{Unicode, basename, is_clutter, is_empty}

abbrev pub refusal : Fault
refusal = raised "Refusal"

abbrev pub mediums : List String
mediums = "photos" ∷ "movies" ∷ "music" ∷ "audiobooks" ∷ "books" ∷ []

-- the libraries and the sets of extensions of media/core/config.py
pub record Config : Type 0 where
  pub photo_lib : Text
  pub movies : Text
  pub music_lib : Text
  pub audiobooks : Text
  pub books : Text
  pub photo_exts : List Text
  pub movie_exts : List Text
  pub audio_exts : List Text
  pub doc_exts : List Text

-- `d[k]` of a table
abbrev pub at {ℓ} : {V : Type ℓ} → Option V → Result V
at none = err (raised "KeyError")
at (some v) = ok v

abbrev pub libraries : Config → Dict Text
libraries c =
    ("photos", c.photo_lib)
    ∷ ("movies", c.movies)
    ∷ ("music", c.music_lib)
    ∷ ("audiobooks", c.audiobooks)
    ∷ ("books", c.books)
    ∷ []

abbrev pub override : (Text → Text) → Config → String → Option Text → Result Text
unfolding lookup
override realpath c medium none = at (lookup medium (libraries c))
override realpath c medium (some []) = at (lookup medium (libraries c))
override realpath c medium (some (x ∷ path)) = ok (realpath (x ∷ path))

abbrev pub variable : Unicode → String → Text
variable u medium = replace b'-' (codes "_") (codes "LARIO_DEST_" ++ u.upper (codes medium))

unfoldable pub dest_for :
    Unicode → (Text → Text) → (Text → Option Text) → Config → String → Result Text
unfolding lookup
dest_for u realpath environment c medium =
    require (member medium mediums) refusal
    >> override realpath c medium (environment (variable u medium))

abbrev pub extensions : Config → Dict (List Text)
extensions c =
    ("photos", c.photo_exts)
    ∷ ("movies", c.movie_exts)
    ∷ ("music", c.audio_exts)
    ∷ ("audiobooks", c.audio_exts ++ c.doc_exts)
    ∷ ("books", c.doc_exts)
    ∷ []

unfoldable pub extensions_for : Config → String → Result (List Text)
unfolding lookup
extensions_for c medium = at (lookup medium (extensions c))

-- every other medium with its extensions
unfoldable pub other_types : Config → String → Dict (List Text)
other_types c medium = select (λ e. not (str_eq e.0 medium)) (extensions c)

abbrev pub requires : Dict (Dict String)
requires =
    ("photos", ("exiftool", "extra/exiftool_pkg/extract_and_install.sh") ∷ [])
    ∷ ("movies", ("ffprobe", "system package ffmpeg") ∷ ("ffmpeg", "system package ffmpeg") ∷ [])
    ∷ ("music", [])
    ∷ ("audiobooks", ("ffprobe", "system package ffmpeg") ∷ [])
    ∷ ("books", [])
    ∷ []

abbrev pub tools_of : Option (Dict String) → Dict String
tools_of none = []
tools_of (some tools) = tools

-- `which` tells whether a command is on the path, `mutagen` whether the module can be imported. A missing tool
-- stands with its hint; of the hint for mutagen only the command is kept.
unfoldable pub missing_dependencies : (String → Bool) → Bool → String → Dict String
unfolding lookup
missing_dependencies which mutagen medium =
    select (λ e. not (which e.0)) (tools_of (lookup medium requires))
    ++ (if str_eq medium "music" && not mutagen
        then ("python package mutagen", "sudo pacman -S python-mutagen") ∷ []
        else [])

abbrev pub breaks_a_line : Text → Bool
breaks_a_line arg = holds 0 arg || holds 10 arg || holds 13 arg

unfoldable pub validate_argv : List Text → Result (Unit {0})
validate_argv [] = ok tt
validate_argv (arg ∷ argv) = require (not (breaks_a_line arg)) refusal >> validate_argv argv

abbrev pub case_folding : List String
case_folding = "exfat" ∷ "vfat" ∷ "msdos" ∷ "ntfs" ∷ "ntfs3" ∷ "fuse.ntfs-3g" ∷ "fuse.exfat" ∷ []

unfoldable pub case_folds : Text → Bool
unfolding eq_text
case_folds kind = any (λ s. eq_text kind (codes s)) case_folding

-- the predicted growth of a run is no negative number
unfoldable pub check_floor : ℕ → ℕ → ℕ → Result ℕ
check_floor free needed floor_bytes =
    require (not (ltb free (floor_bytes + needed))) refusal >> ok free

-- `os.path.join(path, name)` for a name that is not absolute
unfoldable pub join : Text → Text → Text
unfolding ends_with eq_text
join path name =
    if is_empty path || ends_with path (codes "/") then path ++ name else path ++ b'/' ∷ name

abbrev pub subtrees : Dict String
subtrees =
    ("photos", "Photos")
    ∷ ("movies", "Movies")
    ∷ ("music", "Music")
    ∷ ("audiobooks", "Audiobooks")
    ∷ ("books", "Books")
    ∷ []

unfoldable pub plan_dest_dir : Text → String → Result Text
unfolding lookup join
plan_dest_dir dest medium = at (lookup medium subtrees) >>= λ tree. ok (join dest (codes tree))

-- `os.path.splitext(path)[1]`: dots that lead the name begin no extension
unfoldable pub extension : Text → Text
unfolding basename rpartition
extension path = elim (rpartition b'.' (basename path)) [
  | none ↦ []
  | some (stem, ext) ↦ if all (λ c. c == b'.') stem then [] else b'.' ∷ ext
]

abbrev pub is_among : Text → List Text → Bool
is_among text texts = any (eq_text text) texts

unfoldable pub is_media : Unicode → Config → Text → String → Result Bool
unfolding is_clutter extension extensions_for eq_text
is_media u c path medium =
    if is_clutter u path
    then ok false
    else (extensions_for c medium >>= λ exts. ok (is_among (u.lower (extension path)) exts))

unfoldable pub owner : Text → Dict (List Text) → Option String
unfolding eq_text
owner leaf [] = none
owner leaf ((other, exts) ∷ rest) =
    let later = owner leaf rest in if is_among leaf exts then some other else later

unfoldable pub foreign : Unicode → Config → Text → String → Option String
unfolding extension other_types owner
foreign u c path medium = owner (u.lower (extension path)) (other_types c medium)
