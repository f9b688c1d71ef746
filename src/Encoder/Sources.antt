-- ===== src/Encoder/Sources.antt =====
-- The files that rtx5080/encoder/controller.py takes for sources (_pruned, _sources, media_probe), and the count of those
-- that are settled (start). A file is given by the parts of its path below the root.
use lario_llms.Prelude.{
  ℕ, Bool, not, ◌&&◌, ◌||◌, Option, none, some, List, [], ◌∷◌, if◌then◌else◌, any, count, select,
  total, Text, codes, eq_text, starts_with, ends_with, Result, ok, err, raised, ◌>>◌, require,
}
use lario_llms.Audiobooks.Catalog.{value_error}
use lario_llms.Audiobooks.Jobs.Start.{has_dots}
use lario_llms.Gate.{is_among}
use lario_llms.Encoder.Tally.{Line}

-- `size` is none where the file cannot be measured
pub record Found : Type 0 where
  pub path : Text
  pub folders : List Text
  pub name : Text
  pub is_link : Bool
  pub is_file : Bool
  pub size : Option ℕ

abbrev pub skipped_names : List Text → List Text
skipped_names extra =
    codes "live-photos-for-deletion" ∷ codes "_live_photos" ∷ codes "_mediatool" ∷ extra

abbrev pub is_dotted : Text → Bool
is_dotted name = starts_with name (codes ".")

-- `extra` are the operator's additions
unfoldable pub pruned : List Text → Found → Bool
unfolding starts_with ends_with eq_text
pruned extra f =
    is_dotted f.name
    || ends_with f.name (codes ".shipping")
    || any (λ part. is_dotted part || is_among part (skipped_names extra)) f.folders

abbrev pub is_video : (Text → Text) → Text → Bool
is_video lower name = ends_with (lower name) (codes ".mkv") || ends_with (lower name) (codes ".mp4")

-- `found` is every entry at any depth, in the order of the paths
unfoldable pub sources : (Text → Text) → List Text → List Found → List Found
unfolding pruned ends_with eq_text
sources lower extra found =
    select (λ f. not f.is_link && f.is_file && is_video lower f.name && not (pruned extra f)) found

abbrev pub size_of : Found → ℕ
size_of f = elim f.size [ none ↦ 0 | some n ↦ n ]

-- the sources and their bytes; `listing` is none where the root is no directory
unfoldable pub media_probe :
    (Text → Bool) → (Text → Text) → List Text → Option (List Found) → Text → Result (List Found × ℕ)
unfolding sources
media_probe is_safe lower extra listing root =
    require (is_safe root && not (has_dots root)) value_error >> (elim listing [
      | none ↦ err (raised "not a directory")
      | some found ↦ let files = sources lower extra found in ok (files, total size_of files)
    ])

abbrev pub settling : List Text
settling =
    codes "DONE" ∷ codes "SKIPCODEC" ∷ codes "SKIPSIZE" ∷ codes "NOGAIN" ∷ codes "OVERSIZE" ∷ []

-- the paths of the manifest that need no more work
unfoldable pub settled_paths : List Line → List Text
unfolding eq_text
settled_paths [] = []
settled_paths ([] ∷ lines) = settled_paths lines
settled_paths ((_ ∷ []) ∷ lines) = settled_paths lines
settled_paths ((path ∷ d ∷ _) ∷ lines) =
    let rest = settled_paths lines in if is_among d settling then path ∷ rest else rest

-- the files are listed once each
unfoldable pub already_done : List Found → Option (List Line) → ℕ
unfolding settled_paths
already_done files none = 0
already_done files (some lines) = count (λ f. is_among f.path (settled_paths lines)) files
