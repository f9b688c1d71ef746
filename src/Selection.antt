-- ===== src/Selection.antt =====
-- shared/modelctl.py: which model and preset a hardware runs, and which it may be given. The two files of a
-- saved selection are the record `Saved`.
pub mod Options
pub mod Examples
use Prim.Native.String.{◌++◌ as join}
use Prim.Native.Char.{code}
use lario_llms.Prelude.{
  ℕ, leb, ◌==◌, String, Bool, true, false, not, ◌&&◌, ◌||◌, Option, none, some, List, [], ◌∷◌, ◌++◌,
  str_eq, if◌then◌else◌, any, member, Dict, lookup, has_key, keys, Result, ok, err, raised, ◌>>=◌,
}
use lario_llms.Registry.{
  Model, Override, Preset, Registry, get_or, no_overrides, presets, effective_models,
}

-- `str.isspace` of a code point, and `str.strip`
abbrev pub is_space : ℕ → Bool
is_space c =
    leb 9 c && leb c 13
    || leb 28 c && leb c 32
    || c == 133
    || c == 160
    || c == 5760
    || leb 8192 c && leb c 8202
    || c == 8232
    || c == 8233
    || c == 8239
    || c == 8287
    || c == 12288

abbrev pub lstrip : String → String
lstrip String.[] = ""
lstrip (String.◌∷◌ c s) = let rest = lstrip s in if is_space (code c) then rest else String.◌∷◌ c s

abbrev pub rstrip : String → String
rstrip String.[] = ""
rstrip (String.◌∷◌ c s) =
    let rest = rstrip s in if is_space (code c) && str_eq rest "" then "" else String.◌∷◌ c rest

unfoldable pub strip : String → String
strip s = rstrip (lstrip s)

-- `model` is the stripped text of the state file, `choice` the model and preset of the JSON record
pub record Saved : Type 0 where
  pub model : Option String
  pub choice : Option (String × String)

abbrev pub chosen : String → Option (String × String) → Result (String × String)
chosen model none = ok (model, "capacity")
chosen model (some (m, preset)) =
    if str_eq m model
    then ok (model, preset)
    else err (raised "selection state disagrees; restore through the controller")

unfoldable pub selection : Saved → Result (String × String)
selection s = chosen (get_or s.model "(unset)") s.choice

-- The two `atomic` writes, in order; the process may end between them. The first writes the key and a newline.
unfoldable pub save_model : String → Saved → Saved
unfolding strip
save_model key s = record s { model = some (strip (join key "\n")) }

unfoldable pub save_selection : String → String → Saved → Saved
unfolding save_model
save_selection key preset s = record (save_model key s) { choice = some (key, preset) }

pub offered : Registry → Bool → String → String → Preset → Bool
offered reg include_aliases model name p =
    not (not include_aliases && str_eq name "balanced" && str_eq reg.hardware "geekom")
    && not (not (str_eq p.disabled_reason "") || p.comparison_only)
    && not (member model p.exclude_models)
    && (str_eq name "capacity" || has_key model p.models)

pub options_of : Registry → Bool → String → Dict Preset → List (String × String)
options_of reg include_aliases model [] = []
options_of reg include_aliases model ((name, p) ∷ ps) =
    let rest = options_of reg include_aliases model ps in
    if offered reg include_aliases model name p then (model, name) ∷ rest else rest

pub options_from : Registry → Bool → List String → List (String × String)
options_from reg include_aliases [] = []
options_from reg include_aliases (model ∷ models) =
    options_of reg include_aliases model (presets reg) ++ options_from reg include_aliases models

pub selection_options : Registry → Bool → List (String × String)
selection_options reg include_aliases = options_from reg include_aliases (keys reg.models)

abbrev pub own_experimental : Option Model → Bool
own_experimental none = false
own_experimental (some m) = m.experimental

-- `registry['models'][key]` of an unknown key raises in the source; the callers check the key first.
unfoldable pub is_experimental : Registry → String → String → Bool
is_experimental reg key preset =
    let spec =
      get_or (elim reg.presets [ none ↦ none | some ps ↦ lookup preset ps ]) no_overrides in
    get_or (elim (lookup key spec.models) [ none ↦ none | some o ↦ o.experimental ])
      (spec.experimental || (str_eq preset "capacity" && own_experimental (lookup key reg.models)))

abbrev pub own_aliases : Option Model → Result (List String)
own_aliases none = err (raised "KeyError")
own_aliases (some m) = ok m.aliases

-- A profile-specific name: `key@preset`.
unfoldable pub model_aliases : Registry → String → String → Result (List String)
model_aliases reg key preset = effective_models reg preset >>= λ _.
    own_aliases (lookup key reg.models) >>= λ own. ok (own ++ join key (join "@" preset) ∷ [])
