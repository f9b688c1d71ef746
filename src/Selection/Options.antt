-- ===== src/Selection/Options.antt =====
-- Saved selections and the menu of options (shared/modelctl.py: selection, save_selection,
-- selection_options).
use Prim.Native.String.{◌++◌ as join}
use lario_llms.Prelude.{
  String, ◌≡◌, refl, sym, ap, raised, err, Bool-cases, if◌then◌else◌, ◌⊎◌, inl, inr, Bool, ◌&&◌,
  ◌||◌, Option, none, some, List, [], ◌∷◌, ◌++◌, arith, str_eq, eq_iff, any, member, Dict, keys, ok,
}
use lario_llms.Registry.{Preset, Registry, presets}
use lario_llms.Selection.{
  Saved, strip, chosen, selection, save_model, save_selection, offered, options_of, options_from,
  selection_options,
}

-- what is read back after a selection was saved: it, unless its key has white space at an end
pub selection-save_selection :
    (key preset : String) (s : Saved)
    → selection (save_selection key preset s) ≡ (
        if str_eq key (strip (join key "\n"))
        then ok (key, preset)
        else err (raised "selection state disagrees; restore through the controller"))
unfolding selection save_selection save_model
selection-save_selection key preset s = elim (Bool-cases (str_eq key (strip (join key "\n")))) [
  | inl clean ↦
      rw clean (ap (λ k. ok (k, preset)) (sym ((eq_iff key (strip (join key "\n"))).0 clean)))
  | inr spaced ↦ rw spaced refl
]

torn-cases :
    (key : String) (o : Option (String × String)) {model preset : String}
    → chosen key o ≡ ok (model, preset)
    → (model ≡ key) × ((o ≡ none) × (preset ≡ "capacity") ⊎ (o ≡ some (key, preset)))
torn-cases key none h = (ground arith, inl (refl, ground arith))
torn-cases key (some (m, p)) h = (ground (arith, eq_iff m key), inr (ground (arith, eq_iff m key)))

-- A save that is cut short after its first file gives the new model with the default preset or with a
-- preset that was saved for this very model, or is refused: it never joins a model with another's preset.
pub selection-save_model :
    (key : String) (s : Saved) {model preset : String}
    → selection (save_model key s) ≡ ok (model, preset)
    → (model ≡ strip (join key "\n"))
      × ((s.choice ≡ none) × (preset ≡ "capacity")
          ⊎ (s.choice ≡ some (strip (join key "\n"), preset)))
unfolding selection save_model
selection-save_model key s h = torn-cases (strip (join key "\n")) s.choice h

abbrev pub is_pair : String → String → String × String → Bool
is_pair key preset (k, p) = str_eq key k && str_eq preset p

any-append :
    (k p : String) (xs ys : List (String × String))
    → any (is_pair k p) (xs ++ ys) ≡ (any (is_pair k p) xs || any (is_pair k p) ys)
any-append k p [] ys = refl
any-append k p (x ∷ xs) ys = ground (arith, any-append k p xs ys)

abbrev pub is_offer : Registry → Bool → String → String → String × Preset → Bool
is_offer reg include_aliases key preset (name, p) =
    str_eq preset name && offered reg include_aliases key name p

any-options_of :
    (reg : Registry) (b : Bool) (model key preset : String) (ps : Dict Preset)
    → any (is_pair key preset) (options_of reg b model ps)
      ≡ (str_eq key model && any (is_offer reg b key preset) ps)
unfolding options_of
any-options_of reg b model key preset [] = ground arith
any-options_of reg b model key preset ((name, p) ∷ ps) =
    ground (arith, any-options_of reg b model key preset ps, eq_iff key model)

any-options_from :
    (reg : Registry) (b : Bool) (key preset : String) (models : List String)
    → any (is_pair key preset) (options_from reg b models)
      ≡ (member key models && any (is_offer reg b key preset) (presets reg))
unfolding options_from
any-options_from reg b key preset [] = refl
any-options_from reg b key preset (model ∷ models) = ground (
  arith,
  any-append key preset (options_of reg b model (presets reg)) (options_from reg b models),
  any-options_of reg b model key preset (presets reg),
  any-options_from reg b key preset models,
)

-- The menu holds a model with a preset exactly if the registry has the model and a preset of that name
-- that is neither disabled, for comparison only nor closed to the model, and that is the default preset
-- or overrides the model (and is no hidden alias).
pub any-selection_options :
    (reg : Registry) (b : Bool) (key preset : String)
    → any (is_pair key preset) (selection_options reg b)
      ≡ (member key (keys reg.models) && any (is_offer reg b key preset) (presets reg))
unfolding selection_options
any-selection_options reg b key preset = any-options_from reg b key preset (keys reg.models)
