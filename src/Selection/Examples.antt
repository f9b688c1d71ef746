-- ===== src/Selection/Examples.antt =====
-- Saving a selection over an older one.
use lario_llms.Prelude.{String, ◌≡◌, refl, none, some, [], ok}
use lario_llms.Registry.{Registry}
use lario_llms.Selection.{Saved, strip, selection, save_model, save_selection}

abbrev gemma : String
gemma = "gemma"

abbrev agents : String
agents = "agents"

abbrev old : Saved
old = record { model = some "gemma"; choice = some ("gemma", "agents") }

abbrev unsaved : Saved
unsaved = record { model = none; choice = none }

abbrev registry : Registry
registry = record {
  hardware = "geekom";
  more_aliases = [];
  models = [];
  presets = none;
  extra_args = [];
}

saved : selection (save_selection "qwen" "capacity" old) ≡ ok ("qwen", "capacity")
unfolding selection save_selection save_model strip
saved = refl

torn : selection (save_model "gemma" old) ≡ ok ("gemma", "agents")
unfolding selection save_model strip
torn = refl
