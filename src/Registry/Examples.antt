-- ===== src/Registry/Examples.antt =====
-- Presets of one small registry.
use lario_llms.Prelude.{◌≡◌, refl, false, none, some, [], ◌∷◌, lookup, insert, Dict, ok}
use lario_llms.Registry.{
  Model, Override, Preset, Registry, presets, set_after, set_arg, set_args, remove_first,
  remove_while, remove_flags, apply_override, apply_overrides, is_geometry, effective_models,
}

abbrev gemma : Model
gemma = record {
  args = "--parallel" ∷ "4" ∷ "--mlock" ∷ [];
  extra_args = none;
  context = 70000;
  slots = 4;
  reserved = 1;
  aliases = [];
  experimental = false;
}

abbrev wide : Override
wide = record {
  set_args = ("--parallel", "8") ∷ [];
  remove_flags = "--mlock" ∷ [];
  append_args = "--no-mmap" ∷ [];
  context = none;
  slots = some 8;
  reserved = none;
  experimental = none;
}

abbrev wide_gemma : Model
wide_gemma = record gemma { args = "--parallel" ∷ "8" ∷ "--no-mmap" ∷ []; slots = 8 }

abbrev agents : Preset
agents = record {
  disabled_reason = "";
  comparison_only = false;
  experimental = false;
  exclude_models = [];
  models = ("gemma", wide) ∷ [];
}

abbrev registry : Registry
registry = record {
  hardware = "geekom";
  more_aliases = [];
  models = ("gemma", gemma) ∷ ("qwen", gemma) ∷ [];
  presets = some (("agents", agents) ∷ []);
  extra_args = [];
}

abbrev effective : Dict Model
effective = ("gemma", wide_gemma) ∷ ("qwen", gemma) ∷ []

applied : effective_models registry "agents" ≡ ok effective
unfolding effective_models apply_overrides apply_override set_args set_arg set_after remove_flags
    remove_while remove_first is_geometry lookup insert
applied = refl

found : lookup "agents" (presets registry) ≡ some agents
unfolding lookup
found = refl

untouched : lookup "qwen" agents.models ≡ none
unfolding lookup
untouched = refl

overrides : apply_override [] gemma wide ≡ ok wide_gemma
unfolding apply_override set_args set_arg set_after remove_flags remove_while remove_first
overrides = refl
