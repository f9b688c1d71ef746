-- ===== src/Registry.antt =====
-- shared/modelctl.py: the hardware-owned registry (models.json) and the model geometry that a preset
-- gives. Counts, contexts and reservations are natural numbers: a JSON value of another type or sign is
-- refused by the source with the error that `is_geometry` stands for here.
pub mod Removal
pub mod Effective
pub mod Examples
use text.Mathlib.Text.{starts_with}
use lario_llms.Prelude.{
  ℕ, zero, suc, ◌+◌, ◌-◌, String, Bool, true, false, not, ◌&&◌, ◌||◌, Option, none, some, List, [],
  ◌∷◌, ◌++◌, str_eq, leb, ◌==◌, if◌then◌else◌, length, count, all, member, Dict, lookup, insert,
  has_key, values, Result, ok, err, raised, ◌>>=◌, ◌>>◌, require,
}

pub record Model : Type 0 where
  pub args : List String
  pub extra_args : Option (List String)
  pub context : ℕ
  pub slots : ℕ
  pub reserved : ℕ
  pub aliases : List String
  pub experimental : Bool

pub record Override : Type 0 where
  pub set_args : List (String × String)
  pub remove_flags : List String
  pub append_args : List String
  pub context : Option ℕ
  pub slots : Option ℕ
  pub reserved : Option ℕ
  pub experimental : Option Bool

pub record Preset : Type 0 where
  -- the empty text stands for a missing reason: both are false in a test
  pub disabled_reason : String
  pub comparison_only : Bool
  pub experimental : Bool
  pub exclude_models : List String
  pub models : Dict Override

-- `hardware` is `aliases[0]`, and `more_aliases` the rest of that list.
pub record Registry : Type 0 where
  pub hardware : String
  pub more_aliases : List String
  pub models : Dict Model
  pub presets : Option (Dict Preset)
  pub extra_args : List String

abbrev pub aliases : Registry → List String
aliases reg = reg.hardware ∷ reg.more_aliases

abbrev pub get_or {ℓ} : {A : Type ℓ} → Option A → A → A
get_or none d = d
get_or (some a) d = a

abbrev pub no_overrides : Preset
no_overrides = record {
  disabled_reason = "";
  comparison_only = false;
  experimental = false;
  exclude_models = [];
  models = [];
}

-- `registry.get("presets", {"capacity": {}})`
abbrev pub presets : Registry → Dict Preset
presets reg = get_or reg.presets (("capacity", no_overrides) ∷ [])

-- `target[target.index(flag)+1] = value`; `none` where no argument follows the flag
pub set_after : String → String → List String → Option (List String)
set_after flag value [] = none
set_after flag value (x ∷ []) = none
set_after flag value (x ∷ y ∷ r) =
    let rest = set_after flag value (y ∷ r) in
    if str_eq x flag
    then some (x ∷ value ∷ r)
    else elim rest [ none ↦ none | some r' ↦ some (x ∷ r') ]

abbrev pub bad_replacement : String
bad_replacement = "preset argument replacement requires one existing flag and a string value"

abbrev store_args : Model → Bool → Option (List String) → Result Model
store_args m in_args none = err (raised bad_replacement)
store_args m in_args (some target) =
    ok (if in_args then record m { args = target } else record m { extra_args = some target })

-- one round of `for flag, value in override.get('set_args', {}).items()`
pub set_arg : List String → Model → String × String → Result Model
set_arg shared m (flag, value) =
    let extra = get_or m.extra_args shared in
    let in_args = member flag m.args in
    if not (starts_with flag "-")
      || not (count (str_eq flag) m.args + count (str_eq flag) extra == 1)
    then err (raised bad_replacement)
    else store_args m in_args (set_after flag value (if in_args then m.args else extra))

pub set_args : List String → Model → List (String × String) → Result Model
set_args shared m [] = ok m
set_args shared m (e ∷ es) = set_arg shared m e >>= λ m'. set_args shared m' es

-- `args.remove(flag)`: the first occurrence
pub remove_first : String → List String → List String
remove_first flag [] = []
remove_first flag (x ∷ r) = if str_eq flag x then r else x ∷ remove_first flag r

-- `while flag in args: args.remove(flag)`; each round shortens the list, so its length is fuel enough
pub remove_while : ℕ → String → List String → List String
remove_while zero flag args = args
remove_while (suc fuel) flag args =
    let rest = remove_while fuel flag (remove_first flag args) in
    if member flag args then rest else args

pub remove_flags : List String → List String → List String
remove_flags [] args = args
remove_flags (flag ∷ flags) args = remove_flags flags (remove_while (length args) flag args)

abbrev pub overridden : Override → Model → Result Model
overridden o m = ok (record m {
  args = remove_flags o.remove_flags m.args ++ o.append_args;
  context = get_or o.context m.context;
  slots = get_or o.slots m.slots;
  reserved = get_or o.reserved m.reserved;
})

-- the body of the loop over `presets[preset]["models"]`
pub apply_override : List String → Model → Override → Result Model
apply_override shared m o = set_args shared m o.set_args >>= overridden o

abbrev pub override_found :
    List String → Dict Model → String → Override → Option Model → Result (Dict Model)
override_found shared models k o none = err (raised "preset references unknown model")
override_found shared models k o (some m) =
    apply_override shared m o >>= λ m'. ok (insert k m' models)

pub apply_overrides : List String → Dict Model → Dict Override → Result (Dict Model)
apply_overrides shared models [] = ok models
apply_overrides shared models ((k, o) ∷ os) =
    override_found shared models k o (lookup k models) >>= λ models'.
    apply_overrides shared models' os

pub is_geometry : Model → Bool
is_geometry m = leb 1 m.slots && leb 4096 m.context && leb m.reserved m.slots

abbrev pub checked : Dict Model → Result (Dict Model)
checked models =
    require (all is_geometry (values models)) (raised "invalid context/slot/reservation geometry")
    >> ok models

abbrev pub preset_found : Registry → Option Preset → Result (Dict Model)
preset_found reg none = err (raised "unknown preset")
preset_found reg (some p) =
    require (str_eq p.disabled_reason "") (raised "preset unavailable")
    >> (apply_overrides reg.extra_args reg.models p.models >>= checked)

pub effective_models : Registry → String → Result (Dict Model)
effective_models reg preset = preset_found reg (lookup preset (presets reg))

-- Hermes primary models need 64000 client tokens and the 4096 margin
unfoldable pub fleet_capacity : ℕ → ℕ → ℕ → ℕ
fleet_capacity slots reserved context = if leb 68096 context then slots - reserved else 0
