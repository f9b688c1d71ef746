-- ===== src/Registry/Effective.antt =====
-- What a preset can and cannot do to the registry (shared/modelctl.py, effective_models).
use lario_llms.Prelude.{
  String, ◌≡◌, ◌≢◌, refl, ◌∙◌, true, Option, none, some, List, [], ◌∷◌, arith, str_eq, eq_iff, all,
  member, Dict, lookup, insert, lookup-insert, lookup-cons-eq-none, keys-insert, keys, values, ok,
  ◌>>=◌, >>=-eq-ok, require->>-eq-ok,
}
use lario_llms.Registry.{
  Model, Override, Preset, Registry, presets, set_args, remove_flags, apply_override,
  apply_overrides, override_found, is_geometry, overridden, checked, preset_found, effective_models,
}
use lario_llms.Registry.Removal.{member-remove_flags, member-append}

preset_found-eq-ok :
    (reg : Registry) (p : Preset) {ms : Dict Model}
    → preset_found reg (some p) ≡ ok ms
    → (apply_overrides reg.extra_args reg.models p.models ≡ ok ms)
      × (all is_geometry (values ms) ≡ true)
preset_found-eq-ok reg p {ms} h =
    let applied = apply_overrides reg.extra_args reg.models p.models in
    let (_, run) = require->>-eq-ok (str_eq p.disabled_reason "") _ (applied >>= checked) h in
    let (found, same, kept) = >>=-eq-ok applied checked run in
    let (good, last) = require->>-eq-ok (all is_geometry (values found)) _ (ok found) kept in
    (cc, ground (arith, good, last))

override_found-eq-ok :
    (shared : List String) (models : Dict Model) (k : String) (o : Override) (m : Model)
    {ms : Dict Model}
    → override_found shared models k o (some m) ≡ ok ms
    → (m' : Model) × (apply_override shared m o ≡ ok m') × (ms ≡ insert k m' models)
override_found-eq-ok shared models k o m h =
    let (m', applied, done) =
      >>=-eq-ok (apply_override shared m o) (λ m'. ok (insert k m' models)) h in
    (m', applied, cc)

override_found-keys :
    (shared : List String) (models : Dict Model) (k : String) (o : Override) (m : Option Model)
    {ms : Dict Model}
    → lookup k models ≡ m
    → override_found shared models k o m ≡ ok ms
    → keys ms ≡ keys models
override_found-keys shared models k o none e h = cc
override_found-keys shared models k o (some m) e h =
    let (m', applied, done) = override_found-eq-ok shared models k o m h in
    rw done (keys-insert k m' m models e)

override_found-lookup :
    (shared : List String) (models : Dict Model) (k j : String) (o : Override) (m : Option Model)
    {ms : Dict Model}
    → k ≢ j
    → override_found shared models k o m ≡ ok ms
    → lookup j ms ≡ lookup j models
override_found-lookup shared models k j o none ne h = cc
override_found-lookup shared models k j o (some m) ne h =
    let (m', applied, done) = override_found-eq-ok shared models k o m h in
    rw done (ground (arith, lookup-insert k j m' models, eq_iff k j))

keys-apply_overrides :
    (shared : List String) (models : Dict Model) (os : Dict Override) {ms : Dict Model}
    → apply_overrides shared models os ≡ ok ms
    → keys ms ≡ keys models
unfolding apply_overrides
keys-apply_overrides shared models [] h = ground arith
keys-apply_overrides shared models ((k, o) ∷ os) h =
    let (models', found, rest) =
      >>=-eq-ok (override_found shared models k o (lookup k models))
        (λ ms. apply_overrides shared ms os) h in
    keys-apply_overrides shared models' os rest
    ∙ override_found-keys shared models k o (lookup k models) refl found

lookup-apply_overrides :
    (shared : List String) (models : Dict Model) (os : Dict Override) (j : String) {ms : Dict Model}
    → lookup j os ≡ none
    → apply_overrides shared models os ≡ ok ms
    → lookup j ms ≡ lookup j models
unfolding apply_overrides
lookup-apply_overrides shared models [] j e h = ground arith
lookup-apply_overrides shared models ((k, o) ∷ os) j e h =
    let (ne, e') = lookup-cons-eq-none k j o os e in
    let (models', found, rest) =
      >>=-eq-ok (override_found shared models k o (lookup k models))
        (λ ms. apply_overrides shared ms os) h in
    lookup-apply_overrides shared models' os j e' rest
    ∙ override_found-lookup shared models k j o (lookup k models) ne found

-- A preset that applies offers the registry's models, in the registry's order, and a model that it
-- does not override keeps every field.
pub effective_models-eq-ok :
    (reg : Registry) (preset : String) (p : Preset) (j : String) {ms : Dict Model}
    → lookup preset (presets reg) ≡ some p
    → lookup j p.models ≡ none
    → effective_models reg preset ≡ ok ms
    → (keys ms ≡ keys reg.models) × (lookup j ms ≡ lookup j reg.models)
unfolding effective_models
effective_models-eq-ok reg preset p j e out h =
    let applied = (preset_found-eq-ok reg p (rw e at h)).0 in
    (
      keys-apply_overrides reg.extra_args reg.models p.models applied,
      lookup-apply_overrides reg.extra_args reg.models p.models j out applied,
    )

-- A flag that a preset removes is among a model's arguments afterwards exactly if the preset appends it.
pub apply_override-removed :
    (shared : List String) (m : Model) (o : Override) (flag : String) {m' : Model}
    → apply_override shared m o ≡ ok m'
    → member flag o.remove_flags ≡ true
    → member flag m'.args ≡ member flag o.append_args
unfolding apply_override
apply_override-removed shared m o flag h removed =
    let (m₁, replaced, done) = >>=-eq-ok (set_args shared m o.set_args) (overridden o) h in
    ground (
      arith,
      done,
      member-append flag (remove_flags o.remove_flags m₁.args) o.append_args,
      member-remove_flags flag o.remove_flags m₁.args,
    )
