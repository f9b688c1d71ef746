-- ===== src/Shared/Load.antt =====
-- When a backend may be loaded and unloaded (activate_shared, unload_shared, activation).
pub mod Memory
pub mod Unload
use lario_llms.Prelude.{
  ℕ, ◌+◌, ◌≤◌, String, ◌≡◌, refl, ◌⊎◌, inl, inr, Bool, true, false, not, ◌&&◌, ◌||◌, Option, none,
  some, List, [], ◌∷◌, if◌then◌else◌, leb, ltb, max, length, any, All, Dict, lookup, has_key, Fault,
  Result, ok, err, http, raised, ◌>>◌, require, require->>-eq-ok, arith, Bool-cases,
}
use lario_llms.Shared.{
  Profile, Backend, Pool, Config, Request, Coordinator, Inspection, touch, allocations, and_then,
  inspect, together, allocation_of, is_unmeasured, used_memory, check_backend, check_load,
  check_profile, start_load, headroom, pool_of, fit_context,
}

abbrev pub activate_found :
    Config
    → Result ℕ
    → Inspection
    → String
    → Option Profile
    → Coordinator
    → Result (Unit {0}) × Coordinator
activate_found cfg memory i key none c = (err (http 404 "unknown_profile"), c)
activate_found cfg memory i key (some p) c =
    and_then
      (
        check_profile cfg key p c
            >> require (elim c.loading [ none ↦ true | some _ ↦ false ])
                (http 409 "profile_loading"),
        c,
      )
      (λ _ c₁. and_then (inspect i c₁) (λ _ c₂.
        if has_key p.backend_id c₂.residents
        then (ok tt, c₂)
        else and_then (start_load cfg memory key p c₂) (λ _ c₃. (ok tt, touch c₃))))

unfoldable pub activate_shared :
    Config → Result ℕ → Inspection → String → Coordinator → Result (Unit {0}) × Coordinator
activate_shared cfg memory i key c = activate_found cfg memory i key (lookup key cfg.profiles) c

abbrev pub is_in_use : String → Coordinator → Bool
is_in_use backend c =
    elim c.loading [ none ↦ false | some _ ↦ true ]
    || leb 1 (length (allocations backend c.requests))
    || elim (lookup backend c.residents) [ none ↦ false | some busy ↦ leb 1 busy ]

-- `posted` is the outcome of the unload request, `again` of the inspection after it
abbrev pub confirm_unload : String → Inspection → Coordinator → Result (Unit {0}) × Coordinator
confirm_unload backend again c = and_then (inspect again c) (λ _ c'.
    (require (not (has_key backend c'.residents)) (http 503 "backend_unload_unconfirmed"), c'))

abbrev pub unload_resident :
    String → Result (Unit {0}) → Inspection → Coordinator → Result (Unit {0}) × Coordinator
unload_resident backend posted again c =
    if has_key backend c.residents
    then and_then (posted, c) (λ _ c'. confirm_unload backend again c')
    else (ok tt, c)

abbrev pub unload_idle :
    String → Result (Unit {0}) → Inspection → Coordinator → Result (Unit {0}) × Coordinator
unload_idle backend posted again c =
    and_then (unload_resident backend posted again c) (λ _ c'. (ok tt, touch c'))

abbrev pub unload_seen :
    String → Result (Unit {0}) → Inspection → Coordinator → Result (Unit {0}) × Coordinator
unload_seen backend posted again c =
    and_then (require (not (is_in_use backend c)) (http 409 "backend_busy"), c)
      (λ _ c'. unload_idle backend posted again c')

abbrev pub unload_found :
    Inspection
    → Result (Unit {0})
    → Inspection
    → Option Profile
    → Coordinator
    → Result (Unit {0}) × Coordinator
unload_found i posted again none c = (err (http 404 "unknown_profile"), c)
unload_found i posted again (some p) c =
    and_then (inspect i c) (λ _ c'. unload_seen p.backend_id posted again c')

unfoldable pub unload_shared :
    Config
    → Inspection
    → Result (Unit {0})
    → Inspection
    → String
    → Coordinator
    → Result (Unit {0}) × Coordinator
unload_shared cfg i posted again key c = unload_found i posted again (lookup key cfg.profiles) c

-- `activation` before its `finally`; `loaded` is the outcome of `_load`
abbrev pub fail_load : Fault → Coordinator → Result (Unit {0}) × Coordinator
fail_load e c =
    (err e, record c { uncertain = true; last_error = some "Shared backend activation failed" })

abbrev pub confirm_load :
    String → String → Result (Unit {0}) × Coordinator → Result (Unit {0}) × Coordinator
confirm_load key backend (err e, c) = fail_load e c
confirm_load key backend (ok _, c) =
    if has_key backend c.residents
    then (
      ok tt,
      record c {
        policy = record c.policy { last_profile = some key; revision = c.policy.revision + 1 };
        last_error = none;
      },
    )
    else fail_load (raised "shared backend did not become resident") c

unfoldable pub activate :
    Result (Unit {0})
    → Inspection
    → String
    → Profile
    → Coordinator
    → Result (Unit {0}) × Coordinator
activate (err e) i key p c = fail_load e c
activate (ok _) i key p c = confirm_load key p.backend_id (inspect i c)

unfoldable pub end_activation : Coordinator → Coordinator
end_activation c = record c { loading = none }
