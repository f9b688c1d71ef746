-- ===== src/Shared/Load/Unload.antt =====
-- What an unload finds and leaves (unload_shared of shared/serving/shared_gateway.py).
use lario_llms.Prelude.{
  String, ◌≡◌, refl, sym, ap, ◌∙◌, ◌⊎◌, inl, inr, false, not, Option, none, some, [], lookup,
  has_key, Result, ok, http, require, require-eq-ok, arith, Bool-cases,
}
use lario_llms.Gateway.Reserve.Exclusive.{empty-of-length}
use lario_llms.Shared.{
  Profile, Config, Coordinator, Inspection, touch, allocations, and_then-eq-ok, inspect,
}
use lario_llms.Shared.Load.{
  is_in_use, confirm_unload, unload_idle, unload_seen, unload_resident, unload_found, unload_shared,
}

not-in-use :
    (backend : String) (c : Coordinator)
    → is_in_use backend c ≡ false
    → (c.loading ≡ none)
      × (allocations backend c.requests ≡ [])
      × ((lookup backend c.residents ≡ none) ⊎ (lookup backend c.residents ≡ some 0))
not-in-use backend c h =
    (ground arith, empty-of-length (allocations backend c.requests) (ground arith), ground arith)

confirm_unload-eq-ok :
    (backend : String) (again : Inspection) (c : Coordinator) {d : Coordinator}
    → confirm_unload backend again c ≡ (ok tt, d)
    → has_key backend d.residents ≡ false
confirm_unload-eq-ok backend again c h =
    let (_, c', e, k) =
      and_then-eq-ok (inspect again c)
        (λ _ c'. (
          require (not (has_key backend c'.residents)) (http 503 "backend_unload_unconfirmed"),
          c',
        ))
        h in
    let gone = require-eq-ok (not (has_key backend c'.residents)) _ (ap (λ x. x.0) k) in
    rw (sym (ap (λ x. x.1) k)) (ground (arith, gone))

unload_resident-eq-ok :
    (backend : String) (posted : Result (Unit {0})) (again : Inspection) (c : Coordinator)
    {d : Coordinator}
    → unload_resident backend posted again c ≡ (ok tt, d)
    → has_key backend d.residents ≡ false
unload_resident-eq-ok backend posted again c h = elim (Bool-cases (has_key backend c.residents)) [
  | inl there ↦
      let (_, c', e, k) =
        and_then-eq-ok (posted, c) (λ _ c'. confirm_unload backend again c') (rw there at h) in
      confirm_unload-eq-ok backend again c' k
  | inr absent ↦ let h' = rw absent at h in rw (sym (ap (λ x. x.1) h')) absent
]

-- what an unload found and left
pub record Unloaded (backend : String) (found left : Coordinator) : Type 0 where
  pub still : found.loading ≡ none
  pub unallocated : allocations backend found.requests ≡ []
  pub idle : (lookup backend found.residents ≡ none) ⊎ (lookup backend found.residents ≡ some 0)
  pub gone : has_key backend left.residents ≡ false

unload_seen-Unloaded :
    (backend : String) (posted : Result (Unit {0})) (again : Inspection) (c : Coordinator)
    {d : Coordinator}
    → unload_seen backend posted again c ≡ (ok tt, d)
    → Unloaded backend c d
unload_seen-Unloaded backend posted again c h =
    let (_, c₁, e₁, h₁) =
      and_then-eq-ok (require (not (is_in_use backend c)) (http 409 "backend_busy"), c)
        (λ _ c'. unload_idle backend posted again c') h in
    let (_, c₂, e₂, h₂) =
      and_then-eq-ok (unload_resident backend posted again c₁) (λ _ c'. (ok tt, touch c')) h₁ in
    let free = require-eq-ok (not (is_in_use backend c)) _ (ap (λ x. x.0) e₁) in
    let (still, unallocated, idle) = not-in-use backend c (ground (arith, free)) in
    record {
      still = still;
      unallocated = unallocated;
      idle = idle;
      gone =
          ap (has_key backend) (sym (ap (λ x. x.1.residents) h₂))
          ∙ unload_resident-eq-ok backend posted again c₁ e₂;
    }

-- An unload succeeds only if the inspection before it found no load running, no request allocated to the
-- backend and no busy slot of it, and the inspection after it no longer found the backend.
pub unload_shared-Unloaded :
    (cfg : Config) (i again : Inspection) (posted : Result (Unit {0})) (key : String)
    (c : Coordinator) {d : Coordinator}
    → unload_shared cfg i posted again key c ≡ (ok tt, d)
    → (p : Profile) × (found : Coordinator) × (lookup key cfg.profiles ≡ some p)
      × (inspect i c ≡ (ok tt, found))
      × Unloaded p.backend_id found d
unfolding unload_shared
unload_shared-Unloaded cfg i again posted key c h = of_profile (lookup key cfg.profiles) refl h
  where
    of_profile :
        (o : Option Profile) {d : Coordinator}
        → lookup key cfg.profiles ≡ o
        → unload_found i posted again o c ≡ (ok tt, d)
        → (p : Profile) × (found : Coordinator) × (lookup key cfg.profiles ≡ some p)
          × (inspect i c ≡ (ok tt, found))
          × Unloaded p.backend_id found d
    of_profile none e k = cc
    of_profile (some p) e k =
        let (_, c₁, e₁, k₁) =
          and_then-eq-ok (inspect i c) (λ _ c'. unload_seen p.backend_id posted again c') k in
        (p, c₁, e, e₁, unload_seen-Unloaded p.backend_id posted again c₁ k₁)
