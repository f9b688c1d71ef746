-- ===== src/Shared/Reserve/Budget.antt =====
-- What an admitted request leaves of the slots and of the context budget.
use lario_llms.Prelude.{
  ℕ, ◌-◌, ◌≤◌, String, ◌≡◌, refl, sym, ap, ◌∙◌, ◌⊎◌, inl, inr, Bool, true, false, not, Option, none,
  some, List, [], ◌∷◌, ◌++◌, if◌then◌else◌, str_eq, eq_refl, subst, length, select, select-append,
  length-append, total-append, count-append, values, Dict, lookup, insert, values-insert_new,
  has_key, Result, ok, err, require->>-eq-ok, arith, Bool-cases,
}
use lario_llms.Roles.{can_infer, is_interactive}
use lario_llms.Gateway.Reserve.{Caller}
use lario_llms.Shared.{
  Profile, Backend, Config, Request, Coordinator, Inspection, allocations, and_then, and_then-eq-ok,
  inspect, seen, start_load, check_load,
}
use lario_llms.Shared.Reserve.{
  Outside, resolve, remap, observe, check_caller, clears, cleared, clear_step, is_shared, charge,
  outsiders, capacity, ensure_load, entry, enter, orphans, budget, target, admit, admit_load,
  admit_budget, admit_clear, admit_seen, reserve_found, reserve,
}

-- the budgets of a backend, for the requests that are allocated to it
pub record Within (caller : Caller) (p : Profile) (b : Backend) (active : List Request)
    : Type 0 where
  pub slots : length active ≤ b.slots
  pub share : (is_interactive caller.role ≡ true) ⊎ (outsiders active ≤ b.slots - b.reserved)
  pub context : (is_shared p ≡ false) ⊎ (charge active ≤ b.context_tokens)

capacity-eq-ok :
    (caller : Caller) (identifier key : String) (p : Profile) (o : Option Backend)
    (active : List Request) (waits : Bool)
    → capacity caller p o active ≡ ok tt
    → (b : Backend) × (o ≡ some b)
      × Within caller p b (active ++ entry caller identifier key p waits ∷ [])
unfolding capacity
capacity-eq-ok caller identifier key p none active waits h = cc
capacity-eq-ok caller identifier key p (some b) active waits h =
    let new = entry caller identifier key p waits ∷ [] in
    (
      b,
      refl,
      record {
        slots = ground (arith, length-append active new);
        share =
            ground (arith, count-append (λ (r : Request). not (is_interactive r.role)) active new);
        context = ground (arith, total-append (λ (r : Request). r.context_tokens) active new);
      },
    )

allocations-insert :
    (identifier : String) (r : Request) (requests : Dict Request)
    → lookup identifier requests ≡ none
    → allocations r.backend_id (insert identifier r requests)
      ≡ allocations r.backend_id requests ++ r ∷ []
unfolding allocations
allocations-insert identifier r requests new = rw (values-insert_new identifier r requests new) (
    select-append (λ x. str_eq x.backend_id r.backend_id) (values requests) (r ∷ [])
    ∙ ap (λ xs. select (λ x. str_eq x.backend_id r.backend_id) (values requests) ++ xs)
        (rw (eq_refl r.backend_id) refl))

requests-seen :
    (r : Result (Dict ℕ)) (c d : Coordinator) → seen r c ≡ (ok tt, d) → d.requests ≡ c.requests
requests-seen (err e) c d h = cc
requests-seen (ok residents) c d h = sym (ap (λ x. x.1.requests) h)

remap-eq-ok :
    (r : Result (Unit {0}) × Coordinator) {d : Coordinator} → remap r ≡ (ok tt, d) → r ≡ (ok tt, d)
remap-eq-ok (err e, c) h = cc
remap-eq-ok (ok tt, c) h = h

requests-observe :
    (i : Inspection) (l : Option String) (c : Coordinator) {d : Coordinator}
    → observe i l c ≡ (ok tt, d)
    → d.requests ≡ c.requests
unfolding inspect
requests-observe i none c {d} h =
    requests-seen i.residents (record c { backends = i.backends }) d
      (remap-eq-ok (seen i.residents (record c { backends = i.backends })) h)
requests-observe i (some key) c h = sym (ap (λ x. x.1.requests) h)

-- the table and the backends are the same
abbrev Same : Coordinator → Coordinator → Type 0
Same c d = (d.requests ≡ c.requests) × (d.backends ≡ c.backends)

cleared-Same :
    (r : Result (Unit {0})) (c : Coordinator) {d : Coordinator}
    → cleared r c ≡ (ok tt, d)
    → Same c d
cleared-Same (err e) c h = cc
cleared-Same (ok tt) c h = (sym (ap (λ x. x.1.requests) h), sym (ap (λ x. x.1.backends) h))

clear_step-Same :
    (cfg : Config) (p : Profile) (erased : Result (Unit {0})) (c : Coordinator) {d : Coordinator}
    → clear_step cfg p erased c ≡ (ok tt, d)
    → Same c d
clear_step-Same cfg p erased c h = elim (Bool-cases (clears cfg p c)) [
  | inl clear ↦ cleared-Same erased c (rw clear at h)
  | inr keep ↦ let h' = rw keep at h in cleared-Same (ok tt) c h'
]

start_load-Same :
    (cfg : Config) (memory : Result ℕ) (key : String) (p : Profile) (c : Coordinator)
    {d : Coordinator}
    → start_load cfg memory key p c ≡ (ok tt, d)
    → Same c d
unfolding start_load
start_load-Same cfg memory key p c h =
    let (_, c', e, k) =
      and_then-eq-ok (check_load cfg memory p.backend_id p.context c, c)
        (λ _ c'. (ok tt, record c' { loading = some key })) h in
    let s = ap (λ x. x.1) k in
    let t = ap (λ x. x.1) e in
    (
      sym (ap (λ x. x.requests) s) ∙ sym (ap (λ x. x.requests) t),
      sym (ap (λ x. x.backends) s) ∙ sym (ap (λ x. x.backends) t),
    )

ensure_load-Same :
    (cfg : Config) (out : Outside) (key : String) (p : Profile) (c : Coordinator) {waits : Bool}
    {d : Coordinator}
    → ensure_load cfg out key p c ≡ (ok waits, d)
    → Same c d
ensure_load-Same cfg out key p c h = of_loading c.loading h
  where
    of_loading :
        (l : Option String) {waits : Bool} {d : Coordinator}
        → elim l [
          | some _ ↦ (ok true, c)
          | none ↦
              if has_key p.backend_id c.residents
              then (ok false, c)
              else and_then (start_load cfg out.memory key p c) (λ _ c'. (ok true, c'))
        ]
          ≡ (ok waits, d)
        → Same c d
    of_loading (some _) e = (sym (ap (λ x. x.1.requests) e), sym (ap (λ x. x.1.backends) e))
    of_loading none e = elim (Bool-cases (has_key p.backend_id c.residents)) [
      | inl there ↦
          let e' = rw there at e in
          (sym (ap (λ x. x.1.requests) e'), sym (ap (λ x. x.1.backends) e'))
      | inr absent ↦
          let (_, c', started, k) =
            and_then-eq-ok (start_load cfg out.memory key p c) (λ _ c'. (ok true, c'))
              (rw absent at e) in
          let s = start_load-Same cfg out.memory key p c started in
          (sym (ap (λ x. x.1.requests) k) ∙ s.0, sym (ap (λ x. x.1.backends) k) ∙ s.1)
    ]

-- the checks and the entry, for the profile that was found
record Entered (caller : Caller) (identifier key : String) (p : Profile) (c d : Coordinator)
    : Type 0 where
  waits : Bool
  backend : Backend
  found : lookup p.backend_id d.backends ≡ some backend
  within :
      Within caller p backend
        (allocations p.backend_id c.requests ++ entry caller identifier key p waits ∷ [])
  table : d.requests ≡ insert identifier (entry caller identifier key p waits) c.requests

admit-Entered :
    (cfg : Config) (out : Outside) (caller : Caller) (identifier key : String) (p : Profile)
    (c : Coordinator) {waits : Bool} {d : Coordinator}
    → admit cfg out caller identifier key p c ≡ (ok waits, d)
    → Entered caller identifier key p c d
admit-Entered cfg out caller identifier key p c {d = d} h =
    let (_, c₁, e₁, h₁) =
      and_then-eq-ok (orphans p c, c) (λ _ c'. admit_clear cfg out caller identifier key p c') h in
    let (_, c₂, e₂, h₂) =
      and_then-eq-ok (clear_step cfg p out.erased (record c₁ { uncertain = false }))
        (λ _ c'. admit_budget cfg out caller identifier key p c') h₁ in
    let (_, c₃, e₃, h₃) =
      and_then-eq-ok (budget caller p c₂, c₂)
        (λ _ c'. admit_load cfg out caller identifier key p c') h₂ in
    let (waits, c₄, e₄, h₄) =
      and_then-eq-ok (ensure_load cfg out key p c₃)
        (λ waits c'. enter caller identifier key p waits c') h₃ in
    let s₁ : c₁ ≡ c = sym (ap (λ x. x.1) e₁) in
    let s₂ : Same (record c₁ { uncertain = false }) c₂ =
      clear_step-Same cfg p out.erased (record c₁ { uncertain = false }) e₂ in
    let s₃ : c₃ ≡ c₂ = sym (ap (λ x. x.1) e₃) in
    let s₄ = ensure_load-Same cfg out key p c₃ e₄ in
    let requests : c₂.requests ≡ c.requests = s₂.0 ∙ ap (λ x. x.requests) s₁ in
    let (b, found, within) =
      capacity-eq-ok caller identifier key p (lookup p.backend_id c₂.backends)
        (allocations p.backend_id c₂.requests) waits (ap (λ x. x.0) e₃) in
    let backends : d.backends ≡ c₂.backends =
      sym (ap (λ x. x.1.backends) h₄) ∙ s₄.1 ∙ ap (λ x. x.backends) s₃ in
    let table : c₄.requests ≡ c.requests = s₄.0 ∙ ap (λ x. x.requests) s₃ ∙ requests in
    record {
      waits = waits;
      backend = b;
      found = ap (λ x. lookup p.backend_id x) backends ∙ found;
      within =
          subst
            (λ (x : Dict Request).
              Within caller p b
                (allocations p.backend_id x ++ entry caller identifier key p waits ∷ []))
            requests within;
      table =
          sym (ap (λ x. x.1.requests) h₄)
          ∙ ap (λ x. insert identifier (entry caller identifier key p waits) x) table;
    }

reserve_found-Entered :
    (cfg : Config) (out : Outside) (caller : Caller) (identifier key : String) (o : Option Profile)
    (c : Coordinator) {waits : Bool} {d : Coordinator}
    → reserve_found cfg out caller identifier key o c ≡ (ok waits, d)
    → (p : Profile) × (c' : Coordinator) × (o ≡ some p)
      × (c'.requests ≡ c.requests)
      × Entered caller identifier key p c' d
reserve_found-Entered cfg out caller identifier key none c h = cc
reserve_found-Entered cfg out caller identifier key (some p) c h =
    let (_, c₁, e₁, h₁) =
      and_then-eq-ok (check_caller cfg caller key p c, c)
        (λ _ c'. admit_seen cfg out caller identifier key p c') h in
    let (_, c₂, e₂, h₂) =
      and_then-eq-ok (observe out.inspection c₁.loading c₁)
        (λ _ c'. admit cfg out caller identifier key p c') h₁ in
    (
      p,
      c₂,
      refl,
      requests-observe out.inspection c₁.loading c₁ e₂ ∙ sym (ap (λ x. x.1.requests) e₁),
      admit-Entered cfg out caller identifier key p c₂ h₂,
    )

-- An admitted request stays within the budgets of its backend as the inspection left it: with it, the
-- requests allocated to the backend are at most its slots; if it is not interactive, those that are not
-- are at most the slots that are not reserved; and if the profile is of a shared pool, the contexts that
-- all of them reserve fit the backend's context together. (The identifier is new.)
pub reserve-Within :
    (cfg : Config) (out : Outside) (caller : Caller) (identifier requested : String)
    (c : Coordinator) {waits : Bool} {d : Coordinator}
    → lookup identifier c.requests ≡ none
    → reserve cfg out caller identifier requested c ≡ (ok waits, d)
    → (key : String) × (p : Profile) × (b : Backend) × (resolve cfg c requested ≡ ok key)
      × (lookup key cfg.profiles ≡ some p)
      × (lookup p.backend_id d.backends ≡ some b)
      × Within caller p b (allocations p.backend_id d.requests)
unfolding reserve
reserve-Within cfg out caller identifier requested c {d = d} new h =
    let (key, c₁, e₁, h₁) =
      and_then-eq-ok (target cfg caller requested c, c)
        (λ key c'. reserve_found cfg out caller identifier key (lookup key cfg.profiles) c') h in
    let (p, c', found, requests, e) =
      reserve_found-Entered cfg out caller identifier key (lookup key cfg.profiles) c₁ h₁ in
    let (_, aimed) =
      require->>-eq-ok (can_infer caller.role) _ (resolve cfg c requested) (ap (λ x. x.0) e₁) in
    let same : c'.requests ≡ c.requests = requests ∙ sym (ap (λ x. x.1.requests) e₁) in
    let grown =
      ap (allocations p.backend_id) e.table
      ∙ allocations-insert identifier (entry caller identifier key p e.waits) c'.requests
          (ap (lookup identifier) same ∙ new) in
    (
      key,
      p,
      e.backend,
      aimed,
      found,
      e.found,
      subst (Within caller p e.backend) (sym grown) e.within,
    )
