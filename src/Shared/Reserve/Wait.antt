-- ===== src/Shared/Reserve/Wait.antt =====
-- The check after the wait: the budget of a backend may have become smaller while it was loaded.
use lario_llms.Prelude.{
  ◌≤◌, String, ◌≡◌, refl, sym, ap, ◌⊎◌, Bool, true, false, not, ◌||◌, Option, none, some, List, [],
  ◌∷◌, str_eq, any, member, lookup, insert, Result, ok, err, ◌>>◌, require->>-eq-ok, arith,
}
use lario_llms.Gateway.{running}
use lario_llms.Shared.{Profile, Backend, Config, Request, Coordinator, allocations, check_profile}
use lario_llms.Shared.Reserve.{is_shared, prefix_charge, fits_prefix, run_entry, settle, resume}

-- the ids of the table differ
abbrev pub Distinct : List Request → Type 0
Distinct [] = Unit
Distinct (r ∷ rs) = (any (λ (x : Request). str_eq x.id r.id) rs ≡ false) × Distinct rs

settle-eq-ok :
    (identifier : String) (w : Result (Unit {0})) (c : Coordinator) {d : Coordinator}
    → settle identifier w c ≡ (ok tt, d)
    → (w ≡ ok tt)
      × (r : Request) × (lookup identifier c.requests ≡ some r)
      × (d ≡ record c { requests = insert identifier (record r { phase = running }) c.requests })
settle-eq-ok identifier (err e) c h = cc
settle-eq-ok identifier (ok tt) c h = of_entry (lookup identifier c.requests) refl h
  where
    of_entry :
        (o : Option Request) {d : Coordinator}
        → lookup identifier c.requests ≡ o
        → run_entry identifier o c ≡ (ok tt, d)
        → (ok tt ≡ ok tt)
          × (r : Request) × (lookup identifier c.requests ≡ some r)
          × (d
              ≡ record c { requests = insert identifier (record r { phase = running }) c.requests })
    of_entry none e k = cc
    of_entry (some r) e k = (refl, r, e, sym (ap (λ x. x.1) k))

fits_prefix-eq-ok :
    (identifier : String) (p : Profile) (o : Option Backend) (c : Coordinator)
    → fits_prefix identifier p o c ≡ ok tt
    → (b : Backend) × (o ≡ some b)
      × ((is_shared p ≡ false)
          ⊎ (prefix_charge identifier (allocations p.backend_id c.requests) ≤ b.context_tokens))
fits_prefix-eq-ok identifier p none c h = cc
fits_prefix-eq-ok identifier p (some b) c h = (b, refl, ground arith)

seq-eq-ok : (m k : Result (Unit {0})) → (m >> k) ≡ ok tt → (m ≡ ok tt) × (k ≡ ok tt)
seq-eq-ok (err e) k h = cc
seq-eq-ok (ok tt) k h = (refl, h)

check_profile-eq-ok :
    (cfg : Config) (key : String) (p : Profile) (c : Coordinator)
    → check_profile cfg key p c ≡ ok tt
    → (c.marker ≡ false) × (c.policy.paused ≡ false) × (member key c.policy.disabled ≡ false)
unfolding check_profile
check_profile-eq-ok cfg key p c h =
    let (open_, _) =
      require->>-eq-ok (not (c.marker || c.policy.paused || member key c.policy.disabled)) _ _ h in
    (ground (arith, open_), ground (arith, open_), ground (arith, open_))

-- After the wait a request runs only if the load went well, the hardware is on and not paused, the profile
-- is not disabled, the request is still in the table, and in a shared pool its context and those before
-- it in the table fit the backend's context. It then is marked as running, and nothing else changes.
pub resume-eq-ok :
    (cfg : Config) (identifier key : String) (p : Profile) (waited : Result (Unit {0}))
    (c : Coordinator) {d : Coordinator}
    → resume cfg identifier key p waited c ≡ (ok tt, d)
    → (waited ≡ ok tt)
      × (c.marker ≡ false)
      × (c.policy.paused ≡ false)
      × (member key c.policy.disabled ≡ false)
      × ((b : Backend) × (lookup p.backend_id c.backends ≡ some b)
          × ((is_shared p ≡ false)
              ⊎ (prefix_charge identifier (allocations p.backend_id c.requests)
                  ≤ b.context_tokens)))
      × ((r : Request) × (lookup identifier c.requests ≡ some r)
          × (d ≡ record c {
            requests = insert identifier (record r { phase = running }) c.requests;
          }))
unfolding resume
resume-eq-ok cfg identifier key p waited c h =
    let prefix = fits_prefix identifier p (lookup p.backend_id c.backends) c in
    let (passed, r, there, after) =
      settle-eq-ok identifier (waited >> (check_profile cfg key p c >> prefix)) c h in
    let (loaded, checks) = seq-eq-ok waited (check_profile cfg key p c >> prefix) passed in
    let (profile, fits) = seq-eq-ok (check_profile cfg key p c) prefix checks in
    let (on, unpaused, enabled) = check_profile-eq-ok cfg key p c profile in
    (
      loaded,
      on,
      unpaused,
      enabled,
      fits_prefix-eq-ok identifier p (lookup p.backend_id c.backends) c fits,
      (r, there, after),
    )

abbrev pub is_ok : Result (Unit {0}) → Bool
is_ok (ok _) = true
is_ok (err _) = false
