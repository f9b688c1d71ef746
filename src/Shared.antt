-- ===== src/Shared.antt =====
-- shared/serving/shared_gateway.py and fit_context of shared/serving/headroom.py: the coordinator of a card
-- that holds several backends at once, each of which shares its context between requests. This file has
-- its state and the checks; Shared/Reserve has the requests. Amounts of memory are bytes.
pub mod Load
pub mod Reserve
pub mod Examples
use lario_llms.Prelude.{
  ℕ, ◌+◌, ◌-◌, ◌*◌, ◌/◌, String, ◌≡◌, refl, Bool, true, false, not, ◌&&◌, ◌||◌, Option, none, some,
  List, [], ◌∷◌, if◌then◌else◌, str_eq, ltb, leb, min, max, length, any, count, total, select,
  member, Dict, lookup, has_key, keys, values, Fault, Result, ok, err, http, raised, ◌>>=◌, ◌>>◌,
  require,
}
use lario_llms.Registry.{get_or}
use lario_llms.Roles.{Role}
use lario_llms.Gateway.{Policy, Phase, loading, running}

-- A compiled profile: `pool` is its shared pool.
pub record Profile : Type 0 where
  pub id : String
  pub model : String
  pub backend_id : String
  pub context : ℕ
  pub pool : Option String

-- `allocation` is none for a workload without a measured memory contract.
pub record Backend : Type 0 where
  pub slots : ℕ
  pub reserved : ℕ
  pub context_tokens : ℕ
  pub allocation : Option ℕ
  pub pool : Option String

pub record Pool : Type 0 where
  pub context_tokens : ℕ
  pub min_context : ℕ
  pub weight : ℕ
  pub runtime_reserve : ℕ
  pub kv_bytes_per_token : ℕ
  pub clear_idle : Option Bool

-- `probed` tells whether the coordinator was made with a probe.
pub record Config : Type 0 where
  pub profiles : Dict Profile
  pub enabled_models : Option (List String)
  pub pools : Dict Pool
  pub reserve : ℕ
  pub memory_budget : ℕ
  pub clear_idle : Bool
  pub probed : Bool

pub record Request : Type 0 where
  pub id : String
  pub profile_id : String
  pub backend_id : String
  pub context_tokens : ℕ
  pub role : Role
  pub client : String
  pub run_id : String
  pub run_key : String
  pub instance_id : String
  pub phase : Phase

-- `residents` maps a resident backend to its busy slots.
pub record Coordinator : Type 0 where
  pub policy : Policy
  pub marker : Bool
  pub uncertain : Bool
  pub requests : Dict Request
  pub loading : Option String
  pub last_error : Option String
  pub cancelled : List String
  pub backends : Dict Backend
  pub residents : Dict ℕ

-- What `inspect` read: the backends with the measures of their manifests, and the residents. A failure may
-- come after some manifests were read.
pub record Inspection : Type 0 where
  pub backends : Dict Backend
  pub residents : Result (Dict ℕ)

abbrev pub touch : Coordinator → Coordinator
touch c = record c { policy = record c.policy { revision = c.policy.revision + 1 } }

unfoldable pub allocations : String → Dict Request → List Request
allocations backend requests = select (λ r. str_eq r.backend_id backend) (values requests)

abbrev pub is_running : Phase → Bool
is_running running = true
is_running loading = false

abbrev pub tracked : String → Coordinator → ℕ
tracked backend c = count (λ r. is_running r.phase) (allocations backend c.requests)

-- A step that may fail keeps what it wrote before.
abbrev pub and_then {ℓ κ} :
    {A : Type ℓ} {B : Type κ}
    → Result A × Coordinator
    → (A → Coordinator → Result B × Coordinator)
    → Result B × Coordinator
and_then (err e, c) k = (err e, c)
and_then (ok a, c) k = k a c

pub and_then-eq-ok {ℓ κ} :
    {A : Type ℓ} {B : Type κ} (r : Result A × Coordinator)
    (k : A → Coordinator → Result B × Coordinator) {b : B} {d : Coordinator}
    → and_then r k ≡ (ok b, d)
    → (a : A) × (c : Coordinator) × (r ≡ (ok a, c)) × (k a c ≡ (ok b, d))
and_then-eq-ok (err e, c) k h = cc
and_then-eq-ok (ok a, c) k h = (a, c, refl, h)

-- the end of `inspect`
abbrev pub seen : Result (Dict ℕ) → Coordinator → Result (Unit {0}) × Coordinator
seen (err e) c = (err e, c)
seen (ok residents) c = (
  ok tt,
  record c {
    residents = residents;
    uncertain = any (λ (k, busy). ltb (tracked k c) busy) residents;
  },
)

unfoldable pub inspect : Inspection → Coordinator → Result (Unit {0}) × Coordinator
inspect i c = seen i.residents (record c { backends = i.backends })

-- the set of texts `ids.add(k)`
abbrev pub add : String → List String → List String
add k ids = if member k ids then ids else k ∷ ids

abbrev pub backend_of : Config → Option String → Option String
backend_of cfg none = none
backend_of cfg (some key) = elim (lookup key cfg.profiles) [
  | none ↦ none
  | some p ↦ some p.backend_id
]

abbrev pub add_loading : Option String → List String → List String
add_loading none ids = ids
add_loading (some backend) ids = add backend ids

-- the backends that would share the card
abbrev pub together : Config → String → Coordinator → List String
together cfg key c = add key (add_loading (backend_of cfg c.loading) (keys c.residents))

abbrev pub allocation_of : Coordinator → String → Option ℕ
allocation_of c k = elim (lookup k c.backends) [ none ↦ none | some b ↦ b.allocation ]

abbrev pub is_unmeasured : Coordinator → String → Bool
is_unmeasured c k = elim (allocation_of c k) [ none ↦ true | some _ ↦ false ]

unfoldable pub used_memory : Config → Coordinator → List String → ℕ
used_memory cfg c ids = cfg.reserve + total (λ k. get_or (allocation_of c k) 0) ids

-- headroom.py
unfoldable pub fit_context : Pool → ℕ → ℕ → ℕ
fit_context pool free_bytes reserve =
    let free = free_bytes - (reserve + pool.weight + pool.runtime_reserve) in
    min pool.context_tokens (free / pool.kv_bytes_per_token / 4096 * 4096)

abbrev pub pool_of : Config → Option String → Option Pool
pool_of cfg none = none
pool_of cfg (some name) = lookup name cfg.pools

-- the part of `check_load` that reads the free memory
abbrev pub headroom : Config → Option Pool → ℕ → Result ℕ → Result (Unit {0})
headroom cfg none required memory = err (raised "KeyError")
headroom cfg (some pool) required (err _) = err (http 503 "memory_headroom_unavailable")
headroom cfg (some pool) required (ok free_bytes) =
    require (not (ltb (fit_context pool free_bytes cfg.reserve) (max pool.min_context required)))
      (http 429 "measured_memory_headroom_exhausted")

abbrev pub check_backend :
    Config → Result ℕ → String → ℕ → Coordinator → Option Backend → Result (Unit {0})
check_backend cfg memory key required c none = err (raised "KeyError")
check_backend cfg memory key required c (some b) =
    let ids = together cfg key c in
    require (not (ltb 1 (length ids) && any (is_unmeasured c) ids))
      (http 409 "exclusive_backend_resident_unload_first")
    >> (require (not (ltb cfg.memory_budget (used_memory cfg c ids)))
          (http 429 "resident_memory_budget_exhausted")
        >> (if is_unmeasured c key || cfg.probed
            then ok tt
            else headroom cfg (pool_of cfg b.pool) required memory))

-- `memory` is what `read_memory` gives
unfoldable pub check_load : Config → Result ℕ → String → ℕ → Coordinator → Result (Unit {0})
check_load cfg memory key required c =
    if has_key key c.residents
    then ok tt
    else check_backend cfg memory key required c (lookup key c.backends)

abbrev pub is_enabled : Option (List String) → String → Bool
is_enabled none model = true
is_enabled (some models) model = member model models

unfoldable pub check_profile : Config → String → Profile → Coordinator → Result (Unit {0})
check_profile cfg key p c =
    require (not (c.marker || c.policy.paused || member key c.policy.disabled))
      (http 423 "hardware_or_profile_disabled")
    >> require (is_enabled cfg.enabled_models p.model) (http 423 "profile_validation_pending")

unfoldable pub start_load :
    Config → Result ℕ → String → Profile → Coordinator → Result (Unit {0}) × Coordinator
start_load cfg memory key p c =
    and_then (check_load cfg memory p.backend_id p.context c, c)
      (λ _ c'. (ok tt, record c' { loading = some key }))
