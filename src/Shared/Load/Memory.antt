-- ===== src/Shared/Load/Memory.antt =====
-- The memory that a load may take.
use native.Mathlib.Nat.{div-mul-le_self, div-le_self, mul-le-mul_right}
use lario_llms.Prelude.{
  ℕ, ◌+◌, ◌-◌, ◌*◌, ◌/◌, ◌<◌, ◌≤◌, String, ◌≡◌, refl, ◌≢◌, List, ◌∷◌, ◌||◌, str_eq, eq_iff, total,
  member, keys, Dict, sym, ap, ◌∙◌, ◌⊎◌, inl, inr, true, false, not, ◌&&◌, if◌then◌else◌, Option,
  none, some, [], ltb, min, length, any, lookup, has_key, Result, ok, require->>-eq-ok, arith,
  Bool-cases,
}
use lario_llms.Shared.{
  Profile, Backend, Pool, Config, Coordinator, and_then-eq-ok, together, is_unmeasured, add,
  add_loading, backend_of, allocation_of, used_memory, check_backend, check_load, start_load,
  fit_context,
}
use lario_llms.Registry.{get_or}

cache-le :
    (free need kv cap : ℕ)
    → 0 < min cap ((free - need) / kv / 4096 * 4096)
    → need + min cap ((free - need) / kv / 4096 * 4096) * kv ≤ free
cache-le free need kv cap h =
    let q = (free - need) / kv in
    let k = min cap (q / 4096 * 4096) in
    let small : k ≤ q = ground (arith, div-mul-le_self q 4096) in
    let paid : k * kv ≤ free - need =
      omega (arith, mul-le-mul_right kv small, div-mul-le_self (free - need) kv) in
    omega (arith, h, small, paid, div-le_self (free - need) kv)

-- A context that fits is at most the pool's, and leaves room for the reserve, the weights and the runtime
-- beside its own cache.
pub fit_context-le :
    (pool : Pool) (free_bytes reserve : ℕ)
    → 0 < fit_context pool free_bytes reserve
    → (fit_context pool free_bytes reserve ≤ pool.context_tokens)
      × (reserve
            + pool.weight
            + pool.runtime_reserve
            + fit_context pool free_bytes reserve * pool.kv_bytes_per_token
          ≤ free_bytes)
unfolding fit_context
fit_context-le pool free_bytes reserve h = (
  ground arith,
  cache-le free_bytes (reserve + pool.weight + pool.runtime_reserve) pool.kv_bytes_per_token
      pool.context_tokens h,
)

-- a backend that is to share the card: the one that is loaded, one that loads already, or a resident
abbrev pub Shares : Config → String → Coordinator → String → Type 0
Shares cfg key c k =
    (k ≡ key) ⊎ (backend_of cfg c.loading ≡ some k) ⊎ (has_key k c.residents ≡ true)

-- A list with all of these fits the card: the reserve and the measured allocations are within the budget.
pub record Fits (cfg : Config) (key : String) (c : Coordinator) : Type 0 where
  pub backends : List String
  pub has_all : (k : String) → Shares cfg key c k → member k backends ≡ true
  pub memory : cfg.reserve + total (λ k. get_or (allocation_of c k) 0) backends ≤ cfg.memory_budget
  pub measured :
      (length backends ≤ 1) ⊎ ((k : String) → member k backends ≡ true → allocation_of c k ≢ none)

member-add : (k x : String) (xs : List String) → member k (add x xs) ≡ (str_eq k x || member k xs)
member-add k x xs = elim (Bool-cases (member x xs)) [
  | inr new ↦ rw new refl
  | inl there ↦ rw there (elim (Bool-cases (str_eq k x)) [
    | inr other ↦ rw other refl
    | inl same ↦ rw same (ap (λ y. member y xs) ((eq_iff k x).0 same) ∙ there)
  ])
]

member-keys : (k : String) (d : Dict ℕ) → has_key k d ≡ true → member k (keys d) ≡ true
unfolding lookup
member-keys k [] h = cc
member-keys k ((j, n) ∷ d) h = elim (Bool-cases (str_eq j k)) [
  | inl same ↦ ground (arith, eq_iff j k, eq_iff k j, same)
  | inr other ↦
      let later : has_key k d ≡ true = later_key other h in ground (arith, member-keys k d later)
]
  where
    later_key :
        str_eq j k ≡ false
        → elim (if str_eq j k then some n else lookup k d) [ none ↦ false | some _ ↦ true ] ≡ true
        → has_key k d ≡ true
    later_key e p = rw e at p

member-together :
    (cfg : Config) (key : String) (c : Coordinator) (k : String)
    → Shares cfg key c k
    → member k (together cfg key c) ≡ true
member-together cfg key c k h =
    member-add k key (add_loading (backend_of cfg c.loading) (keys c.residents)) ∙ cases h
  where
    rest :
        (o : Option String)
        → (o ≡ some k) ⊎ (has_key k c.residents ≡ true)
        → member k (add_loading o (keys c.residents)) ≡ true
    rest none (inl e) = cc
    rest none (inr e) = member-keys k c.residents e
    rest (some backend) (inl e) =
        let same : str_eq k backend ≡ true = (eq_iff k backend).1 (ap (λ o. get_or o k) (sym e)) in
        member-add k backend (keys c.residents) ∙ ground (arith, same)
    rest (some backend) (inr e) =
        member-add k backend (keys c.residents) ∙ ground (arith, member-keys k c.residents e)

    cases :
        Shares cfg key c k
        → (str_eq k key || member k (add_loading (backend_of cfg c.loading) (keys c.residents)))
          ≡ true
    cases (inl same) = ground (arith, (eq_iff k key).1 same)
    cases (inr other) = ground (arith, rest (backend_of cfg c.loading) other)

measured-member :
    (c : Coordinator) (k : String) (ids : List String)
    → any (is_unmeasured c) ids ≡ false
    → member k ids ≡ true
    → allocation_of c k ≢ none
measured-member c k [] h m = cc
measured-member c k (x ∷ ids) h m = elim (Bool-cases (str_eq k x)) [
  | inl same ↦ λ missing.
      let here : is_unmeasured c x ≡ true =
        ap (is_unmeasured c) (sym ((eq_iff k x).0 same))
        ∙ ap (λ o. elim o [ none ↦ true | some _ ↦ false ]) missing in
      ground (arith, here)
  | inr other ↦ measured-member c k ids (ground arith) (ground (arith, other))
]

used_memory-le :
    (cfg : Config) (c : Coordinator) (ids : List String)
    → not (ltb cfg.memory_budget (used_memory cfg c ids)) ≡ true
    → cfg.reserve + total (λ k. get_or (allocation_of c k) 0) ids ≤ cfg.memory_budget
unfolding used_memory
used_memory-le cfg c ids h = ground (arith, h)

check_backend-Fits :
    (cfg : Config) (memory : Result ℕ) (key : String) (required : ℕ) (c : Coordinator)
    (o : Option Backend)
    → check_backend cfg memory key required c o ≡ ok tt
    → Fits cfg key c
check_backend-Fits cfg memory key required c none h = cc
check_backend-Fits cfg memory key required c (some b) h =
    let ids = together cfg key c in
    let (alone, h₁) =
      require->>-eq-ok (not (ltb 1 (length ids) && any (is_unmeasured c) ids)) _ _ h in
    let (room, h₂) =
      require->>-eq-ok (not (ltb cfg.memory_budget (used_memory cfg c ids))) _ _ h₁ in
    record {
      backends = ids;
      has_all = member-together cfg key c;
      memory = used_memory-le cfg c ids room;
      measured = elim (Bool-cases (ltb 1 (length ids))) [
        | inl many ↦ inr (λ k listed. measured-member c k ids (ground (arith, alone, many)) listed)
        | inr one ↦ inl (ground (arith, one))
      ];
    }

check_load-Fits :
    (cfg : Config) (memory : Result ℕ) (key : String) (required : ℕ) (c : Coordinator)
    → check_load cfg memory key required c ≡ ok tt
    → (has_key key c.residents ≡ true) ⊎ Fits cfg key c
unfolding check_load
check_load-Fits cfg memory key required c h = elim (Bool-cases (has_key key c.residents)) [
  | inl there ↦ inl there
  | inr absent ↦
      inr (check_backend-Fits cfg memory key required c (lookup key c.backends) (rw absent at h))
]

abbrev pub with_load : String → Coordinator → Coordinator
with_load key c = record c { loading = some key }

-- A load is started only of a backend that fits: it is already resident, or there is a list of backends that has it,
-- the backend of a running load and every resident, in which the card's reserve and the measured allocations
-- are within the memory budget together, and which has more than one only if all are measured. The load is
-- then of this profile, and nothing else changes.
pub start_load-Fits :
    (cfg : Config) (memory : Result ℕ) (key : String) (p : Profile) (c : Coordinator)
    {d : Coordinator}
    → start_load cfg memory key p c ≡ (ok tt, d)
    → ((has_key p.backend_id c.residents ≡ true) ⊎ Fits cfg p.backend_id c) × (d ≡ with_load key c)
unfolding start_load
start_load-Fits cfg memory key p c {d} h =
    let (_, c', e, k) =
      and_then-eq-ok (check_load cfg memory p.backend_id p.context c, c)
        (λ _ c'. (ok tt, record c' { loading = some key })) h in
    let same : c' ≡ c = sym (ap (λ x. x.1) e) in
    (
      check_load-Fits cfg memory p.backend_id p.context c (ap (λ x. x.0) e),
      sym (ap (λ x. x.1) k) ∙ ap (with_load key) same,
    )
