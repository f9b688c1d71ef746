-- ===== src/Shared/Reserve.antt =====
-- shared/serving/shared_gateway.py, reserve: `reserve` up to the entry in the table, `resume` after the wait.
-- The end of a request in the handler is that of Gateway/Reserve.
pub mod Budget
pub mod Wait
use lario_llms.Prelude.{
  ℕ, ◌+◌, ◌-◌, String, Bool, true, false, not, ◌&&◌, ◌||◌, Option, none, some, List, [], ◌∷◌,
  if◌then◌else◌, str_eq, ltb, leb, ◌==◌, length, count, total, member, Dict, lookup, insert, remove,
  has_key, Fault, Result, ok, err, http, raised, ◌>>◌, require,
}
use lario_llms.Registry.{get_or}
use lario_llms.Roles.{Role, can_infer, is_interactive}
use lario_llms.Gateway.{Phase, loading, running}
use lario_llms.Gateway.Reserve.{Caller, inspection_fault}
use lario_llms.Shared.{
  Profile, Backend, Pool, Config, Request, Coordinator, Inspection, touch, allocations, is_running,
  tracked, and_then, inspect, backend_of, pool_of, check_profile, start_load,
}

-- What `reserve` awaits: the inspection, the erasing of idle slots, and the free memory.
pub record Outside : Type 0 where
  pub inspection : Inspection
  pub erased : Result (Unit {0})
  pub memory : Result ℕ

abbrev pub resolved : Config → String → Result String
resolved cfg target =
    if has_key target cfg.profiles then ok target else err (http 404 "unknown_or_retired_profile")

unfoldable pub resolve : Config → Coordinator → String → Result String
resolve cfg c key = resolved cfg (get_or (lookup key c.policy.legacy) key)

abbrev pub remap : Result (Unit {0}) × Coordinator → Result (Unit {0}) × Coordinator
remap (err e, c) = (err (inspection_fault e), c)
remap (ok _, c) = (ok tt, c)

abbrev pub observe : Inspection → Option String → Coordinator → Result (Unit {0}) × Coordinator
observe i none c = remap (inspect i c)
observe i (some _) c = (ok tt, c)

-- the checks under the lock before the inspection
unfoldable pub check_caller : Config → Caller → String → Profile → Coordinator → Result (Unit {0})
check_caller cfg caller key p c =
    check_profile cfg key p c
    >> (require (str_eq caller.run "" || not (member caller.run_key c.cancelled))
          (http 423 "run_cancelled")
        >> require
            (elim c.loading [
              | none ↦ true
              | some _ ↦ elim (backend_of cfg c.loading) [
                | none ↦ false
                | some b ↦ str_eq b p.backend_id
              ]
            ])
            (http 409 "different_backend_loading"))

abbrev pub clears : Config → Profile → Coordinator → Bool
clears cfg p c =
    elim (pool_of cfg p.pool) [ none ↦ false | some pool ↦ get_or pool.clear_idle cfg.clear_idle ]
    && has_key p.backend_id c.residents
    && length (allocations p.backend_id c.requests) == 0
    && get_or (lookup p.backend_id c.residents) 0 == 0

abbrev pub cleared : Result (Unit {0}) → Coordinator → Result (Unit {0}) × Coordinator
cleared (err e) c = (err (http 503 "idle_kv_cleanup_unconfirmed"), record c { uncertain = true })
cleared (ok _) c = (ok tt, c)

abbrev pub clear_step :
    Config → Profile → Result (Unit {0}) → Coordinator → Result (Unit {0}) × Coordinator
clear_step cfg p erased c = if clears cfg p c then cleared erased c else (ok tt, c)

abbrev pub is_shared : Profile → Bool
is_shared p = elim p.pool [ none ↦ false | some _ ↦ true ]

abbrev pub charge : List Request → ℕ
charge rs = total (λ (r : Request). r.context_tokens) rs

abbrev pub outsiders : List Request → ℕ
outsiders rs = count (λ (r : Request). not (is_interactive r.role)) rs

-- slots, the share of interactive requests, and the context budget
unfoldable pub capacity : Caller → Profile → Option Backend → List Request → Result (Unit {0})
capacity caller p none active = err (raised "KeyError")
capacity caller p (some b) active =
    require (not (leb b.slots (length active))) (http 429 "hardware_capacity_exhausted")
    >> (require
          (not (not (is_interactive caller.role) && leb (b.slots - b.reserved) (outsiders active)))
          (http 429 "interactive_capacity_reserved")
        >> require (not (is_shared p && ltb b.context_tokens (charge active + p.context)))
            (http 429 "context_budget_exhausted"))

-- whether the request waits for a load
abbrev pub ensure_load :
    Config → Outside → String → Profile → Coordinator → Result Bool × Coordinator
ensure_load cfg out key p c = elim c.loading [
  | some _ ↦ (ok true, c)
  | none ↦
      if has_key p.backend_id c.residents
      then (ok false, c)
      else and_then (start_load cfg out.memory key p c) (λ _ c'. (ok true, c'))
]

abbrev pub entry : Caller → String → String → Profile → Bool → Request
entry caller identifier key p waits = record {
  id = identifier;
  profile_id = key;
  backend_id = p.backend_id;
  context_tokens = p.context;
  role = caller.role;
  client = caller.client;
  run_id = caller.run;
  run_key = caller.run_key;
  instance_id = caller.instance_id;
  phase = if waits then loading else running;
}

abbrev pub enter :
    Caller → String → String → Profile → Bool → Coordinator → Result Bool × Coordinator
enter caller identifier key p waits c = (
  ok waits,
  touch
      (record c { requests = insert identifier (entry caller identifier key p waits) c.requests }),
)

-- the work of other requests than those in the table has no charge: it must end first
abbrev pub orphans : Profile → Coordinator → Result (Unit {0})
orphans p c =
    require (not (ltb (tracked p.backend_id c) (get_or (lookup p.backend_id c.residents) 0)))
      (http 503 "untracked_backend_work")

abbrev pub admit_load :
    Config → Outside → Caller → String → String → Profile → Coordinator → Result Bool × Coordinator
admit_load cfg out caller identifier key p c =
    and_then (ensure_load cfg out key p c) (λ waits c'. enter caller identifier key p waits c')

abbrev pub budget : Caller → Profile → Coordinator → Result (Unit {0})
budget caller p c =
    capacity caller p (lookup p.backend_id c.backends) (allocations p.backend_id c.requests)

abbrev pub admit_budget :
    Config → Outside → Caller → String → String → Profile → Coordinator → Result Bool × Coordinator
admit_budget cfg out caller identifier key p c =
    and_then (budget caller p c, c) (λ _ c'. admit_load cfg out caller identifier key p c')

abbrev pub admit_clear :
    Config → Outside → Caller → String → String → Profile → Coordinator → Result Bool × Coordinator
admit_clear cfg out caller identifier key p c =
    and_then (clear_step cfg p out.erased (record c { uncertain = false }))
      (λ _ c'. admit_budget cfg out caller identifier key p c')

abbrev pub admit :
    Config → Outside → Caller → String → String → Profile → Coordinator → Result Bool × Coordinator
admit cfg out caller identifier key p c =
    and_then (orphans p c, c) (λ _ c'. admit_clear cfg out caller identifier key p c')

abbrev pub admit_seen :
    Config → Outside → Caller → String → String → Profile → Coordinator → Result Bool × Coordinator
admit_seen cfg out caller identifier key p c =
    and_then (observe out.inspection c.loading c) (λ _ c'. admit cfg out caller identifier key p c')

abbrev pub reserve_found :
    Config
    → Outside
    → Caller
    → String
    → String
    → Option Profile
    → Coordinator
    → Result Bool × Coordinator
reserve_found cfg out caller identifier key none c = (err (raised "KeyError"), c)
reserve_found cfg out caller identifier key (some p) c =
    and_then (check_caller cfg caller key p c, c)
      (λ _ c'. admit_seen cfg out caller identifier key p c')

abbrev pub target : Config → Caller → String → Coordinator → Result String
target cfg caller requested c =
    require (can_infer caller.role) (http 403 "management_key_cannot_infer")
    >> resolve cfg c requested

unfoldable pub reserve :
    Config → Outside → Caller → String → String → Coordinator → Result Bool × Coordinator
reserve cfg out caller identifier requested c =
    and_then (target cfg caller requested c, c)
      (λ key c'. reserve_found cfg out caller identifier key (lookup key cfg.profiles) c')

-- the context charged up to and with this request, in the order of the table
unfoldable pub prefix_charge : String → List Request → ℕ
prefix_charge identifier [] = 0
prefix_charge identifier (r ∷ rs) =
    let rest = prefix_charge identifier rs in
    r.context_tokens + (if str_eq r.id identifier then 0 else rest)

abbrev pub wait_fault : Fault → Fault
wait_fault (http status code) = http status code
wait_fault (raised message) =
    if str_eq message "CancelledError" then raised message else http 503 "profile_activation_failed"

abbrev pub give_up : String → Fault → Coordinator → Result (Unit {0}) × Coordinator
give_up identifier e c =
    (err (wait_fault e), record c { requests = remove identifier c.requests; uncertain = true })

abbrev pub fits_prefix : String → Profile → Option Backend → Coordinator → Result (Unit {0})
fits_prefix identifier p none c = err (raised "KeyError")
fits_prefix identifier p (some b) c =
    require
      (not (
        is_shared p
        && ltb b.context_tokens (prefix_charge identifier (allocations p.backend_id c.requests))))
      (http 429 "context_budget_exhausted")

abbrev pub run_entry : String → Option Request → Coordinator → Result (Unit {0}) × Coordinator
run_entry identifier none c = give_up identifier (raised "KeyError") c
run_entry identifier (some r) c =
    (ok tt, record c { requests = insert identifier (record r { phase = running }) c.requests })

abbrev pub settle : String → Result (Unit {0}) → Coordinator → Result (Unit {0}) × Coordinator
settle identifier (err e) c = give_up identifier e c
settle identifier (ok _) c = run_entry identifier (lookup identifier c.requests) c

-- after the wait, whose outcome is `waited`
unfoldable pub resume :
    Config
    → String
    → String
    → Profile
    → Result (Unit {0})
    → Coordinator
    → Result (Unit {0}) × Coordinator
resume cfg identifier key p waited c =
    settle identifier
      (waited
        >> (check_profile cfg key p c
            >> fits_prefix identifier p (lookup p.backend_id c.backends) c))
      c
