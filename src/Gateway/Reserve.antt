-- ===== src/Gateway/Reserve.antt =====
-- shared/serving/gateway.py, reserve, and the end of a request in the handler. `reserve` is two steps, since
-- it lets go of the lock while a load runs: `reserve` up to the entry in the table, `resume` after the wait.
pub mod Guards
pub mod Exclusive
pub mod Refusal
use lario_llms.Prelude.{
  ℕ, ◌+◌, ◌-◌, String, Bool, true, false, not, ◌&&◌, ◌||◌, Option, none, some, List, [], ◌∷◌,
  if◌then◌else◌, str_eq, leb, ltb, ◌==◌, max, length, member, Dict, lookup, insert, remove, has_key,
  Fault, Result, ok, err, http, raised, ◌>>=◌, ◌>>◌, require,
}
use lario_llms.Roles.{
  Role, interactive, fleet, auxiliary, management, can_infer, is_interactive, is_auxiliary,
}
use lario_llms.Registry.{fleet_capacity}
use lario_llms.Gateway.{
  Profile, Config, Resident, Policy, Phase, loading, running, Request, Coordinator, touch, resolve,
  is_role, count_role,
}

-- What a request brings: the truncated run header and the client that its credential names.
pub record Caller : Type 0 where
  pub role : Role
  pub client : String
  pub run : String
  pub run_key : String
  pub instance_id : String

abbrev pub is_rtx : Config → Bool
is_rtx cfg = str_eq cfg.hardware "rtx5080"

unfoldable pub fleet_limit : Profile → Role → ℕ
fleet_limit p role =
    if is_auxiliary role && p.vision
    then p.slots - p.reserved
    else fleet_capacity p.slots p.reserved p.context

unfoldable pub is_full : Config → Coordinator → Profile → Role → Bool
is_full cfg c p role =
    leb p.slots (length c.requests)
    || (can_infer role && not (is_interactive role))
      && not (is_rtx cfg)
      && leb (fleet_limit p role) (count_role fleet c.requests + count_role auxiliary c.requests)

-- the refusals that need no inspection, in the source's order
unfoldable pub check_caller : Config → Coordinator → Caller → String → Profile → Result (Unit {0})
check_caller cfg c caller key p =
    require (not (c.marker || c.policy.paused || member key c.policy.disabled))
      (http 423 "hardware_or_profile_disabled")
    >> (require (str_eq caller.run "" || not (member caller.run_key c.cancelled))
          (http 423 "run_cancelled")
        >> require (not (is_full cfg c p caller.role)) (http 429 "hardware_capacity_exhausted"))

-- `inspected`: the outcome of `await self.inspect()`; the fault of a missing device is told from all others
abbrev pub inspection_fault : Fault → Fault
inspection_fault (raised message) =
    if str_eq message "HardwareUnavailable"
    then http 503 "hardware_unavailable"
    else http 503 "backend_state_unknown"
inspection_fault (http _ _) = http 503 "backend_state_unknown"

-- The load that an inspection calls for: `ok true` starts one.
unfoldable pub place : Coordinator → String → Profile → Option Resident → Result Bool
place c key p none = if leb 1 (length c.requests) then err (http 409 "hardware_busy") else ok true
place c key p (some r) =
    if not (str_eq r.id key) && (leb 1 (length c.requests) || leb 1 r.busy)
    then err (http 409 "different_profile_busy")
    else if leb p.slots (max (length c.requests) r.busy)
    then err (http 429 "hardware_capacity_exhausted")
    else if not (str_eq r.id key)
    then (if leb 1 (length c.requests) then err (http 409 "hardware_busy") else ok true)
    else ok false

abbrev pub entry : Caller → String → String → Bool → Request
entry caller identifier key waits = record {
  id = identifier;
  profile_id = key;
  role = caller.role;
  client = caller.client;
  run_id = caller.run;
  run_key = caller.run_key;
  instance_id = caller.instance_id;
  phase = if waits then loading else running;
}

-- the entry in the table; the second part tells whether the request waits for a load
abbrev pub enter : Caller → String → String → Bool → Coordinator → Result Bool × Coordinator
enter caller identifier key waits c = (
  ok waits,
  record (touch c) { requests = insert identifier (entry caller identifier key waits) c.requests },
)

abbrev pub placed : Caller → String → String → Result Bool → Coordinator → Result Bool × Coordinator
placed caller identifier key (err e) c = (err e, c)
placed caller identifier key (ok false) c = enter caller identifier key false c
placed caller identifier key (ok true) c =
    enter caller identifier key true (record c { loading = some key })

abbrev pub join :
    Caller
    → String
    → String
    → Profile
    → Result (Option Resident)
    → Option String
    → Coordinator
    → Result Bool × Coordinator
join caller identifier key p inspected (some other) c =
    if not (str_eq other key)
    then (err (http 409 "different_profile_loading"), c)
    else enter caller identifier key true c
join caller identifier key p (err e) none c = (err (inspection_fault e), c)
join caller identifier key p (ok resident) none c =
    placed caller identifier key (place c key p resident) (record c { uncertain = false })

abbrev pub checked :
    Caller
    → String
    → String
    → Profile
    → Result (Option Resident)
    → Result (Unit {0})
    → Coordinator
    → Result Bool × Coordinator
checked caller identifier key p inspected (err e) c = (err e, c)
checked caller identifier key p inspected (ok _) c =
    join caller identifier key p inspected c.loading c

-- the part under the lock; `self.profiles[key]` is there where `resolve` found a profile
abbrev pub locked :
    Config
    → Caller
    → String
    → String
    → Result (Option Resident)
    → Option Profile
    → Coordinator
    → Result Bool × Coordinator
locked cfg caller identifier key inspected none c = (err (raised "KeyError"), c)
locked cfg caller identifier key inspected (some p) c =
    checked caller identifier key p inspected (check_caller cfg c caller key p) c

abbrev pub resolved_again :
    Config
    → Caller
    → String
    → Result (Option Resident)
    → Result String
    → Coordinator
    → Result Bool × Coordinator
resolved_again cfg caller identifier inspected (err e) c = (err e, c)
resolved_again cfg caller identifier inspected (ok key) c =
    locked cfg caller identifier key inspected (lookup key cfg.profiles) c

-- The test of an RTX's clients is on the profile that the name was first resolved to; its key is then
-- resolved once more.
abbrev pub served :
    Config
    → Caller
    → String
    → String
    → Result (Option Resident)
    → Option Profile
    → Coordinator
    → Result Bool × Coordinator
served cfg caller identifier first inspected none c = (err (raised "KeyError"), c)
served cfg caller identifier first inspected (some p) c =
    if is_rtx cfg && not (is_auxiliary caller.role) && not p.allow_interactive
    then (err (http 403 "rtx_auxiliary_credential_required"), c)
    else resolved_again cfg caller identifier inspected (resolve cfg c first) c

abbrev pub resolved_to :
    Config
    → Caller
    → String
    → Result (Option Resident)
    → Result String
    → Coordinator
    → Result Bool × Coordinator
resolved_to cfg caller identifier inspected (err e) c = (err e, c)
resolved_to cfg caller identifier inspected (ok first) c =
    served cfg caller identifier first inspected (lookup first cfg.profiles) c

unfoldable pub reserve :
    Config
    → Caller
    → String
    → String
    → Result (Option Resident)
    → Coordinator
    → Result Bool × Coordinator
reserve cfg caller identifier requested inspected c =
    if not (can_infer caller.role)
    then (err (http 403 "management_key_cannot_infer"), c)
    else resolved_to cfg caller identifier inspected (resolve cfg c requested) c

-- The exception that leaves `reserve` after the wait. `TimeoutError` and `CancelledError` are the
-- messages of those classes; an HTTP answer and a cancellation pass unchanged.
abbrev pub wait_fault : Fault → Fault
wait_fault (http status code) = http status code
wait_fault (raised message) =
    if str_eq message "CancelledError"
    then raised message
    else if str_eq message "TimeoutError"
    then http 504 "profile_load_timeout"
    else http 503 "profile_activation_failed"

abbrev pub give_up : String → Fault → Coordinator → Result (Unit {0}) × Coordinator
give_up identifier e c =
    (err (wait_fault e), record c { requests = remove identifier c.requests; uncertain = true })

abbrev pub run_entry : String → Option Request → Coordinator → Result (Unit {0}) × Coordinator
run_entry identifier none c = give_up identifier (raised "KeyError") c
run_entry identifier (some r) c =
    (ok tt, record c { requests = insert identifier (record r { phase = running }) c.requests })

-- after the wait, whose outcome is `waited`
unfoldable pub resume : String → Result (Unit {0}) → Coordinator → Result (Unit {0}) × Coordinator
resume identifier (err e) c = give_up identifier e c
resume identifier (ok _) c =
    if c.marker || c.policy.paused
    then give_up identifier (http 423 "hardware_paused") c
    else run_entry identifier (lookup identifier c.requests) c

-- the `finally` of the handler
unfoldable pub finish : String → Bool → Coordinator → Coordinator
finish identifier clean c =
    touch
      (record c { requests = remove identifier c.requests; uncertain = c.uncertain || not clean })

-- Coordinator.activation: what it writes when the load succeeded or failed, and its `finally`.
abbrev pub is_resident : String → Option Resident → Bool
is_resident key none = false
is_resident key (some r) = str_eq r.id key

abbrev pub fail_activation : Coordinator → Result (Unit {0}) × Coordinator
fail_activation c =
    (err (raised "activation"), record c { last_error = some "Profile activation failed" })

unfoldable pub activate :
    String → Result (Option Resident) → Coordinator → Result (Unit {0}) × Coordinator
activate key (err e) c = fail_activation c
activate key (ok live) c =
    if is_resident key live
    then (
      ok tt,
      record c {
        policy = record c.policy { last_profile = some key; revision = c.policy.revision + 1 };
        last_error = none;
      },
    )
    else fail_activation c

unfoldable pub end_activation : Coordinator → Coordinator
end_activation c = record c { loading = none }
