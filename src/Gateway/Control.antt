-- ===== src/Gateway/Control.antt =====
-- shared/serving/gateway.py, _control: the operator's actions. The part under the lock is `act`; the service
-- manager is called after it, and the result of an operation is recorded last. `inspected` is what
-- `await self.inspect()` would give.
pub mod Replay
pub mod Induction
pub mod Revision
pub mod Shutdown
use lario_llms.Prelude.{
  ℕ, ◌+◌, ◌-◌, String, Bool, true, false, not, ◌&&◌, ◌||◌, Option, none, some, List, [], ◌∷◌, ◌++◌,
  if◌then◌else◌, str_eq, leb, ltb, ◌==◌, length, member, select, map, Dict, lookup, insert, has_key,
  values, Fault, Result, ok, err, http, raised, ◌>>=◌, ◌>>◌, require,
}
use Prim.Native.String.{compare as compare_text}
use Prim.Native.Nat.{Ordering}
use lario_llms.Gateway.{Config, Resident, Policy, Request, Coordinator, bump, touch}

pub data Action : Type 0 where
  pause resume on off cancel_all cancel_and_off cancel enable disable activate unload : Action

-- A body of the known keys. `action` is none for a text that names no action, `serialized` is
-- `json.dumps(body, sort_keys=True)`, and `token` the idempotency key, none where it is missing or
-- malformed.
pub record Body : Type 0 where
  pub token : Option String
  pub serialized : String
  pub action : Option Action
  pub profile_id : String
  pub request_id : String
  pub expected_revision : Option ℕ

-- what an operation answers: the cancelled requests (the state snapshot is read when it is made)
pub record Outcome : Type 0 where
  pub operation_id : String
  pub action : Action
  pub cancelled_runs : List Request

pub record Owner : Type 0 where
  pub coordinator : Coordinator
  -- the table `operations`: the request and the result of each key
  pub operations : Dict (String × Outcome)

abbrev pub is_busy : Option Resident → Bool
is_busy none = false
is_busy (some r) = leb 1 r.busy

abbrev pub is_loading : Coordinator → Bool
is_loading c = elim c.loading [ none ↦ false | some _ ↦ true ]

abbrev pub has_requests : Coordinator → Bool
has_requests c = leb 1 (length c.requests)

abbrev pub pause_policy : Bool → Coordinator → Coordinator
pause_policy paused c = record c {
  policy = record c.policy { paused = paused; revision = c.policy.revision + 1 };
}

-- `sorted(set)` over texts
unfoldable pub insert_sorted : String → List String → List String
insert_sorted k [] = k ∷ []
insert_sorted k (x ∷ xs) = elim (compare_text k x) [
  | Ordering.lt ↦ k ∷ x ∷ xs
  | Ordering.eq ↦ x ∷ xs
  | Ordering.gt ↦ x ∷ insert_sorted k xs
]

unfoldable pub sorted_set : List String → List String
sorted_set [] = []
sorted_set (x ∷ xs) = insert_sorted x (sorted_set xs)

abbrev pub set_disabled : List String → Coordinator → Coordinator
set_disabled disabled c = record c {
  policy = record c.policy { disabled = disabled; revision = c.policy.revision + 1 };
}

-- an action gives the requests that it cancels, or a fault; the state stands beside both
abbrev pub Step : Type 0
Step = Coordinator → Result (List Request) × Coordinator

abbrev pub refuse : ℕ → String → Step
refuse status code c = (err (http status code), c)

abbrev pub done : List Request → Step
done cancelled c = (ok cancelled, c)

abbrev pub activate_idle : String → Result (Option Resident) → Step
activate_idle key (err e) c = (err e, c)
activate_idle key (ok resident) c =
    if has_requests c || is_busy resident
    then refuse 409 "hardware_busy" c
    else if elim resident [ none ↦ false | some r ↦ str_eq r.id key ]
    then done [] c
    else done [] (touch (record c { loading = some key }))

unfoldable pub activate_profile : Config → Body → Result (Option Resident) → Step
activate_profile cfg body inspected c =
    if not (has_key body.profile_id cfg.profiles)
    then refuse 404 "unknown_profile" c
    else if c.marker || c.policy.paused || member body.profile_id c.policy.disabled
    then refuse 423 "hardware_or_profile_disabled" c
    else if is_loading c
    then refuse 409 "profile_loading" c
    else activate_idle body.profile_id inspected c

-- the guard of `off` and `disable`
abbrev pub when_idle : Result (Option Resident) → Step → Step
when_idle (err e) next c = (err e, c)
when_idle (ok resident) next c =
    if has_requests c || is_loading c || is_busy resident
    then refuse 409 "hardware_busy" c
    else next c

-- the requests of one run of one client and instance, or the request alone if it has no run
abbrev pub same_run : Request → Request → Bool
same_run target r =
    str_eq r.client target.client
    && str_eq r.run_id target.run_id
    && str_eq r.instance_id target.instance_id

abbrev pub targets_of : Coordinator → List Request → List Request
targets_of c [] = []
targets_of c (target ∷ more) =
    if str_eq target.run_id "" then target ∷ more else select (same_run target) (values c.requests)

-- `tombstone` of each run that has a name: INSERT OR IGNORE
unfoldable pub tombstones : List Request → List String → List String
tombstones [] cancelled = cancelled
tombstones (r ∷ rs) cancelled =
    tombstones rs (
      if str_eq r.run_id "" || member r.run_key cancelled then cancelled else r.run_key ∷ cancelled)

-- `task.cancel()` of each target only asks; the task leaves the table by itself, in `finish` or `resume`.
abbrev pub cancel_requests : List Request → Step
cancel_requests targets c = done targets (record c { cancelled = tombstones targets c.cancelled })

abbrev pub cancel_found : Coordinator → List Request → Step
cancel_found c0 [] c = refuse 404 "request_not_active" c
cancel_found c0 (target ∷ more) c = cancel_requests (targets_of c0 (target ∷ more)) c

unfoldable pub act : Config → Body → Result (Option Resident) → Action → Step
act cfg body inspected unload c = refuse 400 "unload_not_supported" c
act cfg body inspected activate c = activate_profile cfg body inspected c
act cfg body inspected pause c = done [] (pause_policy true c)
act cfg body inspected cancel c =
    cancel_found c (select (λ r. str_eq r.id body.request_id) (values c.requests)) c
act cfg body inspected cancel_all c = cancel_requests (values c.requests) (pause_policy true c)
act cfg body inspected cancel_and_off c =
    let (r, c') = cancel_requests (values c.requests) (pause_policy true c) in
    (r, record c' { marker = true })
act cfg body inspected off c =
    when_idle (if c.marker then ok none else inspected)
      (λ c'. done [] (record (pause_policy true c') { marker = true })) c
act cfg body inspected enable c =
    if not (has_key body.profile_id cfg.profiles)
    then refuse 404 "unknown_profile" c
    else done [] (
        set_disabled (sorted_set (select (λ k. not (str_eq k body.profile_id)) c.policy.disabled))
          c)
act cfg body inspected disable c =
    when_idle inspected
      (λ c'.
        if not (has_key body.profile_id cfg.profiles)
        then refuse 404 "unknown_profile" c'
        else done [] (set_disabled (sorted_set (body.profile_id ∷ c'.policy.disabled)) c'))
      c
act cfg body inspected resume c =
    if c.marker then refuse 423 "hardware_off_use_on" c else done [] (pause_policy false c)
act cfg body inspected on c = done [] (pause_policy false (record c { marker = false }))

-- After the lock: stopping also cancels a load, whose `finally` clears it, before the service manager is
-- called. `service` is the outcome of that call.
unfoldable pub after_lock :
    Action → Result (Unit {0}) → Coordinator → Result (Unit {0}) × Coordinator
after_lock off service c = (service, record c { loading = none })
after_lock cancel_and_off service c = (service, record c { loading = none })
after_lock on service c = (service, c)
after_lock _ service c = (ok tt, c)

abbrev pub revised : Option ℕ → ℕ → Bool
revised none revision = false
revised (some expected) revision = expected == revision

abbrev pub complete :
    String
    → String
    → Action
    → List Request
    → Result (Unit {0}) × Coordinator
    → Owner
    → Result Outcome × Owner
complete token serialized action runs (err e, c) o = (err e, record o { coordinator = c })
complete token serialized action runs (ok _, c) o =
    let outcome : Outcome = record {
      operation_id = token;
      action = action;
      cancelled_runs = runs;
    } in
    (
      ok outcome,
      record { coordinator = c; operations = insert token (serialized, outcome) o.operations },
    )

abbrev pub finish_act :
    Body
    → String
    → Action
    → Result (Unit {0})
    → Result (List Request) × Coordinator
    → Owner
    → Result Outcome × Owner
finish_act body token action service (err e, c) o = (err e, record o { coordinator = c })
finish_act body token action service (ok runs, c) o =
    complete token body.serialized action runs (after_lock action service c) o

abbrev pub run_action :
    Config
    → Body
    → String
    → Result (Option Resident)
    → Result (Unit {0})
    → Option Action
    → Owner
    → Result Outcome × Owner
run_action cfg body token inspected service none o = (err (http 400 "unknown_action"), o)
run_action cfg body token inspected service (some action) o =
    finish_act body token action service (act cfg body inspected action o.coordinator) o

abbrev pub fresh :
    Config
    → Body
    → String
    → Result (Option Resident)
    → Result (Unit {0})
    → Owner
    → Result Outcome × Owner
fresh cfg body token inspected service o =
    if revised body.expected_revision o.coordinator.policy.revision
    then run_action cfg body token inspected service body.action o
    else (err (http 409 "stale_revision"), o)

abbrev pub replay :
    Config
    → Body
    → String
    → Result (Option Resident)
    → Result (Unit {0})
    → Option (String × Outcome)
    → Owner
    → Result Outcome × Owner
replay cfg body token inspected service none o = fresh cfg body token inspected service o
replay cfg body token inspected service (some (serialized, outcome)) o =
    if str_eq serialized body.serialized
    then (ok outcome, o)
    else (err (http 409 "idempotency_key_reused"), o)

abbrev pub with_token :
    Config
    → Body
    → Result (Option Resident)
    → Result (Unit {0})
    → Option String
    → Owner
    → Result Outcome × Owner
with_token cfg body inspected service none o = (err (http 400 "idempotency_key_required"), o)
with_token cfg body inspected service (some token) o =
    replay cfg body token inspected service (lookup token o.operations) o

unfoldable pub control :
    Config → Body → Result (Option Resident) → Result (Unit {0}) → Owner → Result Outcome × Owner
control cfg body inspected service o = with_token cfg body inspected service body.token o

-- `control`: stopping the hardware needs its lock, which other workloads of the card hold too.
abbrev pub needs_hardware : Option Action → Bool
needs_hardware (some off) = true
needs_hardware (some cancel_and_off) = true
needs_hardware _ = false

unfoldable pub operate :
    Config
    → Body
    → Bool
    → Result (Option Resident)
    → Result (Unit {0})
    → Owner
    → Result Outcome × Owner
operate cfg body held inspected service o =
    if needs_hardware body.action && held
    then (err (http 409 "hardware_workload_busy"), o)
    else control cfg body inspected service o

-- /admin/drain and /admin/resume
unfoldable pub drain : Bool → Coordinator → Result (Unit {0}) × Coordinator
drain true c = (ok tt, pause_policy true c)
drain false c =
    if c.marker
    then (err (http 423 "hardware_off"), c)
    else if has_requests c
    then (err (http 409 "hardware_busy"), c)
    else (ok tt, pause_policy false c)
