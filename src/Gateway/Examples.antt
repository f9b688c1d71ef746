-- ===== src/Gateway/Examples.antt =====
-- Runs of one coordinator with two profiles.
use lario_llms.Gateway.Clients.{
  Client, Identity, ServerKeys, Keyed, Registered, registered, legacy, role_in, role_in-Identified,
}
use lario_llms.Prelude.{
  String, ◌≡◌, ◌≢◌, refl, ◌&&◌, ap, ◌⊎◌, true, false, Option, none, some, [], ◌∷◌, if◌then◌else◌,
  str_eq, lookup, insert, Result, ok, err, http, raised, arith, codes, eq_text, List,
}
use lario_llms.Registry.{fleet_capacity}
use lario_llms.Roles.{fleet, auxiliary, management}
use lario_llms.Gateway.{Profile, Config, Resident, Policy, Coordinator, resolve}
use lario_llms.Gateway.Reserve.{
  Caller, is_rtx, reserve, entry, check_caller, is_full, fleet_limit, place,
}
use lario_llms.Gateway.Reserve.Guards.{Written}
use lario_llms.Gateway.Reserve.Exclusive.{Allowed, reserve-Allowed, IsIdle, reserve-Exclusive}
use lario_llms.Gateway.Reserve.Refusal.{reserve-eq-err}
use lario_llms.Gateway.Control.{
  pause, off, cancel_all, Body, Outcome, Owner, act, control, after_lock, needs_hardware, operate,
  tombstones,
}
use lario_llms.Gateway.Control.Replay.{Later, here, operates, operate-operate}
use lario_llms.Gateway.Control.Revision.{control-stale}
use lario_llms.Gateway.Control.Shutdown.{act_off-reserve, act_cancel_all-reserve}
use lario_llms.Gateway.Trace.{Transition, reserved, here as at_start, next, IsOrderly, Caps}
use lario_llms.Gateway.Trace.Orderly.{Reach-IsOrderly}

abbrev gemma : Profile
gemma = record {
  id = "gemma";
  model = "gemma";
  preset = "capacity";
  context = 70000;
  slots = 2;
  reserved = 1;
  vision = false;
  allow_interactive = true;
}

abbrev config : Config
config = record { hardware = "geekom"; profiles = ("gemma", gemma) ∷ ("qwen", gemma) ∷ [] }

abbrev policy : Policy
policy = record { revision = 7; paused = false; disabled = []; legacy = []; last_profile = none }

abbrev idle : Coordinator
idle = record {
  policy = policy;
  marker = false;
  uncertain = true;
  requests = [];
  loading = none;
  last_error = none;
  cancelled = [];
}

abbrev agent : Caller
agent = record {
  role = fleet;
  client = "agents";
  run = "run";
  run_key = "agents/run";
  instance_id = "i";
}

abbrev loading_gemma : Coordinator
loading_gemma = record idle {
  policy = record policy { revision = 8 };
  uncertain = false;
  loading = some "gemma";
  requests = ("r1", entry agent "r1" "gemma" true) ∷ [];
}

cold : reserve config agent "r1" "gemma" (ok none) idle ≡ (ok true, loading_gemma)
unfolding reserve resolve check_caller is_full fleet_limit fleet_capacity place lookup insert
cold = refl

reserve-Allowed_example :
    (first key : String) × (q p : Profile) × (resolve config idle "gemma" ≡ ok first)
    × (lookup first config.profiles ≡ some q)
    × ((is_rtx config ≡ false) ⊎ (agent.role ≡ auxiliary) ⊎ (q.allow_interactive ≡ true))
    × (resolve config idle first ≡ ok key)
    × (lookup key config.profiles ≡ some p)
    × Allowed config idle agent key p
    × Written agent "r1" key true idle loading_gemma
reserve-Allowed_example = reserve-Allowed config agent "r1" "gemma" (ok none) idle cold

reserve-Exclusive_example :
    (first key : String) × (resolve config idle "gemma" ≡ ok first)
    × (resolve config idle first ≡ ok key)
    × ((idle.loading ≡ some key) × (loading_gemma.loading ≡ some key)
        ⊎ ((resident : Option Resident) × (Result.ok none ≡ ok resident)
            × (idle.loading ≡ none)
            × (loading_gemma.loading ≡ some key)
            × (idle.requests ≡ [])
            × IsIdle resident)
        ⊎ ((r : Resident) × (Result.ok none ≡ ok (some r))
            × (idle.loading ≡ none)
            × (loading_gemma.loading ≡ none)
            × (r.id ≡ key)))
reserve-Exclusive_example = reserve-Exclusive config agent "r1" "gemma" (ok none) idle cold

abbrev busy : Resident
busy = record { id = "gemma"; model = "gemma"; context = 70000; slots = 2; reserved = 1; busy = 1 }

abbrev busy_idle : Coordinator
busy_idle = record idle { uncertain = true }

abbrev certain_idle : Coordinator
certain_idle = record idle { uncertain = false }

other :
    reserve config agent "r2" "qwen" (ok (some busy)) busy_idle
    ≡ (err (http 409 "different_profile_busy"), certain_idle)
unfolding reserve resolve check_caller is_full fleet_limit fleet_capacity place lookup insert
other = refl

reserve-eq-err_example :
    (certain_idle ≡ busy_idle)
    ⊎ ((resident : Option Resident) × (Result.ok (some busy) ≡ ok resident)
        × (busy_idle.loading ≡ none)
        × (certain_idle ≡ record busy_idle { uncertain = false }))
reserve-eq-err_example = reserve-eq-err config agent "r2" "qwen" (ok (some busy)) busy_idle other

abbrev owner : Owner
owner = record { coordinator = idle; operations = [] }

abbrev pausing : Body
pausing = record {
  token = some "key-1";
  serialized = "pause";
  action = some pause;
  profile_id = "";
  request_id = "";
  expected_revision = some 7;
}

abbrev pausing_again : Body
pausing_again = record pausing { token = some "key-2" }

abbrev other_pause : Body
other_pause = record pausing { token = some "key-3"; expected_revision = some 8 }

abbrev paused : Coordinator
paused = record idle { policy = record policy { paused = true; revision = 8 } }

abbrev outcome : Outcome
outcome = record { operation_id = "key-1"; action = pause; cancelled_runs = [] }

abbrev paused_owner : Owner
paused_owner = record { coordinator = paused; operations = ("key-1", ("pause", outcome)) ∷ [] }

pauses : control config pausing (ok none) (ok tt) owner ≡ (ok outcome, paused_owner)
unfolding control act after_lock lookup insert
pauses = refl

operated : operate config pausing true (ok none) (ok tt) owner ≡ (ok outcome, paused_owner)
unfolding operate
operated = pauses

afterwards :
    Later config paused_owner (operate config other_pause false (ok none) (ok tt) paused_owner).1
afterwards = operates here other_pause false (ok none) (ok tt)

operate-operate_example :
    operate config pausing false
      (ok none)
      (err (raised "down"))
      (operate config other_pause false (ok none) (ok tt) paused_owner).1
    ≡ (
      if needs_hardware pausing.action && false
          then err (http 409 "hardware_workload_busy")
          else if str_eq "pause" "pause"
          then ok outcome
          else err (http 409 "idempotency_key_reused"),
      (operate config other_pause false (ok none) (ok tt) paused_owner).1,
    )
operate-operate_example =
    operate-operate config pausing pausing true false (ok none) (ok none) (ok tt)
      (err (raised "down")) owner refl operated afterwards

unused : lookup "key-2" paused_owner.operations ≡ none
unfolding lookup
unused = refl

control-stale_example :
    control config pausing_again (ok none) (ok tt) paused_owner
    ≡ (err (http 409 "stale_revision"), paused_owner)
control-stale_example =
    control-stale config pausing pausing_again (ok none) (ok none) (ok tt) (ok tt) owner "key-2"
      pauses (λ e. absurd (let same : 8 ≡ 7 = ap (λ p. p.revision) e in omega (arith, same))) refl
      refl unused

abbrev switched_off : Coordinator
switched_off = record paused { marker = true }

goes_off : act config pausing (ok none) off idle ≡ (ok [], switched_off)
unfolding act
goes_off = refl

act_off-reserve_example :
    (idle.requests ≡ [])
    × (idle.loading ≡ none)
    × ((idle.marker ≡ true)
        ⊎ ((found : Option Resident) × (Result.ok none ≡ ok found) × IsIdle found))
    × (switched_off.marker ≡ true)
    × (switched_off.policy.paused ≡ true)
    × ((reserve config agent "r1" "gemma" (ok none) switched_off).0 ≢ ok true)
act_off-reserve_example =
    act_off-reserve config pausing (ok none) (ok none) idle agent "r1" "gemma" true goes_off

abbrev cancelled : Coordinator
cancelled = record idle { cancelled = "agents/run" ∷ [] }

cancels : cancelled.cancelled ≡ (act config pausing (ok none) cancel_all loading_gemma).1.cancelled
unfolding act tombstones
cancels = refl

act_cancel_all-reserve_example : (reserve config agent "r9" "gemma" (ok none) cancelled).0 ≢ ok true
act_cancel_all-reserve_example =
    act_cancel_all-reserve config pausing (ok none) (ok none) loading_gemma cancelled agent "r9"
      "gemma" true cancels refl (λ e. cc)

abbrev loading_owner : Owner
loading_owner = record { coordinator = loading_gemma; operations = [] }

fresh_identifier : lookup "r1" idle.requests ≡ none
unfolding lookup
fresh_identifier = refl

first : Transition config owner loading_owner
first = reserved agent "r1" "gemma" (ok none) true fresh_identifier cold

caps : Caps 2 config
caps = (omega arith, (omega arith, tt))

Reach-IsOrderly_example : IsOrderly 2 loading_gemma
Reach-IsOrderly_example =
    Reach-IsOrderly config 2 owner loading_owner caps refl refl
      (next {t = owner} {u = loading_owner} at_start first)

abbrev server_keys : ServerKeys
server_keys = (management, codes "admin-key") ∷ []

abbrev known_agent : Client
known_agent = record {
  name = "agent";
  is_named = true;
  role = some fleet;
  key = codes "0123456789012345678901234";
}

abbrev agent_identity : Identity
agent_identity = record { client = "agent"; role = fleet; is_registered = true }

lets_in :
    role_in server_keys
      (codes "backend")
      (codes "0123456789012345678901234")
      (some (ok (known_agent ∷ [])))
    ≡ ok agent_identity
unfolding role_in registered legacy eq_text
lets_in = refl

role_in-Identified_example :
    ((true ≡ false) × Keyed (codes "0123456789012345678901234") fleet server_keys)
    ⊎ ((clients : List Client) × (◌≡◌ {A = Option (Result (List Client))}
          (some (ok (known_agent ∷ [])))
          (some (ok clients)))
        × (true ≡ true)
        × Registered server_keys
            (codes "backend")
            (codes "0123456789012345678901234")
            agent_identity
            clients)
role_in-Identified_example =
    role_in-Identified server_keys (codes "backend") (codes "0123456789012345678901234")
      (some (ok (known_agent ∷ []))) lets_in
