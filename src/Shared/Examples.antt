-- ===== src/Shared/Examples.antt =====
-- Runs of one coordinator with one shared pool.
use lario_llms.Prelude.{
  ℕ, String, ◌≡◌, refl, ◌⊎◌, true, false, none, some, List, [], ◌∷◌, lookup, insert, has_key,
  Result, ok,
}
use lario_llms.Roles.{fleet}
use lario_llms.Gateway.{Policy, running}
use lario_llms.Gateway.Reserve.{Caller}
use lario_llms.Shared.{
  Profile, Backend, Pool, Config, Request, Coordinator, Inspection, allocations, inspect,
  used_memory, check_load, check_profile, start_load, fit_context,
}
use lario_llms.Shared.Load.{unload_shared}
use lario_llms.Shared.Load.Memory.{Fits, with_load, start_load-Fits}
use lario_llms.Shared.Reserve.{
  Outside, resolve, check_caller, capacity, reserve, entry, prefix_charge, resume,
}
use lario_llms.Shared.Reserve.Budget.{Within, reserve-Within}

abbrev profile : Profile
profile = record {
  id = "qwen";
  model = "qwen";
  backend_id = "pool";
  context = 60000;
  pool = some "main";
}

abbrev backend : Backend
backend = record {
  slots = 4;
  reserved = 1;
  context_tokens = 131072;
  allocation = some 20;
  pool = some "main";
}

abbrev pool : Pool
pool = record {
  context_tokens = 131072;
  min_context = 8192;
  weight = 1000;
  runtime_reserve = 100;
  kv_bytes_per_token = 2;
  clear_idle = none;
}

abbrev config : Config
config = record {
  profiles = ("qwen", profile) ∷ [];
  enabled_models = none;
  pools = ("main", pool) ∷ [];
  reserve = 10;
  memory_budget = 64;
  clear_idle = false;
  probed = false;
}

abbrev policy : Policy
policy = record { revision = 1; paused = false; disabled = []; legacy = []; last_profile = none }

abbrev idle : Coordinator
idle = record {
  policy = policy;
  marker = false;
  uncertain = true;
  requests = [];
  loading = none;
  last_error = none;
  cancelled = [];
  backends = ("pool", backend) ∷ [];
  residents = [];
}

abbrev agent : Caller
agent = record { role = fleet; client = "agents"; run = ""; run_key = "agents:"; instance_id = "i" }

abbrev cold : Inspection
cold = record { backends = ("pool", backend) ∷ []; residents = ok [] }

abbrev warm : Inspection
warm = record { backends = ("pool", backend) ∷ []; residents = ok (("pool", 0) ∷ []) }

abbrev outside : Outside
outside = record { inspection = cold; erased = ok tt; memory = ok 1000000 }

abbrev first : Request
first = entry agent "r1" "qwen" profile true

abbrev loading_pool : Coordinator
loading_pool = record idle {
  policy = record policy { revision = 2 };
  uncertain = false;
  requests = ("r1", first) ∷ [];
  loading = some "qwen";
}

abbrev context : ℕ
context = 131072

fits : fit_context pool 1000000 10 ≡ context
unfolding fit_context
fits = refl

loads : start_load config (ok 1000000) "qwen" profile idle ≡ (ok tt, with_load "qwen" idle)
unfolding start_load check_load used_memory fit_context lookup
loads = refl

start_load-Fits_example :
    ((has_key "pool" idle.residents ≡ true) ⊎ Fits config "pool" idle)
    × (with_load "qwen" idle ≡ with_load "qwen" idle)
start_load-Fits_example = start_load-Fits config (ok 1000000) "qwen" profile idle loads

new_identifier : lookup "r1" idle.requests ≡ none
unfolding lookup
new_identifier = refl

enters : reserve config outside agent "r1" "qwen" idle ≡ (ok true, loading_pool)
unfolding reserve resolve check_caller check_profile inspect capacity allocations start_load
    check_load used_memory fit_context lookup insert
enters = refl

reserve-Within_example :
    (key : String) × (p : Profile) × (b : Backend) × (resolve config idle "qwen" ≡ ok key)
    × (lookup key config.profiles ≡ some p)
    × (lookup p.backend_id loading_pool.backends ≡ some b)
    × Within agent p b (allocations p.backend_id loading_pool.requests)
reserve-Within_example = reserve-Within config outside agent "r1" "qwen" idle new_identifier enters

abbrev loaded : Result (Unit {0})
loaded = ok tt

abbrev running_pool : Coordinator
running_pool = record loading_pool { requests = ("r1", record first { phase = running }) ∷ [] }

runs : resume config "r1" "qwen" profile loaded loading_pool ≡ (ok tt, running_pool)
unfolding resume check_profile prefix_charge allocations lookup insert
runs = refl

abbrev three : List Request
three = first ∷ entry agent "r2" "qwen" profile true ∷ entry agent "r3" "qwen" profile true ∷ []

abbrev shrunk : Coordinator
shrunk = record loading_pool {
  loading = none;
  requests =
      ("r1", first)
      ∷ ("r2", entry agent "r2" "qwen" profile true)
      ∷ ("r3", entry agent "r3" "qwen" profile true)
      ∷ [];
}

abbrev seen_warm : Coordinator
seen_warm = record idle { uncertain = false; residents = ("pool", 0) ∷ [] }

abbrev unloaded : Coordinator
unloaded = record idle { policy = record policy { revision = 2 }; uncertain = false }

unloads : unload_shared config warm (ok tt) cold "qwen" idle ≡ (ok tt, unloaded)
unfolding unload_shared inspect allocations lookup
unloads = refl
