-- ===== src/Admission/Examples.antt =====
-- Runs of the admission server on one small registry.
use lario_llms.Prelude.{
  ◌<◌, ◌≡◌, ◌⊎◌, refl, ap, length, inr, true, false, none, some, [], ◌∷◌, arith, str_eq,
  if◌then◌else◌, lookup, ok, err, http,
}
use lario_llms.Registry.{Model, Registry}
use lario_llms.Selection.{Saved}
use lario_llms.Roles.{fleet}
use lario_llms.Admission.{
  Budget, no_counts, sum, Server, start, names, reconcile, admit, decide, acquire, release, report,
  budget, resume, over_capacity,
}
use lario_llms.Admission.Inspect.{
  Outside, Item, Live, Observation, check_device, single, int_after, flags, is_live_geometry,
  is_private, occupancy, describe, read_running, read_backend, inspect,
}
use lario_llms.Registry.Removal.{value_after}
use lario_llms.Registry.{fleet_capacity}
use lario_llms.Admission.Bounds.{Admitted, acquire-Admitted, budget-acquire}
use lario_llms.Admission.Trace.{
  System, Step, beginning, admitted, resumed, Reach, here, next, IsCounted, Reach-beginning,
  Reach-within_slots,
}
use lario_llms.Admission.Quarantine.{SeenIdle, release-Reach-acquire}
use lario_llms.Admission.Keys.{Keys, are_keys}

abbrev gemma : Model
gemma = record {
  args = [];
  extra_args = none;
  context = 70000;
  slots = 4;
  reserved = 1;
  aliases = "gemma-alias" ∷ [];
  experimental = false;
}

abbrev registry : Registry
registry = record {
  hardware = "geekom";
  more_aliases = [];
  models = ("gemma", gemma) ∷ [];
  presets = none;
  extra_args = [];
}

abbrev unsaved : Saved
unsaved = record { model = none; choice = none }

abbrev outside : Outside
outside = record {
  int = λ t. if str_eq t "4" then some 4 else if str_eq t "280000" then some 280000 else none;
  sha256 = λ t. t;
}

abbrev item : Item
item = record {
  model = "gemma";
  state = "ready";
  cmd = "llama-server";
  args = ok ("--parallel" ∷ "4" ∷ "-c" ∷ "280000" ∷ []);
  hostname = "localhost";
  scheme = "http";
}

abbrev observed : Observation
observed = record {
  now = 10;
  device = none;
  probe = none;
  running = ok (item ∷ []);
  resident = ok (some (some false ∷ some false ∷ some false ∷ some false ∷ []));
}

abbrev live : Live
live = record {
  model = "gemma";
  slots = 4;
  reserved = 1;
  context = 70000;
  agents = 3;
  busy = 0;
  generation = "llama-server";
}

abbrev settled : Server
settled = record {
  active = no_counts;
  rejections = no_counts;
  swap_rejections = 0;
  draining = false;
  uncertain = false;
  device_good_until = 0;
}

abbrev one_fleet : Server
one_fleet = record settled {
  active = record { interactive = 0; fleet = 1; auxiliary = 0; management = 0 };
}

inspected : inspect outside registry observed 0 ≡ (ok live, 0)
unfolding inspect check_device read_backend read_running single int_after value_after describe
    is_live_geometry is_private occupancy flags fleet_capacity lookup
inspected = refl

first_request : acquire outside registry unsaved observed fleet "gemma" start ≡ (ok live, one_fleet)
unfolding acquire start names decide reconcile admit over_capacity lookup
first_request = rw inspected refl

acquire-Admitted_example :
    ((inspect outside registry observed 0).0 ≡ ok live)
    × Admitted registry live fleet start one_fleet
unfolding start
acquire-Admitted_example =
    acquire-Admitted outside registry unsaved observed fleet "gemma" start first_request

full :
    (acquire outside registry unsaved observed fleet "other" settled).0
    ≡ err (http 409 "model_not_resident")
unfolding acquire names decide reconcile admit over_capacity lookup
full = rw inspected refl

abbrev shown : Budget
shown = record {
  live = some live;
  ready = true;
  agents = 3;
  available = 3;
  active = one_fleet.active;
  draining = false;
  uncertain = false;
}

poll : (budget outside registry observed one_fleet).0 ≡ shown
unfolding budget report reconcile
poll = rw inspected refl

known : lookup "gemma" registry.models ≡ some gemma
unfolding lookup
known = refl

budget-acquire_example :
    (acquire outside registry unsaved observed fleet "gemma" one_fleet).0 ≡ ok live
budget-acquire_example =
    budget-acquire outside registry unsaved observed fleet one_fleet live gemma refl refl known
      (ap (λ b. b.live) poll) (rw poll (omega arith)) (inr (rw poll (omega arith)))

abbrev after_one : System
after_one = record { server = one_fleet; tickets = fleet ∷ [] }

one_step : Reach outside registry beginning after_one
unfolding start
one_step =
    next {t = beginning} {u = after_one} here
      (admitted unsaved observed fleet "gemma" live first_request refl)

Reach-beginning_example : IsCounted one_fleet.active (fleet ∷ [])
Reach-beginning_example = Reach-beginning outside registry one_step

abbrev two_fleet : Server
two_fleet = record settled {
  active = record { interactive = 0; fleet = 2; auxiliary = 0; management = 0 };
}

second_request :
    acquire outside registry unsaved observed fleet "gemma" one_fleet ≡ (ok live, two_fleet)
unfolding acquire names decide reconcile admit over_capacity lookup
second_request = rw inspected refl

Reach-within_slots_example : length (fleet ∷ []) < live.slots
Reach-within_slots_example =
    Reach-within_slots outside registry unsaved observed fleet "gemma" after_one one_step
      second_request

abbrev torn : Server
torn = record settled { uncertain = true }

after_torn : acquire outside registry unsaved observed fleet "gemma" torn ≡ (ok live, one_fleet)
unfolding acquire names decide reconcile admit over_capacity lookup
after_torn = rw inspected refl

abbrev torn_system : System
torn_system = record { server = torn; tickets = [] }

torn_after : torn_system.server ≡ release fleet false one_fleet
unfolding release
torn_after = refl

resumes_torn : Step outside registry torn_system torn_system
unfolding resume release
resumes_torn = resumed refl refl

since_torn : Reach outside registry torn_system torn_system
since_torn = next {t = torn_system} {u = torn_system} here resumes_torn

release-Reach-acquire_example :
    SeenIdle since_torn ⊎ ((sum torn_system.server.active ≡ 0) × (live.busy ≡ 0))
release-Reach-acquire_example =
    release-Reach-acquire outside registry fleet one_fleet torn_after since_torn unsaved observed
      fleet "gemma" after_torn

can_resume : (resume settled).0 ≡ ok tt
unfolding resume
can_resume = refl

after_resume :
    acquire outside registry unsaved observed fleet "gemma" (resume settled).1
    ≡ (ok live, one_fleet)
unfolding acquire resume names decide reconcile admit over_capacity lookup
after_resume = rw inspected refl

read : read_running outside registry observed ≡ ok live
unfolding read_running single int_after value_after describe is_live_geometry is_private occupancy
    flags fleet_capacity lookup
read = refl

abbrev keys : Keys
keys = record {
  interactive = "interactive-key-000000000000";
  fleet = "fleet-key-000000000000000000";
  auxiliary = "auxiliary-key-00000000000000";
  management = "management-key-0000000000000";
}

good_keys : are_keys keys "backend-key-0000000000000000" ≡ true
unfolding are_keys
good_keys = refl
