-- ===== src/Gateway.antt =====
-- shared/serving/gateway.py and shared/serving/state.py: the coordinator of one hardware with fixed
-- profiles. This file has its state and the parts that its methods share; the methods are in the children.
-- What a client says of itself for display only (session, title, location, kind, start time) is left out.
pub mod Reserve
pub mod Control
pub mod Trace
pub mod Clients
pub mod Examples
use lario_llms.Prelude.{
  ℕ, ◌+◌, String, Bool, true, false, Option, none, some, List, [], ◌∷◌, if◌then◌else◌, str_eq,
  length, any, count, member, Dict, lookup, insert, remove, has_key, values, Result, ok, err, http,
}
use lario_llms.Roles.{Role, interactive, fleet, auxiliary, management}

-- A compiled profile (shared/serving/catalog.py): the fields that admission reads.
pub record Profile : Type 0 where
  pub id : String
  pub model : String
  pub preset : String
  pub context : ℕ
  pub slots : ℕ
  pub reserved : ℕ
  pub vision : Bool
  pub allow_interactive : Bool

pub record Config : Type 0 where
  pub hardware : String
  pub profiles : Dict Profile

-- What a successful inspection found resident: a profile's public fields and the busy slots.
pub record Resident : Type 0 where
  pub id : String
  pub model : String
  pub context : ℕ
  pub slots : ℕ
  pub reserved : ℕ
  pub busy : ℕ

-- the durable policy of shared/serving/state.py
pub record Policy : Type 0 where
  pub revision : ℕ
  pub paused : Bool
  pub disabled : List String
  pub legacy : Dict String
  pub last_profile : Option String

pub data Phase : Type 0 where
  loading running : Phase

pub record Request : Type 0 where
  pub id : String
  pub profile_id : String
  pub role : Role
  pub client : String
  pub run_id : String
  pub run_key : String
  pub instance_id : String
  pub phase : Phase

-- `loading` is `loading_id`; it is set and cleared with the task of the same activation. `marker` is the
-- file `off`, `cancelled` the table of cancelled runs.
pub record Coordinator : Type 0 where
  pub policy : Policy
  pub marker : Bool
  pub uncertain : Bool
  pub requests : Dict Request
  pub loading : Option String
  pub last_error : Option String
  pub cancelled : List String

-- Store.change with no update: every change of the policy is a new revision.
abbrev pub bump : Policy → Policy
bump p = record p { revision = p.revision + 1 }

abbrev pub touch : Coordinator → Coordinator
touch c = record c { policy = bump c.policy }

abbrev pub resolved : Config → String → Result String
resolved cfg target =
    if has_key target cfg.profiles then ok target else err (http 404 "unknown_or_retired_profile")

abbrev pub legacy_target : Option String → String → String
legacy_target none key = key
legacy_target (some target) key = target

unfoldable pub resolve : Config → Coordinator → String → Result String
resolve cfg c key = resolved cfg (legacy_target (lookup key c.policy.legacy) key)

abbrev pub is_role : Role → Role → Bool
is_role interactive interactive = true
is_role fleet fleet = true
is_role auxiliary auxiliary = true
is_role management management = true
is_role _ _ = false

-- `Counter(r['role'] for r in self.requests.values())[role]`
abbrev pub count_role : Role → Dict Request → ℕ
count_role role requests = count (λ (k, r). is_role role r.role) requests
