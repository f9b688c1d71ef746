-- ===== src/Admission.antt =====
-- shared/admission/server.py: the admission server in front of one backend. Every method here runs under
-- the server's lock from its first step to its last, so that a call is one step on the state.
pub mod Inspect
pub mod Bounds
pub mod Trace
pub mod Quarantine
pub mod Keys
pub mod Examples
use Inspect.{Outside, Observation, Live, inspect}
use lario_llms.Prelude.{
  ℕ, suc, ◌+◌, ◌-◌, String, Bool, true, false, not, ◌&&◌, ◌||◌, Option, none, some, List, [], ◌∷◌,
  ◌++◌, str_eq, leb, ◌==◌, if◌then◌else◌, member, Dict, lookup, Result, ok, err, http, ◌>>=◌,
}
use lario_llms.Roles.{
  Role, interactive, fleet, auxiliary, management, can_infer, is_interactive, is_auxiliary,
}
use lario_llms.Registry.{Model, Registry, aliases, effective_models}
use lario_llms.Selection.{Saved, selection, model_aliases, own_aliases}

-- `Counter` over the roles
pub record Counts : Type 0 where
  pub interactive : ℕ
  pub fleet : ℕ
  pub auxiliary : ℕ
  pub management : ℕ

abbrev pub no_counts : Counts
no_counts = record { interactive = 0; fleet = 0; auxiliary = 0; management = 0 }

abbrev pub sum : Counts → ℕ
sum c = c.interactive + c.fleet + c.auxiliary + c.management

abbrev pub increment : Role → Counts → Counts
increment interactive c = record c { interactive = c.interactive + 1 }
increment fleet c = record c { fleet = c.fleet + 1 }
increment auxiliary c = record c { auxiliary = c.auxiliary + 1 }
increment management c = record c { management = c.management + 1 }

-- A count below zero cannot arise: only a request that was counted is released (Admission/Trace).
abbrev pub decrement : Role → Counts → Counts
decrement interactive c = record c { interactive = c.interactive - 1 }
decrement fleet c = record c { fleet = c.fleet - 1 }
decrement auxiliary c = record c { auxiliary = c.auxiliary - 1 }
decrement management c = record c { management = c.management - 1 }

pub record Server : Type 0 where
  pub active : Counts
  pub rejections : Counts
  pub swap_rejections : ℕ
  pub draining : Bool
  pub uncertain : Bool
  pub device_good_until : ℕ

-- a new process does not know what its backend is doing
unfoldable pub start : Server
start = record {
  active = no_counts;
  rejections = no_counts;
  swap_rejections = 0;
  draining = false;
  uncertain = true;
  device_good_until = 0;
}

pub reconcile : Live → Server → Server
reconcile live s =
    if s.uncertain && sum s.active == 0 && live.busy == 0 then record s { uncertain = false } else s

abbrev same_geometry : Model → Live → Bool
same_geometry spec live =
    spec.context == live.context && spec.slots == live.slots && spec.reserved == live.reserved

abbrev profile_of : Registry → String → Live → Option Model → List String
profile_of reg preset live none = []
profile_of reg preset live (some spec) =
    if same_geometry spec live
    then elim (model_aliases reg live.model preset) [ ok names ↦ names | err _ ↦ [] ]
    else []

abbrev profile_with : Registry → Live → Result (String × String) → List String
profile_with reg live (err _) = []
profile_with reg live (ok (_, preset)) = elim (effective_models reg preset) [
  | err _ ↦ []
  | ok specs ↦ profile_of reg preset live (lookup live.model specs)
]

-- the names of the saved profile, where its geometry is the running one's; the exceptions of the lookup
-- are swallowed
pub profile_names : Registry → Saved → Live → List String
profile_names reg saved live = profile_with reg live (selection saved)

abbrev is_selected : Saved → Live → Bool
is_selected saved live = elim saved.model [ none ↦ false | some m ↦ str_eq m live.model ]

abbrev pub all_names : Registry → Saved → Live → List String → List String
all_names reg saved live own =
    live.model
    ∷ (own ++ (if is_selected saved live then aliases reg ++ profile_names reg saved live else []))

pub names : Registry → Saved → Live → Result (List String)
names reg saved live =
    own_aliases (lookup live.model reg.models) >>= λ own. ok (all_names reg saved live own)

abbrev pub is_rtx : Registry → Bool
is_rtx reg = str_eq reg.hardware "rtx5080"

pub over_capacity : Registry → Live → Role → Counts → Bool
over_capacity reg live role active =
    (can_infer role && not (is_interactive role))
      && not (is_rtx reg)
      && leb live.agents (active.fleet + active.auxiliary)
    || is_rtx reg && not (is_auxiliary role)
    || leb live.slots (sum active)

-- the part of `acquire` after the names are known
pub admit : Registry → Live → Role → String → List String → Server → Result Live × Server
unfolding over_capacity
admit reg live role model known s =
    if not (member model known)
    then (err (http 409 "model_not_resident"), record s { swap_rejections = s.swap_rejections + 1 })
    else if not (can_infer role)
    then (err (http 403 "management_key_cannot_infer"), s)
    else if over_capacity reg live role s.active
    then (
      err (http 429 "hardware_capacity_exhausted"),
      record s { rejections = increment role s.rejections },
    )
    else (ok live, record s { active = increment role s.active })

abbrev pub admit_known :
    Registry → Live → Role → String → Server → Result (List String) → Result Live × Server
admit_known reg live role model s (err e) = (err e, s)
admit_known reg live role model s (ok known) = admit reg live role model known s

pub decide : Registry → Saved → Role → String → Result Live → Server → Result Live × Server
decide reg saved role model (err _) s = (err (http 503 "backend_unavailable"), s)
decide reg saved role model (ok live) s =
    let s' = reconcile live s in
    if s'.draining || s'.uncertain
    then (err (http 503 "hardware_draining_or_reconciling"), s')
    else admit_known reg live role model s' (names reg saved live)

pub acquire :
    Outside → Registry → Saved → Observation → Role → String → Server → Result Live × Server
unfolding decide reconcile
acquire out reg saved o role model s =
    let (r, good) = inspect out reg o s.device_good_until in
    decide reg saved role model r (record s { device_good_until = good })

pub release : Role → Bool → Server → Server
release role clean s = record s {
  active = decrement role s.active;
  uncertain = s.uncertain || not clean;
}

pub record Budget : Type 0 where
  pub live : Option Live
  pub ready : Bool
  pub agents : ℕ
  pub available : ℕ
  pub active : Counts
  pub draining : Bool
  pub uncertain : Bool

pub report : Result Live → Server → Budget × Server
report (err _) s = (
  record {
    live = none;
    ready = false;
    agents = 0;
    available = 0;
    active = s.active;
    draining = false;
    uncertain = false;
  },
  s,
)
report (ok live) s =
    let s' = reconcile live s in
    let ready = not s'.uncertain && not s'.draining in
    (
      record {
        live = some live;
        ready = ready;
        agents = if ready then live.agents else 0;
        available = if ready then live.slots - sum s'.active else 0;
        active = s'.active;
        draining = s'.draining;
        uncertain = s'.uncertain;
      },
      s',
    )

-- The error answer has no `draining` and `uncertain`; they stand here as false.
pub budget : Outside → Registry → Observation → Server → Budget × Server
unfolding report reconcile
budget out reg o s =
    let (r, good) = inspect out reg o s.device_good_until in
    report r (record s { device_good_until = good })

-- /admin/drain and /admin/resume
pub drain : Server → Server
drain s = record s { draining = true }

pub resume : Server → Result (Unit {0}) × Server
resume s =
    if not (sum s.active == 0)
    then (err (http 409 "active requests"), s)
    else (ok tt, record s { uncertain = true; draining = false })
