-- ===== src/Admission/Inspect.antt =====
-- shared/admission/server.py, Admission.inspect: what the admission server believes of its backend. The
-- answers of the backend, the clock, `shlex.split`, `int`, `urlparse` and SHA-256 come from outside: the
-- record `Observation` holds what one call reads, and `Outside` the two functions on texts.
pub mod Geometry
use lario_llms.Prelude.{
  ℕ, ◌+◌, ◌/◌, ◌%◌, String, Bool, not, ◌&&◌, Option, none, some, List, [], ◌∷◌, str_eq, ltb, leb,
  ◌==◌, if◌then◌else◌, length, count, select, member, lookup, Result, ok, err, raised, ◌>>=◌, ◌>>◌,
  require,
}
use lario_llms.Registry.{Model, Registry, fleet_capacity}
use lario_llms.Registry.Removal.{value_after}

pub record Outside : Type 0 where
  -- `int(text)`; `none` where it raises or gives a negative number, which every use refuses
  pub int : String → Option ℕ
  pub sha256 : String → String

-- An item of `/running`. `args` is `shlex.split(item["cmd"])`, which may raise.
pub record Item : Type 0 where
  pub model : String
  pub state : String
  pub cmd : String
  pub args : Result (List String)
  pub hostname : String
  pub scheme : String

pub record Live : Type 0 where
  pub model : String
  pub slots : ℕ
  pub reserved : ℕ
  pub context : ℕ
  pub agents : ℕ
  pub busy : ℕ
  pub generation : String

-- `device` and `probe` are `none` where the server was made without them. A slot's `is_processing` is
-- `none` where it is not a Boolean, and `resident` is `ok none` where the answer is not a list.
pub record Observation : Type 0 where
  pub now : ℕ
  pub device : Option (Result (Unit {0}))
  pub probe : Option (Result Live)
  pub running : Result (List Item)
  pub resident : Result (Option (List (Option Bool)))

-- A check that passed is trusted for five seconds.
unfoldable pub check_device : Observation → ℕ → Result (Unit {0}) × ℕ
check_device o good_until = elim o.device [
  | none ↦ (ok tt, good_until)
  | some r ↦
      if leb good_until o.now
      then elim r [ ok _ ↦ (ok tt, o.now + 5) | err e ↦ (err e, good_until) ]
      else (ok tt, good_until)
]

unfoldable pub single : List Item → List Item → Result Item
single (_ ∷ []) (item ∷ []) = ok item
single _ _ = err (raised "no single registered backend ready")

abbrev pub or_raise {ℓ} : {A : Type ℓ} → String → Option A → Result A
or_raise message none = err (raised message)
or_raise message (some a) = ok a

unfoldable pub int_after : Outside → String → List String → Result ℕ
int_after out flag args =
    or_raise "ValueError" (value_after flag args) >>= λ text. or_raise "ValueError" (out.int text)

-- the list of flags if every slot has a Boolean one
unfoldable pub flags : List (Option Bool) → Option (List Bool)
flags [] = some []
flags (none ∷ r) = none
flags (some b ∷ r) = let rest = flags r in elim rest [ none ↦ none | some bs ↦ some (b ∷ bs) ]

unfoldable pub is_live_geometry : ℕ → ℕ → ℕ → Bool
is_live_geometry slots total reserved =
    not (ltb slots 1) && total % slots == 0 && leb 4096 (total / slots) && leb reserved slots

unfoldable pub is_private : Item → Bool
is_private item =
    member item.hostname ("localhost" ∷ "127.0.0.1" ∷ "::1" ∷ []) && str_eq item.scheme "http"

unfoldable pub occupancy : ℕ → Option (List (Option Bool)) → Result ℕ
occupancy slots none = err (raised "unknown backend occupancy")
occupancy slots (some rows) =
    require (length rows == slots) (raised "unknown backend occupancy")
    >> (or_raise "unknown slot state" (flags rows) >>= λ bs. ok (count (λ b. b) bs))

unfoldable pub describe : Outside → Registry → Observation → Item → Model → Result Live
describe out reg o item entry = do
  args ← item.args
  slots ← int_after out "--parallel" args
  total ← int_after out "-c" args
  require (is_live_geometry slots total entry.reserved) (raised "invalid live geometry")
  require (is_private item) (raised "unexpected private model endpoint")
  rows ← o.resident
  busy ← occupancy slots rows
  ok (record {
    model = item.model;
    slots = slots;
    reserved = entry.reserved;
    context = total / slots;
    agents = fleet_capacity slots entry.reserved (total / slots);
    busy = busy;
    generation = out.sha256 item.cmd;
  })

abbrev pub of_item : Outside → Registry → Observation → Item → Result Live
of_item out reg o item = do
  entry ← or_raise "no single registered backend ready" (lookup item.model reg.models)
  describe out reg o item entry

abbrev pub of_running : Outside → Registry → Observation → List Item → Result Live
of_running out reg o running = do
  item ← single running (select (λ i. str_eq i.state "ready") running)
  of_item out reg o item

unfoldable pub read_running : Outside → Registry → Observation → Result Live
read_running out reg o = do running ← o.running; of_running out reg o running

pub with_agents : Live → Live
with_agents s = record s { agents = fleet_capacity s.slots s.reserved s.context }

unfoldable pub read_backend : Outside → Registry → Observation → Result Live
read_backend out reg o = elim o.probe [
  | none ↦ read_running out reg o
  | some r ↦ r >>= λ s. ok (with_agents s)
]

-- The second part is the new `device_good_until`.
unfoldable pub inspect : Outside → Registry → Observation → ℕ → Result Live × ℕ
inspect out reg o good_until =
    let (r, good_until') = check_device o good_until in
    (r >>= λ _. read_backend out reg o, good_until')
