-- ===== src/Admission/Inspect/Geometry.antt =====
-- What an inspection of a running backend guarantees.
use lario_llms.Prelude.{
  ℕ, ◌/◌, ◌≤◌, String, ◌≡◌, ap, ◌∙◌, inl, inr, Bool, true, List, [], ◌∷◌, arith, length,
  count-le-length, Option, none, some, ok, Option-cases, lookup, >>=-eq-ok, select, str_eq, eq_iff,
}
use lario_llms.Registry.{Model, Registry, fleet_capacity}
use lario_llms.Admission.Inspect.{
  Outside, Observation, Live, Item, or_raise, flags, occupancy, is_live_geometry, is_private,
  describe, read_running, single, of_item, of_running,
}

length-flags :
    (rows : List (Option Bool)) {bs : List Bool} → flags rows ≡ some bs → length bs ≡ length rows
unfolding flags
length-flags [] h = ground arith
length-flags (none ∷ r) h = cc
length-flags (some b ∷ r) h = elim (Option-cases (flags r)) [
  | inl nothing ↦ ground arith
  | inr (bs, found) ↦ ground (arith, length-flags r found)
]

occupancy-le :
    (slots : ℕ) (rows : Option (List (Option Bool))) {busy : ℕ}
    → occupancy slots rows ≡ ok busy
    → busy ≤ slots
unfolding occupancy
occupancy-le slots none h = cc
occupancy-le slots (some rows) h = elim (Option-cases (flags rows)) [
  | inl nothing ↦ ground arith
  | inr (bs, found) ↦ ground (arith, length-flags rows found, count-le-length (λ b. b) bs)
]

is_live_geometry-true :
    (slots total reserved : ℕ)
    → is_live_geometry slots total reserved ≡ true
    → (1 ≤ slots) × (4096 ≤ total / slots) × (reserved ≤ slots)
unfolding is_live_geometry
is_live_geometry-true slots total reserved h = ground arith

-- What is believed of a backend that runs `item`: the geometry that every answer of the server uses.
pub record IsLive (entry : Model) (item : Item) (live : Live) : Type 0 where
  pub model : live.model ≡ item.model
  pub slots : 1 ≤ live.slots
  pub context : 4096 ≤ live.context
  pub reserved : live.reserved ≡ entry.reserved
  pub fits : live.reserved ≤ live.slots
  pub busy : live.busy ≤ live.slots
  pub agents : live.agents ≡ fleet_capacity live.slots live.reserved live.context
  pub local : is_private item ≡ true

describe-IsLive :
    (out : Outside) (reg : Registry) (o : Observation) (item : Item) (entry : Model) {live : Live}
    → describe out reg o item entry ≡ ok live
    → IsLive entry item live
unfolding describe
describe-IsLive out reg o item entry h = grind (arith, occupancy-le, is_live_geometry-true)

or_raise-eq-ok {ℓ} :
    {A : Type ℓ} (message : String) (o : Option A) {a : A} → or_raise message o ≡ ok a → o ≡ some a
or_raise-eq-ok message none h = cc
or_raise-eq-ok message (some b) h = cc

abbrev is_ready : Item → Bool
is_ready i = str_eq i.state "ready"

single-eq-ok :
    (running : List Item) {item : Item}
    → single running (select is_ready running) ≡ ok item
    → (running ≡ item ∷ []) × (item.state ≡ "ready")
unfolding single
single-eq-ok [] h = cc
single-eq-ok (i ∷ []) h = ground (arith, eq_iff i.state "ready")
single-eq-ok (i ∷ j ∷ r) h = ground arith

-- An inspection without a probe succeeds only on a backend that runs one item, ready and registered, at a
-- private endpoint; its geometry is then usable and its busy slots are among its slots.
pub read_running-IsLive :
    (out : Outside) (reg : Registry) (o : Observation) {live : Live}
    → read_running out reg o ≡ ok live
    → (item : Item) × (entry : Model) × (o.running ≡ ok (item ∷ []))
      × (item.state ≡ "ready")
      × (lookup item.model reg.models ≡ some entry)
      × IsLive entry item live
unfolding read_running
read_running-IsLive out reg o h =
    let (running, answered, h₁) = >>=-eq-ok o.running (of_running out reg o) h in
    let (item, one, h₂) =
      >>=-eq-ok (single running (select is_ready running)) (of_item out reg o) h₁ in
    let (entry, known, h₃) =
      >>=-eq-ok (or_raise "no single registered backend ready" (lookup item.model reg.models))
        (describe out reg o item) h₂ in
    let (same, ready) = single-eq-ok running one in
    (
      item,
      entry,
      answered ∙ ap ok same,
      ready,
      or_raise-eq-ok "no single registered backend ready" (lookup item.model reg.models) known,
      describe-IsLive out reg o item entry h₃,
    )
