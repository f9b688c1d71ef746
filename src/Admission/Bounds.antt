-- ===== src/Admission/Bounds.antt =====
-- What an admitted request may rely on, and what a refused one leaves alone.
use lario_llms.Prelude.{
  ◌+◌, ◌≤◌, ◌<◌, String, ◌≡◌, refl, sym, ◌∙◌, ◌⊎◌, true, false, some, List, arith, member, Result,
  ok, err, Fault, eq_refl, lookup,
}
use lario_llms.Registry.{Model, Registry}
use lario_llms.Selection.{Saved}
use lario_llms.Admission.Inspect.{Outside, Observation, Live, inspect}
use lario_llms.Roles.{Role, interactive, fleet, auxiliary, management, can_infer, is_interactive}
use lario_llms.Admission.{
  Counts, sum, increment, Server, reconcile, names, is_rtx, all_names, over_capacity, admit,
  admit_known, decide, acquire, report, budget,
}

-- What the admission of a role leaves true of the counts.
pub record Admitted (reg : Registry) (live : Live) (role : Role) (s t : Server) : Type 0 where
  pub counted : t.active ≡ increment role s.active
  pub within_slots : sum t.active ≤ live.slots
  pub infers : can_infer role ≡ true
  pub within_agents :
      (is_rtx reg ≡ true)
      ⊎ (role ≡ interactive)
      ⊎ (t.active.fleet + t.active.auxiliary ≤ live.agents)
  pub rtx_auxiliary : (is_rtx reg ≡ false) ⊎ (role ≡ auxiliary)
  pub serving : (s.draining ≡ false) × (t.uncertain ≡ false)
  pub settled : (s.uncertain ≡ false) ⊎ ((sum s.active ≡ 0) × (live.busy ≡ 0))

admit_known-eq-ok :
    (reg : Registry) (live : Live) (role : Role) (model : String) (ns : Result (List String))
    (s : Server) {l : Live} {t : Server}
    → admit_known reg live role model s ns ≡ (ok l, t)
    → (l ≡ live)
      × (can_infer role ≡ true)
      × (over_capacity reg live role s.active ≡ false)
      × (t ≡ record s { active = increment role s.active })
admit_known-eq-ok reg live role model (err e) s h = cc
admit_known-eq-ok reg live role model (ok known) s h = unfold admit in ground arith

-- the capacity test, for a role that may infer
increment-Admitted :
    (reg : Registry) (live : Live) (role : Role) (c : Counts)
    → over_capacity reg live role c ≡ false
    → can_infer role ≡ true
    → (sum (increment role c) ≤ live.slots)
      × ((is_rtx reg ≡ true)
          ⊎ (role ≡ interactive)
          ⊎ ((increment role c).fleet + (increment role c).auxiliary ≤ live.agents))
      × ((is_rtx reg ≡ false) ⊎ (role ≡ auxiliary))
unfolding over_capacity
increment-Admitted reg live interactive c h i = ground arith
increment-Admitted reg live fleet c h i = ground arith
increment-Admitted reg live auxiliary c h i = ground arith
increment-Admitted reg live management c h i = cc

decide-open :
    (reg : Registry) (saved : Saved) (role : Role) (model : String) (l : Live) (s : Server)
    {live : Live} {t : Server}
    → decide reg saved role model (ok l) s ≡ (ok live, t)
    → ((reconcile l s).draining ≡ false)
      × ((reconcile l s).uncertain ≡ false)
      × (admit_known reg l role model (reconcile l s) (names reg saved l) ≡ (ok live, t))
unfolding decide
decide-open reg saved role model l s h = ground arith

reconcile-settled :
    (live : Live) (s : Server)
    → (reconcile live s).uncertain ≡ false
    → (s.uncertain ≡ false) ⊎ ((sum s.active ≡ 0) × (live.busy ≡ 0))
unfolding reconcile
reconcile-settled live s h = ground arith

pub active-reconcile : (live : Live) (s : Server) → (reconcile live s).active ≡ s.active
unfolding reconcile
active-reconcile live s = ground arith

pub draining-reconcile : (live : Live) (s : Server) → (reconcile live s).draining ≡ s.draining
unfolding reconcile
draining-reconcile live s = ground arith

decide-eq-ok :
    (reg : Registry) (saved : Saved) (role : Role) (model : String) (r : Result Live) (s : Server)
    {live : Live} {t : Server}
    → decide reg saved role model r s ≡ (ok live, t)
    → (r ≡ ok live) × Admitted reg live role s t
unfolding decide
decide-eq-ok reg saved role model (err e) s h = cc
decide-eq-ok reg saved role model (ok l) s {live} {t} h =
    let s' = reconcile l s in
    let (open_, sure, run) = decide-open reg saved role model l s h in
    let (same, infers, room, next) =
      admit_known-eq-ok reg l role model (names reg saved l) s' run in
    let (slots, agents, rtx) = increment-Admitted reg l role s'.active room infers in
    let active = active-reconcile l s in
    (
      cc,
      record {
        counted = ground (arith, next, active);
        within_slots = rw (next, same) slots;
        infers = infers;
        within_agents = rw (next, same) agents;
        rtx_auxiliary = rtx;
        serving = (sym (draining-reconcile l s) ∙ open_, rw next sure);
        settled = rw same (reconcile-settled l s sure);
      },
    )

-- An admitted request is counted under its own role, within the backend's slots, and within the agent
-- capacity unless it is interactive or the card is the RTX, which serves auxiliary requests alone. The
-- management key never infers. Nothing is admitted while the server drains, nor while it is uncertain:
-- then the same inspection must have found no active request and an idle backend.
pub acquire-Admitted :
    (out : Outside) (reg : Registry) (saved : Saved) (o : Observation) (role : Role)
    (model : String) (s : Server) {live : Live} {t : Server}
    → acquire out reg saved o role model s ≡ (ok live, t)
    → ((inspect out reg o s.device_good_until).0 ≡ ok live) × Admitted reg live role s t
unfolding acquire
acquire-Admitted out reg saved o role model s {live} {t} h =
    let (r, good) = inspect out reg o s.device_good_until in
    let (same, a) = decide-eq-ok reg saved role model r (record s { device_good_until = good }) h in
    (
      same,
      record {
        counted = a.counted;
        within_slots = a.within_slots;
        infers = a.infers;
        within_agents = a.within_agents;
        rtx_auxiliary = a.rtx_auxiliary;
        serving = a.serving;
        settled = a.settled;
      },
    )

admit_known-eq-err :
    (reg : Registry) (live : Live) (role : Role) (model : String) (ns : Result (List String))
    (s : Server) {e : Fault}
    → (admit_known reg live role model s ns).0 ≡ err e
    → ((admit_known reg live role model s ns).1.active ≡ s.active)
      × ((admit_known reg live role model s ns).1.draining ≡ s.draining)
admit_known-eq-err reg live role model (err e) s h = (refl, refl)
admit_known-eq-err reg live role model (ok known) s h = unfold admit in ground arith

decide-eq-err :
    (reg : Registry) (saved : Saved) (role : Role) (model : String) (r : Result Live) (s : Server)
    {e : Fault}
    → (decide reg saved role model r s).0 ≡ err e
    → ((decide reg saved role model r s).1.active ≡ s.active)
      × ((decide reg saved role model r s).1.draining ≡ s.draining)
unfolding decide
decide-eq-err reg saved role model (err _) s h = (refl, refl)
decide-eq-err reg saved role model (ok l) s {e} h = ground (
  arith,
  admit_known-eq-err reg l role model (names reg saved l) (reconcile l s) {e = e},
  active-reconcile l s,
  draining-reconcile l s,
)

-- A refusal, whatever its reason, leaves the active counts and the draining mark as they were.
pub acquire-eq-err :
    (out : Outside) (reg : Registry) (saved : Saved) (o : Observation) (role : Role)
    (model : String) (s : Server) {e : Fault}
    → (acquire out reg saved o role model s).0 ≡ err e
    → ((acquire out reg saved o role model s).1.active ≡ s.active)
      × ((acquire out reg saved o role model s).1.draining ≡ s.draining)
unfolding acquire
acquire-eq-err out reg saved o role model s h =
    let (r, good) = inspect out reg o s.device_good_until in
    decide-eq-err reg saved role model r (record s { device_good_until = good }) h

names-resident :
    (reg : Registry) (saved : Saved) (live : Live) (entry : Model)
    → lookup live.model reg.models ≡ some entry
    → names reg saved live ≡ ok (all_names reg saved live entry.aliases)
unfolding names
names-resident reg saved live entry e = rw e

admit-room :
    (reg : Registry) (live : Live) (role : Role) (known : List String) (s : Server)
    → member live.model known ≡ true
    → is_rtx reg ≡ false
    → can_infer role ≡ true
    → sum s.active < live.slots
    → (is_interactive role ≡ true) ⊎ (s.active.fleet + s.active.auxiliary < live.agents)
    → (admit reg live role live.model known s).0 ≡ ok live
unfolding admit
admit-room reg live interactive known s there rtx infers room share = ground arith
admit-room reg live _ known s there rtx infers room share = ground arith

decide-available :
    (reg : Registry) (saved : Saved) (role : Role) (live : Live) (entry : Model) (s : Server)
    → is_rtx reg ≡ false
    → can_infer role ≡ true
    → lookup live.model reg.models ≡ some entry
    → (reconcile live s).draining ≡ false
    → (reconcile live s).uncertain ≡ false
    → sum (reconcile live s).active < live.slots
    → (is_interactive role ≡ true)
      ⊎ ((reconcile live s).active.fleet + (reconcile live s).active.auxiliary < live.agents)
    → (decide reg saved role live.model (ok live) s).0 ≡ ok live
unfolding decide
decide-available reg saved role live entry s rtx infers e open_ sure room share =
    let known = all_names reg saved live entry.aliases in
    simp (open_, sure, names-resident reg saved live entry e)
      (admit-room reg live role known (reconcile live s) (ground (arith, eq_refl live.model)) rtx
        infers room share)

report-ok :
    (live : Live) (s : Server)
    → 0 < (report (ok live) s).0.available
    → ((reconcile live s).draining ≡ false)
      × ((reconcile live s).uncertain ≡ false)
      × (sum (reconcile live s).active < live.slots)
      × ((report (ok live) s).0.agents ≡ live.agents)
      × ((report (ok live) s).0.active ≡ (reconcile live s).active)
unfolding report
report-ok live s h = ground arith

report-decide :
    (reg : Registry) (saved : Saved) (role : Role) (r : Result Live) (live : Live) (entry : Model)
    (s : Server)
    → is_rtx reg ≡ false
    → can_infer role ≡ true
    → lookup live.model reg.models ≡ some entry
    → r ≡ ok live
    → 0 < (report r s).0.available
    → (is_interactive role ≡ true)
      ⊎ ((report r s).0.active.fleet + (report r s).0.active.auxiliary < (report r s).0.agents)
    → (decide reg saved role live.model r s).0 ≡ ok live
report-decide reg saved role r live entry s rtx infers e same free share =
    let (open_, sure, room, agents, active) = report-ok live s (rw same at free) in
    rw same (
      decide-available reg saved role live entry s rtx infers e open_ sure room
        (rw (agents, active) at (rw same at share)))

report-live :
    (r : Result Live) (s : Server) {live : Live} → (report r s).0.live ≡ some live → r ≡ ok live
unfolding report
report-live (err e) s h = cc
report-live (ok l) s h = cc

-- The budget promises no more than a request gets: where it shows a free slot, and for a role other than
-- interactive a free agent, a request for the resident model that sees the same backend is admitted.
-- (Not on the RTX, which serves auxiliary requests alone, nor for the management key; the resident model
-- is registered.)
pub budget-acquire :
    (out : Outside) (reg : Registry) (saved : Saved) (o : Observation) (role : Role) (s : Server)
    (live : Live) (entry : Model)
    → is_rtx reg ≡ false
    → can_infer role ≡ true
    → lookup live.model reg.models ≡ some entry
    → (budget out reg o s).0.live ≡ some live
    → 0 < (budget out reg o s).0.available
    → (is_interactive role ≡ true)
      ⊎ ((budget out reg o s).0.active.fleet + (budget out reg o s).0.active.auxiliary
          < (budget out reg o s).0.agents)
    → (acquire out reg saved o role live.model s).0 ≡ ok live
unfolding budget acquire
budget-acquire out reg saved o role s live entry rtx infers e shown free share =
    let (r, good) = inspect out reg o s.device_good_until in
    let s' = record s { device_good_until = good } in
    report-decide reg saved role r live entry s' rtx infers e (report-live r s' shown) free share
