-- ===== src/Gateway/Control/Induction.antt =====
-- A relation between the coordinator before and after, proved for each action and for the part after the
-- lock, holds of a whole operation.
use lario_llms.Prelude.{
  String, inl, inr, Option, none, some, List, str_eq, lookup, Result, ok, err, Bool-cases,
}
use lario_llms.Gateway.{Config, Resident, Request, Coordinator}
use lario_llms.Gateway.Control.{
  Action, Body, Outcome, Owner, act, after_lock, complete, finish_act, run_action, fresh, replay,
  with_token, control, revised,
}

module _ (cfg : Config) (R : Coordinator → Coordinator → Type 0)
    (R-refl : (c : Coordinator) → R c c)
    (R-act : (body : Body) (inspected : Result (Option Resident)) (action : Action)
        (c : Coordinator)
      → R c (act cfg body inspected action c).1)
    (R-after_lock : (action : Action) (service : Result (Unit {0})) (c d : Coordinator)
      → R c d
      → R c (after_lock action service d).1) where
  in_complete :
      (token serialized : String) (action : Action) (runs : List Request)
      (s : Result (Unit {0}) × Coordinator) (o : Owner)
      → R o.coordinator s.1
      → R o.coordinator (complete token serialized action runs s o).1.coordinator
  in_complete token serialized action runs (err e, c) o h = h
  in_complete token serialized action runs (ok _, c) o h = h

  in_finish_act :
      (body : Body) (token : String) (action : Action) (service : Result (Unit {0}))
      (r : Result (List Request) × Coordinator) (o : Owner)
      → R o.coordinator r.1
      → R o.coordinator (finish_act body token action service r o).1.coordinator
  in_finish_act body token action service (err e, c) o h = h
  in_finish_act body token action service (ok runs, c) o h =
      in_complete token body.serialized action runs (after_lock action service c) o
        (R-after_lock action service o.coordinator c h)

  in_run_action :
      (body : Body) (inspected : Result (Option Resident)) (service : Result (Unit {0})) (o : Owner)
      (token : String) (action : Option Action)
      → R o.coordinator (run_action cfg body token inspected service action o).1.coordinator
  in_run_action body inspected service o token none = R-refl o.coordinator
  in_run_action body inspected service o token (some action) =
      in_finish_act body token action service (act cfg body inspected action o.coordinator) o
        (R-act body inspected action o.coordinator)

  in_fresh :
      (body : Body) (inspected : Result (Option Resident)) (service : Result (Unit {0})) (o : Owner)
      (token : String)
      → R o.coordinator (fresh cfg body token inspected service o).1.coordinator
  in_fresh body inspected service o token =
      elim (Bool-cases (revised body.expected_revision o.coordinator.policy.revision)) [
        | inl same ↦ rw same (in_run_action body inspected service o token body.action)
        | inr stale ↦ rw stale (R-refl o.coordinator)
      ]

  in_replay :
      (body : Body) (inspected : Result (Option Resident)) (service : Result (Unit {0})) (o : Owner)
      (token : String) (prior : Option (String × Outcome))
      → R o.coordinator (replay cfg body token inspected service prior o).1.coordinator
  in_replay body inspected service o token none = in_fresh body inspected service o token
  in_replay body inspected service o token (some (serialized, outcome)) =
      elim (Bool-cases (str_eq serialized body.serialized)) [
        | inl same ↦ rw same (R-refl o.coordinator)
        | inr differ ↦ rw differ (R-refl o.coordinator)
      ]

  in_with_token :
      (body : Body) (inspected : Result (Option Resident)) (service : Result (Unit {0})) (o : Owner)
      (t : Option String)
      → R o.coordinator (with_token cfg body inspected service t o).1.coordinator
  in_with_token body inspected service o none = R-refl o.coordinator
  in_with_token body inspected service o (some token) =
      in_replay body inspected service o token (lookup token o.operations)

  pub control_induction :
      (body : Body) (inspected : Result (Option Resident)) (service : Result (Unit {0})) (o : Owner)
      → R o.coordinator (control cfg body inspected service o).1.coordinator
  unfolding control
  control_induction body inspected service o = in_with_token body inspected service o body.token
