-- ===== src/Gateway/Control/Replay.antt =====
-- Operations are idempotent: a repeated key answers as before and does nothing.
use lario_llms.Prelude.{
  String, ◌≡◌, refl, sym, ap, ◌∙◌, Bool, false, ◌&&◌, inl, inr, Option, none, some, List,
  if◌then◌else◌, str_eq, eq_iff, eq_refl, lookup, lookup-insert, Result, ok, err, http, arith,
  Bool-cases,
}
use lario_llms.Gateway.{Config, Resident, Request, Coordinator}
use lario_llms.Gateway.Control.{
  Action, Body, Outcome, Owner, act, after_lock, complete, finish_act, run_action, fresh, replay,
  with_token, control, revised, needs_hardware, operate,
}

module _ (cfg : Config) (inspected : Result (Option Resident)) (service : Result (Unit {0})) where
  recorded-complete :
      (token serialized : String) (action : Action) (runs : List Request)
      (s : Result (Unit {0}) × Coordinator) (o : Owner) {outcome : Outcome} {o' : Owner}
      → complete token serialized action runs s o ≡ (ok outcome, o')
      → lookup token o'.operations ≡ some (serialized, outcome)
  recorded-complete token serialized action runs (err e, c) o h = cc
  recorded-complete token serialized action runs (ok tt, c) o {outcome} {o'} h =
      ground (arith, h, lookup-insert token token (serialized, outcome) o.operations, eq_refl token)

  recorded-finish_act :
      (body : Body) (token : String) (action : Action) (r : Result (List Request) × Coordinator)
      (o : Owner) {outcome : Outcome} {o' : Owner}
      → finish_act body token action service r o ≡ (ok outcome, o')
      → lookup token o'.operations ≡ some (body.serialized, outcome)
  recorded-finish_act body token action (err e, c) o h = cc
  recorded-finish_act body token action (ok runs, c) o h =
      recorded-complete token body.serialized action runs (after_lock action service c) o h

  recorded-run_action :
      (body : Body) (token : String) (action : Option Action) (o : Owner) {outcome : Outcome}
      {o' : Owner}
      → run_action cfg body token inspected service action o ≡ (ok outcome, o')
      → lookup token o'.operations ≡ some (body.serialized, outcome)
  recorded-run_action body token none o h = cc
  recorded-run_action body token (some action) o h =
      recorded-finish_act body token action (act cfg body inspected action o.coordinator) o h

  recorded-fresh :
      (body : Body) (token : String) (o : Owner) {outcome : Outcome} {o' : Owner}
      → fresh cfg body token inspected service o ≡ (ok outcome, o')
      → lookup token o'.operations ≡ some (body.serialized, outcome)
  recorded-fresh body token o h =
      elim (Bool-cases (revised body.expected_revision o.coordinator.policy.revision)) [
        | inl same ↦ recorded-run_action body token body.action o (rw same at h)
        | inr stale ↦ let h' = rw stale at h in cc
      ]

  recorded-replay :
      (body : Body) (token : String) (prior : Option (String × Outcome)) (o : Owner)
      {outcome : Outcome} {o' : Owner}
      → lookup token o.operations ≡ prior
      → replay cfg body token inspected service prior o ≡ (ok outcome, o')
      → lookup token o'.operations ≡ some (body.serialized, outcome)
  recorded-replay body token none o e h = recorded-fresh body token o h
  recorded-replay body token (some (serialized, outcome)) o e h =
      ground (arith, e, eq_iff serialized body.serialized)

  recorded-with_token :
      (body : Body) (t : Option String) (o : Owner) {outcome : Outcome} {o' : Owner}
      → with_token cfg body inspected service t o ≡ (ok outcome, o')
      → (token : String) × (t ≡ some token)
        × (lookup token o'.operations ≡ some (body.serialized, outcome))
  recorded-with_token body none o h = cc
  recorded-with_token body (some token) o h =
      (token, refl, recorded-replay body token (lookup token o.operations) o refl h)

  -- what a success leaves in the table of operations
  pub recorded-control :
      (body : Body) (o : Owner) {outcome : Outcome} {o' : Owner}
      → control cfg body inspected service o ≡ (ok outcome, o')
      → (token : String) × (body.token ≡ some token)
        × (lookup token o'.operations ≡ some (body.serialized, outcome))
  unfolding control
  recorded-control body o h = recorded-with_token body body.token o h

replay-stored :
    (cfg : Config) (body : Body) (token : String) (inspected : Result (Option Resident))
    (service : Result (Unit {0})) (o : Owner) {serialized : String} {outcome : Outcome}
    → body.token ≡ some token
    → lookup token o.operations ≡ some (serialized, outcome)
    → control cfg body inspected service o ≡ (
        if str_eq serialized body.serialized
        then (ok outcome, o)
        else (err (http 409 "idempotency_key_reused"), o))
unfolding control
replay-stored cfg body token inspected service o t s = rw (t, s) refl

-- the record of an operation stays as it is
abbrev Kept : String → String × Outcome → Owner → Type 0
Kept token entry o = lookup token o.operations ≡ some entry

module _ (cfg : Config) (inspected : Result (Option Resident)) (service : Result (Unit {0}))
    (kept : String) (entry : String × Outcome) where
  Kept-complete :
      (token serialized : String) (action : Action) (runs : List Request)
      (s : Result (Unit {0}) × Coordinator) (o : Owner)
      → lookup token o.operations ≡ none
      → Kept kept entry o
      → Kept kept entry (complete token serialized action runs s o).1
  Kept-complete token serialized action runs (err e, c) o new h = h
  Kept-complete token serialized action runs (ok tt, c) o new h =
      let other : str_eq token kept ≡ false = elim (Bool-cases (str_eq token kept)) [
        | inl same ↦
            let e = ap (λ k. lookup k o.operations) ((eq_iff token kept).0 same) in
            let clash : none ≡ some entry = sym new ∙ e ∙ h in cc
        | inr differ ↦ differ
      ] in
      rw (lookup-insert token kept, other) h

  Kept-finish_act :
      (body : Body) (token : String) (action : Action) (r : Result (List Request) × Coordinator)
      (o : Owner)
      → lookup token o.operations ≡ none
      → Kept kept entry o
      → Kept kept entry (finish_act body token action service r o).1
  Kept-finish_act body token action (err e, c) o new h = h
  Kept-finish_act body token action (ok runs, c) o new h =
      Kept-complete token body.serialized action runs (after_lock action service c) o new h

  Kept-run_action :
      (body : Body) (token : String) (action : Option Action) (o : Owner)
      → lookup token o.operations ≡ none
      → Kept kept entry o
      → Kept kept entry (run_action cfg body token inspected service action o).1
  Kept-run_action body token none o new h = h
  Kept-run_action body token (some action) o new h =
      Kept-finish_act body token action (act cfg body inspected action o.coordinator) o new h

  Kept-replay :
      (body : Body) (token : String) (prior : Option (String × Outcome)) (o : Owner)
      → lookup token o.operations ≡ prior
      → Kept kept entry o
      → Kept kept entry (replay cfg body token inspected service prior o).1
  Kept-replay body token none o e h =
      elim (Bool-cases (revised body.expected_revision o.coordinator.policy.revision)) [
        | inl same ↦ rw same (Kept-run_action body token body.action o e h)
        | inr stale ↦ rw stale h
      ]
  Kept-replay body token (some (serialized, outcome)) o e h =
      elim (Bool-cases (str_eq serialized body.serialized)) [
        | inl same ↦ rw same h
        | inr differ ↦ rw differ h
      ]

  Kept-with_token :
      (body : Body) (t : Option String) (o : Owner)
      → Kept kept entry o
      → Kept kept entry (with_token cfg body inspected service t o).1
  Kept-with_token body none o h = h
  Kept-with_token body (some token) o h =
      Kept-replay body token (lookup token o.operations) o refl h

  Kept-operate :
      (body : Body) (held : Bool) (o : Owner)
      → Kept kept entry o
      → Kept kept entry (operate cfg body held inspected service o).1
  unfolding operate control
  Kept-operate body held o h = elim (Bool-cases (needs_hardware body.action && held)) [
    | inl busy ↦ rw busy h
    | inr free ↦ rw free (Kept-with_token body body.token o h)
  ]

-- What comes after an operation: operations, and steps of the coordinator, which leave the table of operations.
pub data Later (cfg : Config) (o : Owner) : Owner → Type 0 where
  here : Later cfg o o
  operates :
      {t : Owner}
      → Later cfg o t
      → (body : Body) (held : Bool) (inspected : Result (Option Resident))
        (service : Result (Unit {0}))
      → Later cfg o (operate cfg body held inspected service t).1
  steps : {t : Owner} (c : Coordinator) → Later cfg o t → Later cfg o (record t { coordinator = c })

Kept-Later :
    (cfg : Config) (token : String) (entry : String × Outcome) {o t : Owner}
    → Kept token entry o
    → Later cfg o t
    → Kept token entry t
Kept-Later cfg token entry h here = h
Kept-Later cfg token entry h (operates {t = t} l body held inspected service) =
    Kept-operate cfg inspected service token entry body held t (Kept-Later cfg token entry h l)
Kept-Later cfg token entry h (steps c l) = Kept-Later cfg token entry h l

operate-ok :
    (cfg : Config) (body : Body) (held : Bool) (inspected : Result (Option Resident))
    (service : Result (Unit {0})) (o : Owner) {outcome : Outcome} {o' : Owner}
    → operate cfg body held inspected service o ≡ (ok outcome, o')
    → control cfg body inspected service o ≡ (ok outcome, o')
unfolding operate
operate-ok cfg body held inspected service o h =
    elim (Bool-cases (needs_hardware body.action && held)) [
      | inl busy ↦ let h' = rw busy at h in cc
      | inr free ↦ rw free at h
    ]

-- Once an operation succeeded, its key does nothing any more, however many operations and steps of the
-- coordinator came since, and whatever the backend and the service manager say now. The same body is
-- answered from the record and another body under the key is refused; only one that stops the hardware is
-- refused before that while another workload holds it, also where it is the same.
pub operate-operate :
    (cfg : Config) (body again : Body) (held₁ held₂ : Bool) (i₁ i₂ : Result (Option Resident))
    (s₁ s₂ : Result (Unit {0})) (o : Owner) {outcome : Outcome} {o' later : Owner}
    → again.token ≡ body.token
    → operate cfg body held₁ i₁ s₁ o ≡ (ok outcome, o')
    → Later cfg o' later
    → operate cfg again held₂ i₂ s₂ later ≡ (
      if needs_hardware again.action && held₂
          then err (http 409 "hardware_workload_busy")
          else if str_eq body.serialized again.serialized
          then ok outcome
          else err (http 409 "idempotency_key_reused"),
      later,
    )
unfolding operate
operate-operate cfg body again held₁ held₂ i₁ i₂ s₁ s₂ o {outcome} {o'} {later} same h l =
    let (token, t, stored) =
      recorded-control cfg i₁ s₁ body o (operate-ok cfg body held₁ i₁ s₁ o h) in
    answered (
      replay-stored cfg again token i₂ s₂ later (same ∙ t)
        (Kept-Later cfg token (body.serialized, outcome) stored l))
  where
    answered :
        control cfg again i₂ s₂ later ≡ (
          if str_eq body.serialized again.serialized
          then (ok outcome, later)
          else (err (http 409 "idempotency_key_reused"), later))
        → operate cfg again held₂ i₂ s₂ later ≡ (
          if needs_hardware again.action && held₂
              then err (http 409 "hardware_workload_busy")
              else if str_eq body.serialized again.serialized
              then ok outcome
              else err (http 409 "idempotency_key_reused"),
          later,
        )
    answered e = elim (Bool-cases (needs_hardware again.action && held₂)) [
      | inl busy ↦ rw busy refl
      | inr free ↦ elim (Bool-cases (str_eq body.serialized again.serialized)) [
        | inl alike ↦ rw (free, e, alike) refl
        | inr differ ↦ rw (free, e, differ) refl
      ]
    ]
