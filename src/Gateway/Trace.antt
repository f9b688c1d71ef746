-- ===== src/Gateway/Trace.antt =====
-- The coordinator over time: any order of reservations, waits, ends of requests, activations and operator
-- actions, with any answers of the backend and the service manager.
pub mod Orderly
use lario_llms.Prelude.{
  ℕ, zero, suc, ◌+◌, ◌-◌, ◌<◌, ◌≤◌, String, ◌≡◌, ◌≢◌, refl, sym, ap, ◌∙◌, ◌⊎◌, inl, inr, Bool, true,
  false, not, ◌&&◌, ◌||◌, Option, none, some, List, [], ◌∷◌, ◌++◌, if◌then◌else◌, str_eq, eq_iff,
  eq_refl, leb, ltb, ◌==◌, ==_iff, length, any, member, select, map, Dict, lookup, insert,
  lookup-insert, has_key, values, Fault, Result, ok, err, http, raised, ◌>>=◌, ◌>>◌, require, arith,
  Bool-cases, Option-cases, All, All-insert, All-lookup, All-remove, length-remove,
  length-insert_new, length-insert_old, remove,
}
use lario_llms.Gateway.{
  Profile, Phase, loading, running, Config, Resident, Policy, Request, Coordinator, bump, touch,
}
use lario_llms.Gateway.Control.{
  Action, pause, resume, on, off, cancel_all, cancel_and_off, cancel, enable, disable, activate,
  unload, Body, Outcome, Owner, is_busy, is_loading, has_requests, activate_idle, activate_profile,
  when_idle, act, after_lock, complete, finish_act, run_action, fresh, replay, with_token, control,
  drain, tombstones, targets_of, cancel_found, Step, revised, done, set_disabled, sorted_set,
  pause_policy,
}
use lario_llms.Gateway.Reserve.{
  Caller, reserve, entry, resume as resume_request, finish, activate as write_activation,
  end_activation, place, check_caller,
}
use lario_llms.Gateway.Reserve.Guards.{
  reserve-Reserved, Reserved, Written, Loads, joins, starts, resides,
}
use lario_llms.Gateway.Reserve.Exclusive.{reserve-Allowed, empty-of-length, place-start}

module _ (cfg : Config) where
  -- An identifier is a fresh UUID. A wait ends well only after the load has, whose `finally` clears it.
  pub data Transition (s t : Owner) : Type 0 where
    reserved :
        (caller : Caller) (identifier requested : String) (inspected : Result (Option Resident))
        (waits : Bool)
        → lookup identifier s.coordinator.requests ≡ none
        → reserve cfg caller identifier requested inspected s.coordinator
          ≡ (ok waits, t.coordinator)
        → Transition s t
    refused :
        (caller : Caller) (identifier requested : String) (inspected : Result (Option Resident))
        (e : Fault)
        → reserve cfg caller identifier requested inspected s.coordinator ≡ (err e, t.coordinator)
        → Transition s t
    waited :
        (identifier : String) (outcome : Result (Unit {0}))
        → (outcome ≡ ok tt → s.coordinator.loading ≡ none)
        → t.coordinator ≡ (resume_request identifier outcome s.coordinator).1
        → Transition s t
    ended :
        (identifier : String) (clean : Bool)
        → t.coordinator ≡ finish identifier clean s.coordinator
        → Transition s t
    activated :
        (key : String) (inspected : Result (Option Resident))
        → t.coordinator ≡ (write_activation key inspected s.coordinator).1
        → Transition s t
    settled : t.coordinator ≡ end_activation s.coordinator → Transition s t
    controlled :
        (body : Body) (inspected : Result (Option Resident)) (service : Result (Unit {0}))
        → t ≡ (control cfg body inspected service s).1
        → Transition s t
    drained : (paused : Bool) → t.coordinator ≡ (drain paused s.coordinator).1 → Transition s t

  pub data Reach (s : Owner) : Owner → Type 0 where
    here : Reach s s
    next : {t u : Owner} → Reach s t → Transition t u → Reach s u

abbrev pub Waiting : String → Request → Type 0
Waiting key r = (r.profile_id ≡ key) × (r.phase ≡ loading)

-- while a profile loads, every request waits for this profile
abbrev pub Waits : Option String → Dict Request → Type 0
Waits none requests = Unit
Waits (some key) requests = All (Waiting key) (values requests)

pub record IsOrderly (cap : ℕ) (c : Coordinator) : Type 0 where
  pub waits : Waits c.loading c.requests
  pub capped : length c.requests ≤ cap

-- no profile has more slots than `cap`
abbrev pub Caps : ℕ → Config → Type 0
Caps cap cfg = All (λ (p : Profile). p.slots ≤ cap) (values cfg.profiles)

lookup-Caps :
    (cap : ℕ) (d : Dict Profile) (key : String) {p : Profile}
    → All (λ (p : Profile). p.slots ≤ cap) (values d)
    → lookup key d ≡ some p
    → p.slots ≤ cap
lookup-Caps cap d key h e = All-lookup (λ (p : Profile). p.slots ≤ cap) key d h e

pub Waits-remove :
    (l : Option String) (k : String) (d : Dict Request) → Waits l d → Waits l (remove k d)
Waits-remove none k d h = tt
Waits-remove (some key) k d h = All-remove (Waiting key) k d h

Waits-insert :
    (caller : Caller) (identifier key : String) (p : Profile) (inspected : Result (Option Resident))
    (c : Coordinator) {waits : Bool} {after : Option String}
    → Loads c key p inspected waits after
    → Waits c.loading c.requests
    → Waits after (insert identifier (entry caller identifier key waits) c.requests)
Waits-insert caller identifier key p inspected c (joins l w a) h =
    rw (a, w)
      (All-insert (Waiting key) identifier (entry caller identifier key true) c.requests
        (refl, refl) (rw l at h))
Waits-insert caller identifier key p inspected c (starts resident l i f w a) h =
    let empty = empty-of-length c.requests (place-start c key p resident f).0 in
    rw (a, w, empty)
      (All-insert (Waiting key) identifier (entry caller identifier key true) [] (refl, refl) tt)
Waits-insert caller identifier key p inspected c (resides resident l i f w a) h = rw a tt

-- what an operator's action may do to the table and the load
abbrev pub Calm : Coordinator → Coordinator → Type 0
Calm c d =
    (d.requests ≡ c.requests) × ((d.loading ≡ c.loading) ⊎ (d.loading ≡ none) ⊎ (c.requests ≡ []))

module _ (cfg : Config) (cap : ℕ) (caps : Caps cap cfg) where
  pub reserve-IsOrderly :
      (caller : Caller) (identifier requested : String) (inspected : Result (Option Resident))
      (c : Coordinator) {waits : Bool} {d : Coordinator}
      → lookup identifier c.requests ≡ none
      → reserve cfg caller identifier requested inspected c ≡ (ok waits, d)
      → IsOrderly cap c
      → IsOrderly cap d
  reserve-IsOrderly caller identifier requested inspected c {waits} {d} new h o =
      let (first, key, q, p, may, target, seen, stays, again, found, r) =
        reserve-Reserved cfg caller identifier inspected requested c h in
      let (first', key', q', p', target', seen', lets, again', found', allowed, w) =
        reserve-Allowed cfg caller identifier requested inspected c h in
      let room : length c.requests < p'.slots = allowed.room in
      record {
        waits =
            rw r.written.table (Waits-insert caller identifier key p inspected c r.loads o.waits);
        capped = rw r.written.table (
            omega (
              arith,
              room,
              lookup-Caps cap cfg.profiles key' caps found',
              length-insert_new identifier (entry caller identifier key waits) c.requests new,
            ));
      }
