-- ===== src/Gateway/Trace/Orderly.antt =====
-- Every transition keeps the table of requests in order.
use lario_llms.Prelude.{
  ℕ, String, ◌≡◌, refl, inl, inr, Bool, true, false, not, ◌||◌, Option, none, some, List, [], ◌∷◌,
  if◌then◌else◌, str_eq, length, member, select, values, has_key, lookup, leb, Fault, Result, ok,
  err, http, raised, arith, Bool-cases, length-remove, length-insert_old,
}
use lario_llms.Gateway.{running, Config, Resident, Request, Coordinator, touch}
use lario_llms.Gateway.Control.{
  Action, pause, resume, on, off, cancel_all, cancel_and_off, cancel, enable, disable, activate,
  unload, Body, Owner, is_busy, is_loading, has_requests, activate_idle, activate_profile,
  when_idle, act, after_lock, control, drain, cancel_found, Step, done, refuse, pause_policy,
}
use lario_llms.Gateway.Control.Induction.{control_induction}
use lario_llms.Gateway.Reserve.{
  resume as resume_request, finish, give_up, run_entry, activate as write_activation,
  end_activation, is_resident,
}
use lario_llms.Gateway.Reserve.Exclusive.{empty-of-length}
use lario_llms.Gateway.Reserve.Refusal.{Settled, reserve-eq-err}
use lario_llms.Gateway.Trace.{
  Transition, reserved, refused, waited, ended, activated, settled, controlled, drained, Reach,
  here, next, Waits, IsOrderly, Caps, Calm, Waits-remove, reserve-IsOrderly,
}

Waits-nil : (l : Option String) → Waits l []
Waits-nil none = tt
Waits-nil (some key) = tt

Calm-refl : (c : Coordinator) → Calm c c
Calm-refl c = (refl, inl refl)

Calm-if :
    (c : Coordinator) (b : Bool) (x y : Result (List Request) × Coordinator)
    → Calm c x.1
    → Calm c y.1
    → Calm c (if b then x else y).1
Calm-if c true x y p q = p
Calm-if c false x y p q = q

Calm-when_idle :
    (inspected : Result (Option Resident)) (after : Step) (c : Coordinator)
    → Calm c (after c).1
    → Calm c (when_idle inspected after c).1
Calm-when_idle (err e) after c h = Calm-refl c
Calm-when_idle (ok resident) after c h =
    Calm-if c (has_requests c || is_loading c || is_busy resident) (refuse 409 "hardware_busy" c)
      (after c) (Calm-refl c) h

Calm-activate_idle :
    (key : String) (inspected : Result (Option Resident)) (c : Coordinator)
    → Calm c (activate_idle key inspected c).1
Calm-activate_idle key (err e) c = Calm-refl c
Calm-activate_idle key (ok resident) c = elim (Bool-cases (leb 1 (length c.requests))) [
  | inl busy ↦ rw busy (Calm-refl c)
  | inr empty ↦
      Calm-if c (has_requests c || is_busy resident) (refuse 409 "hardware_busy" c) _ (Calm-refl c)
        (Calm-if c (elim resident [ none ↦ false | some r ↦ str_eq r.id key ]) (done [] c)
          (done [] (touch (record c { loading = some key }))) (Calm-refl c)
          (refl, inr (inr (empty-of-length c.requests empty))))
]

Calm-activate_profile :
    (cfg : Config) (body : Body) (inspected : Result (Option Resident)) (c : Coordinator)
    → Calm c (activate_profile cfg body inspected c).1
unfolding activate_profile
Calm-activate_profile cfg body inspected c =
    Calm-if c (not (has_key body.profile_id cfg.profiles)) (refuse 404 "unknown_profile" c) _
      (Calm-refl c)
      (Calm-if c (c.marker || c.policy.paused || member body.profile_id c.policy.disabled)
        (refuse 423 "hardware_or_profile_disabled" c) _ (Calm-refl c)
        (Calm-if c (is_loading c) (refuse 409 "profile_loading" c) _ (Calm-refl c)
          (Calm-activate_idle body.profile_id inspected c)))

Calm-cancel_found : (rs : List Request) (c : Coordinator) → Calm c (cancel_found c rs c).1
Calm-cancel_found [] c = Calm-refl c
Calm-cancel_found (r ∷ rs) c = (refl, inl refl)

Calm-act :
    (cfg : Config) (body : Body) (inspected : Result (Option Resident)) (action : Action)
    (c : Coordinator)
    → Calm c (act cfg body inspected action c).1
unfolding act
Calm-act cfg body inspected unload c = Calm-refl c
Calm-act cfg body inspected activate c = Calm-activate_profile cfg body inspected c
Calm-act cfg body inspected pause c = (refl, inl refl)
Calm-act cfg body inspected cancel c =
    Calm-cancel_found (select (λ r. str_eq r.id body.request_id) (values c.requests)) c
Calm-act cfg body inspected cancel_all c = (refl, inl refl)
Calm-act cfg body inspected cancel_and_off c = (refl, inl refl)
Calm-act cfg body inspected off c =
    Calm-when_idle (if c.marker then ok none else inspected)
      (λ c'. done [] (record (pause_policy true c') { marker = true })) c (refl, inl refl)
Calm-act cfg body inspected enable c =
    Calm-if c (not (has_key body.profile_id cfg.profiles)) (refuse 404 "unknown_profile" c) _
      (Calm-refl c) (refl, inl refl)
Calm-act cfg body inspected disable c = Calm-when_idle inspected _ c (
    Calm-if c (not (has_key body.profile_id cfg.profiles)) (refuse 404 "unknown_profile" c) _
      (Calm-refl c) (refl, inl refl))
Calm-act cfg body inspected resume c =
    Calm-if c c.marker (refuse 423 "hardware_off_use_on" c) (done [] (pause_policy false c))
      (Calm-refl c) (refl, inl refl)
Calm-act cfg body inspected on c = (refl, inl refl)

Calm-after_lock :
    (action : Action) (service : Result (Unit {0})) (c d : Coordinator)
    → Calm c d
    → Calm c (after_lock action service d).1
unfolding after_lock
Calm-after_lock off service c d h = (h.0, inr (inl refl))
Calm-after_lock cancel_and_off service c d h = (h.0, inr (inl refl))
Calm-after_lock _ service c d h = h

Calm-Waits :
    (c d : Coordinator) → Calm c d → Waits c.loading c.requests → Waits d.loading d.requests
Calm-Waits c d (same, inl l) h = rw (same, l) h
Calm-Waits c d (same, inr (inl l)) h = rw l tt
Calm-Waits c d (same, inr (inr e)) h = rw (same, e) (Waits-nil d.loading)

module _ (cap : ℕ) where
  Calm-IsOrderly : (c d : Coordinator) → Calm c d → IsOrderly cap c → IsOrderly cap d
  Calm-IsOrderly c d h o = record { waits = Calm-Waits c d h o.waits; capped = rw h.0 o.capped }

  finish-IsOrderly :
      (identifier : String) (clean : Bool) (c : Coordinator)
      → IsOrderly cap c
      → IsOrderly cap (finish identifier clean c)
  unfolding finish
  finish-IsOrderly identifier clean c o = record {
    waits = Waits-remove c.loading identifier c.requests o.waits;
    capped = omega (arith, o.capped, length-remove identifier c.requests);
  }

  give_up-IsOrderly :
      (identifier : String) (e : Fault) (c : Coordinator)
      → IsOrderly cap c
      → IsOrderly cap (give_up identifier e c).1
  give_up-IsOrderly identifier e c o = record {
    waits = Waits-remove c.loading identifier c.requests o.waits;
    capped = omega (arith, o.capped, length-remove identifier c.requests);
  }

  run_entry-IsOrderly :
      (identifier : String) (r : Option Request) (c : Coordinator)
      → c.loading ≡ none
      → lookup identifier c.requests ≡ r
      → IsOrderly cap c
      → IsOrderly cap (run_entry identifier r c).1
  run_entry-IsOrderly identifier none c l e o = give_up-IsOrderly identifier (raised "KeyError") c o
  run_entry-IsOrderly identifier (some r) c l e o = record {
    waits = rw l tt;
    capped = omega (
      arith,
      o.capped,
      length-insert_old identifier (record r { phase = running }) r c.requests e,
    );
  }

  resume-IsOrderly :
      (identifier : String) (outcome : Result (Unit {0})) (c : Coordinator)
      → (outcome ≡ ok tt → c.loading ≡ none)
      → IsOrderly cap c
      → IsOrderly cap (resume_request identifier outcome c).1
  unfolding resume_request
  resume-IsOrderly identifier (err e) c l o = give_up-IsOrderly identifier e c o
  resume-IsOrderly identifier (ok tt) c l o = elim (Bool-cases (c.marker || c.policy.paused)) [
    | inl stopped ↦ rw stopped (give_up-IsOrderly identifier (http 423 "hardware_paused") c o)
    | inr goes ↦
        rw goes (run_entry-IsOrderly identifier (lookup identifier c.requests) c (l refl) refl o)
  ]

  activate-IsOrderly :
      (key : String) (inspected : Result (Option Resident)) (c : Coordinator)
      → IsOrderly cap c
      → IsOrderly cap (write_activation key inspected c).1
  unfolding write_activation
  activate-IsOrderly key (err e) c o = record { waits = o.waits; capped = o.capped }
  activate-IsOrderly key (ok live) c o = elim (Bool-cases (is_resident key live)) [
    | inl loaded ↦ rw loaded (record { waits = o.waits; capped = o.capped })
    | inr missing ↦ rw missing (record { waits = o.waits; capped = o.capped })
  ]

  end_activation-IsOrderly : (c : Coordinator) → IsOrderly cap c → IsOrderly cap (end_activation c)
  unfolding end_activation
  end_activation-IsOrderly c o = record { waits = tt; capped = o.capped }

  refused-IsOrderly :
      (i : Result (Option Resident)) (c d : Coordinator)
      → Settled i c d
      → IsOrderly cap c
      → IsOrderly cap d
  refused-IsOrderly i c d (inl e) o = rw e o
  refused-IsOrderly i c d (inr (resident, seen, still, e)) o =
      rw e (record { waits = o.waits; capped = o.capped })

  control-IsOrderly :
      (cfg : Config) (body : Body) (inspected : Result (Option Resident))
      (service : Result (Unit {0})) (o : Owner)
      → IsOrderly cap o.coordinator
      → IsOrderly cap (control cfg body inspected service o).1.coordinator
  control-IsOrderly cfg body inspected service o =
      Calm-IsOrderly o.coordinator (control cfg body inspected service o).1.coordinator (
        control_induction cfg Calm Calm-refl (Calm-act cfg) Calm-after_lock body inspected service
          o)

Calm-drain : (paused : Bool) (c : Coordinator) → Calm c (drain paused c).1
unfolding drain
Calm-drain true c = (refl, inl refl)
Calm-drain false c = ground arith

-- Every transition keeps the table in order: while a profile loads, every request waits for that profile;
-- and there are at most `cap` requests, where no profile has more slots than `cap`.
pub Transition-IsOrderly :
    (cfg : Config) (cap : ℕ) (s t : Owner)
    → Caps cap cfg
    → Transition cfg s t
    → IsOrderly cap s.coordinator
    → IsOrderly cap t.coordinator
Transition-IsOrderly cfg cap s t caps (reserved caller identifier requested i waits new h) o =
    reserve-IsOrderly cfg cap caps caller identifier requested i s.coordinator new h o
Transition-IsOrderly cfg cap s t caps (refused caller identifier requested i e h) o =
    refused-IsOrderly cap i s.coordinator t.coordinator
      (reserve-eq-err cfg caller identifier requested i s.coordinator h) o
Transition-IsOrderly cfg cap s t caps (waited identifier outcome l h) o =
    rw h (resume-IsOrderly cap identifier outcome s.coordinator l o)
Transition-IsOrderly cfg cap s t caps (ended identifier clean h) o =
    rw h (finish-IsOrderly cap identifier clean s.coordinator o)
Transition-IsOrderly cfg cap s t caps (activated key i h) o =
    rw h (activate-IsOrderly cap key i s.coordinator o)
Transition-IsOrderly cfg cap s t caps (settled h) o =
    rw h (end_activation-IsOrderly cap s.coordinator o)
Transition-IsOrderly cfg cap s t caps (controlled body i service h) o =
    rw h (control-IsOrderly cap cfg body i service s o)
Transition-IsOrderly cfg cap s t caps (drained paused h) o = rw h (
    Calm-IsOrderly cap s.coordinator (drain paused s.coordinator).1
      (Calm-drain paused s.coordinator) o)

-- In every history of a coordinator that starts with no request and no load, every request waits for the
-- loading profile while there is one, and there are at most `cap` requests, where no profile has more
-- slots than `cap`.
pub Reach-IsOrderly :
    (cfg : Config) (cap : ℕ) (s t : Owner)
    → Caps cap cfg
    → s.coordinator.requests ≡ []
    → s.coordinator.loading ≡ none
    → Reach cfg s t
    → IsOrderly cap t.coordinator
Reach-IsOrderly cfg cap s t caps empty still here = record {
  waits = rw still tt;
  capped = rw empty (omega arith);
}
Reach-IsOrderly cfg cap s t caps empty still (next {t = u} r st) =
    Transition-IsOrderly cfg cap u t caps st (Reach-IsOrderly cfg cap s u caps empty still r)
