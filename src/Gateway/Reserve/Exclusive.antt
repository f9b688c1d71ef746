-- ===== src/Gateway/Reserve/Exclusive.antt =====
-- Reservations: what is promised to a request, and that only idle hardware changes its profile.
use lario_llms.Prelude.{
  ◌+◌, ◌<◌, String, ◌≡◌, refl, ap, ◌∙◌, ◌⊎◌, inl, inr, Bool, true, false, not, ◌&&◌, ◌||◌, Option,
  none, some, List, [], ◌∷◌, str_eq, eq_iff, leb, length, member, lookup, Result, ok, arith,
}
use lario_llms.Roles.{Role, interactive, fleet, auxiliary, management, can_infer, is_auxiliary}
use lario_llms.Gateway.{Profile, Config, Resident, Coordinator, resolve, count_role}
use lario_llms.Gateway.Reserve.{Caller, is_rtx, fleet_limit, is_full, check_caller, place, reserve}
use lario_llms.Gateway.Reserve.Guards.{Loads, joins, starts, resides, Written, reserve-Reserved}

-- what the guards under the lock let through
pub record Allowed (cfg : Config) (c : Coordinator) (caller : Caller) (key : String) (p : Profile)
    : Type 0 where
  pub on : c.marker ≡ false
  pub unpaused : c.policy.paused ≡ false
  pub enabled : member key c.policy.disabled ≡ false
  pub live_run : (caller.run ≡ "") ⊎ (member caller.run_key c.cancelled ≡ false)
  pub room : length c.requests < p.slots
  pub share :
      (caller.role ≡ interactive)
      ⊎ (is_rtx cfg ≡ true)
      ⊎ (count_role fleet c.requests + count_role auxiliary c.requests < fleet_limit p caller.role)

check_caller-split :
    (cfg : Config) (c : Coordinator) (caller : Caller) (key : String) (p : Profile)
    → check_caller cfg c caller key p ≡ ok tt
    → (not (c.marker || c.policy.paused || member key c.policy.disabled) ≡ true)
      × ((str_eq caller.run "" || not (member caller.run_key c.cancelled)) ≡ true)
      × (is_full cfg c p caller.role ≡ false)
unfolding check_caller
check_caller-split cfg c caller key p h = ground arith

is_full-false :
    (cfg : Config) (c : Coordinator) (p : Profile) (role : Role)
    → can_infer role ≡ true
    → is_full cfg c p role ≡ false
    → (length c.requests < p.slots)
      × ((role ≡ interactive)
          ⊎ (is_rtx cfg ≡ true)
          ⊎ (count_role fleet c.requests + count_role auxiliary c.requests < fleet_limit p role))
unfolding is_full
is_full-false cfg c p interactive i h = (ground arith, inl refl)
is_full-false cfg c p fleet i h = ground arith
is_full-false cfg c p auxiliary i h = ground arith
is_full-false cfg c p management i h = cc

run-or :
    (run run_key : String) (cancelled : List String)
    → (str_eq run "" || not (member run_key cancelled)) ≡ true
    → (run ≡ "") ⊎ (member run_key cancelled ≡ false)
run-or run run_key cancelled h = ground (arith, eq_iff run "")

stays-or :
    (rtx : Bool) (role : Role) (allows : Bool)
    → (rtx && not (is_auxiliary role) && not allows) ≡ false
    → (rtx ≡ false) ⊎ (role ≡ auxiliary) ⊎ (allows ≡ true)
stays-or false role allows h = inl refl
stays-or true auxiliary allows h = inr (inl refl)
stays-or true _ true h = inr (inr refl)
stays-or true interactive false h = cc
stays-or true fleet false h = cc
stays-or true management false h = cc

check_caller-Allowed :
    (cfg : Config) (c : Coordinator) (caller : Caller) (key : String) (p : Profile)
    → can_infer caller.role ≡ true
    → check_caller cfg c caller key p ≡ ok tt
    → Allowed cfg c caller key p
check_caller-Allowed cfg c caller key p i h =
    let (open_, run, room) = check_caller-split cfg c caller key p h in
    let (slots, share) = is_full-false cfg c p caller.role i room in
    record {
      on = ground arith;
      unpaused = ground arith;
      enabled = ground arith;
      live_run = run-or caller.run caller.run_key c.cancelled run;
      room = slots;
      share = share;
    }

-- A reservation that succeeds is of the profile that the requested name leads to when it is resolved twice.
-- On an RTX the request is auxiliary, or the profile that the name is first resolved to lets others in. The
-- hardware is on and not paused, the reserved profile is not disabled, the run not cancelled; a slot is free,
-- and for a fleet or auxiliary request a share of the fleet's capacity (but on the RTX).
pub reserve-Allowed :
    (cfg : Config) (caller : Caller) (identifier requested : String)
    (inspected : Result (Option Resident)) (c : Coordinator) {waits : Bool} {d : Coordinator}
    → reserve cfg caller identifier requested inspected c ≡ (ok waits, d)
    → (first key : String) × (q p : Profile) × (resolve cfg c requested ≡ ok first)
      × (lookup first cfg.profiles ≡ some q)
      × ((is_rtx cfg ≡ false) ⊎ (caller.role ≡ auxiliary) ⊎ (q.allow_interactive ≡ true))
      × (resolve cfg c first ≡ ok key)
      × (lookup key cfg.profiles ≡ some p)
      × Allowed cfg c caller key p
      × Written caller identifier key waits c d
reserve-Allowed cfg caller identifier requested inspected c h =
    let (first, key, q, p, may, target, seen, stays, again, found, r) =
      reserve-Reserved cfg caller identifier inspected requested c h in
    let allowed = check_caller-Allowed cfg c caller key p may r.guards in
    let lets_in = stays-or (is_rtx cfg) caller.role q.allow_interactive stays in
    (first, key, q, p, target, seen, lets_in, again, found, allowed, r.written)

-- what an inspection found at rest
abbrev pub IsIdle : Option Resident → Type 0
IsIdle none = Unit
IsIdle (some r) = r.busy ≡ 0

pub empty-of-length {ℓ} : {A : Type ℓ} (xs : List A) → leb 1 (length xs) ≡ false → xs ≡ []
empty-of-length [] h = refl
empty-of-length (x ∷ xs) h =
    absurd (let n : length (x ∷ xs) < 1 = ground (arith, h) in omega (arith, n))

pub place-start :
    (c : Coordinator) (key : String) (p : Profile) (resident : Option Resident)
    → place c key p resident ≡ ok true
    → (leb 1 (length c.requests) ≡ false) × IsIdle resident
unfolding place
place-start c key p none h = (ground arith, tt)
place-start c key p (some r) h = (ground arith, ground arith)

place-reside :
    (c : Coordinator) (key : String) (p : Profile) (resident : Option Resident)
    → place c key p resident ≡ ok false
    → (r : Resident) × (resident ≡ some r) × (r.id ≡ key) × (r.busy < p.slots)
unfolding place
place-reside c key p none h = ground arith
place-reside c key p (some r) h = (r, refl, ground (arith, eq_iff r.id key), ground arith)

-- Only idle hardware changes its profile: a reservation that starts a load found no request in the table,
-- and the backend cold or with no busy slot; one that starts none joins the load of its own profile or
-- finds that profile resident. Its profile is the one that the requested name leads to when it is resolved
-- twice.
pub reserve-Exclusive :
    (cfg : Config) (caller : Caller) (identifier requested : String)
    (inspected : Result (Option Resident)) (c : Coordinator) {waits : Bool} {d : Coordinator}
    → reserve cfg caller identifier requested inspected c ≡ (ok waits, d)
    → (first key : String) × (resolve cfg c requested ≡ ok first)
      × (resolve cfg c first ≡ ok key)
      × ((c.loading ≡ some key) × (d.loading ≡ some key)
          ⊎ ((resident : Option Resident) × (inspected ≡ ok resident)
              × (c.loading ≡ none)
              × (d.loading ≡ some key)
              × (c.requests ≡ [])
              × IsIdle resident)
          ⊎ ((r : Resident) × (inspected ≡ ok (some r))
              × (c.loading ≡ none)
              × (d.loading ≡ none)
              × (r.id ≡ key)))
reserve-Exclusive cfg caller identifier requested inspected c h =
    let (first, key, q, p, may, target, seen, stays, again, found, r) =
      reserve-Reserved cfg caller identifier inspected requested c h in
    (first, key, target, again, cases key p r.loads)
  where
    cases :
        (key : String) (p : Profile) {w : Bool} {after : Option String}
        → Loads c key p inspected w after
        → ((c.loading ≡ some key) × (after ≡ some key)
            ⊎ ((resident : Option Resident) × (inspected ≡ ok resident)
                × (c.loading ≡ none)
                × (after ≡ some key)
                × (c.requests ≡ [])
                × IsIdle resident)
            ⊎ ((r : Resident) × (inspected ≡ ok (some r))
                × (c.loading ≡ none)
                × (after ≡ none)
                × (r.id ≡ key)))
    cases key p (joins l w a) = inl (l, a)
    cases key p (starts resident l i f w a) =
        let (none_there, idle) = place-start c key p resident f in
        inr (inl (resident, i, l, a, empty-of-length c.requests none_there, idle))
    cases key p (resides resident l i f w a) =
        let (r, same, id, room) = place-reside c key p resident f in
        inr (inr (r, i ∙ ap ok same, l, a, id))
