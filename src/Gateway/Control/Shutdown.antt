-- ===== src/Gateway/Control/Shutdown.antt =====
-- What stopping the hardware and cancelling requests mean for the reservations that follow.
use lario_llms.Prelude.{
  String, ◌≡◌, ◌≢◌, sym, refl, ap, ◌⊎◌, inl, inr, Bool, true, false, some, not, ◌&&◌, ◌||◌, Option,
  none, List, [], ◌∷◌, if◌then◌else◌, str_eq, eq_iff, any, member, values, Result, ok, err, arith,
  Bool-cases,
}
use lario_llms.Gateway.{Config, Resident, Request, Coordinator}
use lario_llms.Gateway.Control.{
  off, cancel_all, Body, when_idle, act, tombstones, Step, done, pause_policy,
}
use lario_llms.Gateway.Reserve.{Caller, reserve}
use lario_llms.Gateway.Reserve.Exclusive.{IsIdle, reserve-Allowed, empty-of-length}

not-reserved-off :
    (cfg : Config) (caller : Caller) (identifier requested : String)
    (inspected : Result (Option Resident)) (d : Coordinator) (waits : Bool)
    → d.marker ≡ true
    → (reserve cfg caller identifier requested inspected d).0 ≢ ok waits
not-reserved-off cfg caller identifier requested inspected d waits m h =
    let after = (reserve cfg caller identifier requested inspected d).1 in
    let split : reserve cfg caller identifier requested inspected d ≡ (ok waits, after) =
      λ i. (h i, after) in
    let (first, key, q, p, target, seen, lets, again, found, allowed, w) =
      reserve-Allowed cfg caller identifier requested inspected d split in
    cc (m, allowed.on)

when_idle-eq-ok :
    (inspected : Result (Option Resident)) (next : Step) (c : Coordinator) {runs : List Request}
    {d : Coordinator}
    → when_idle inspected next c ≡ (ok runs, d)
    → (resident : Option Resident) × (inspected ≡ ok resident)
      × IsIdle resident
      × (c.requests ≡ [])
      × (c.loading ≡ none)
      × (next c ≡ (ok runs, d))
when_idle-eq-ok (err e) next c h = cc
when_idle-eq-ok (ok none) next c h =
    (none, refl, tt, empty-of-length c.requests (ground arith), ground arith, ground arith)
when_idle-eq-ok (ok (some r)) next c h = (
  some r,
  refl,
  ground arith,
  empty-of-length c.requests (ground arith),
  ground arith,
  ground arith,
)

inspected-or :
    (marker : Bool) (inspected : Result (Option Resident)) (resident : Option Resident)
    → (if marker then ok none else inspected) ≡ ok resident
    → IsIdle resident
    → (marker ≡ true) ⊎ ((found : Option Resident) × (inspected ≡ ok found) × IsIdle found)
inspected-or true inspected resident e idle = inl refl
inspected-or false inspected resident e idle = inr (resident, e, idle)

-- The action `off` succeeds only when no request is in the table, no load is running and, unless the
-- hardware was off already, an inspection found the backend cold or with no busy slot; the hardware is then
-- off and paused, and no request is admitted.
pub act_off-reserve :
    (cfg : Config) (body : Body) (i₁ i₂ : Result (Option Resident)) (c : Coordinator)
    (caller : Caller) (identifier requested : String) (waits : Bool) {runs : List Request}
    {d : Coordinator}
    → act cfg body i₁ off c ≡ (ok runs, d)
    → (c.requests ≡ [])
      × (c.loading ≡ none)
      × ((c.marker ≡ true) ⊎ ((found : Option Resident) × (i₁ ≡ ok found) × IsIdle found))
      × (d.marker ≡ true)
      × (d.policy.paused ≡ true)
      × ((reserve cfg caller identifier requested i₂ d).0 ≢ ok waits)
unfolding act
act_off-reserve cfg body i₁ i₂ c caller identifier requested waits {runs} {d} h =
    let (resident, seen, idle, empty, still, next) =
      when_idle-eq-ok (if c.marker then ok none else i₁)
        (λ c'. done [] (record (pause_policy true c') { marker = true })) c h in
    let state = ap (λ r. r.1) next in
    (
      empty,
      still,
      inspected-or c.marker i₁ resident seen idle,
      sym (ap (λ x. x.marker) state),
      sym (ap (λ x. x.policy.paused) state),
      not-reserved-off cfg caller identifier requested i₂ d waits (sym (ap (λ x. x.marker) state)),
    )

member-tombstones :
    (rs : List Request) (cancelled : List String) (k : String)
    → member k cancelled ≡ true
    → member k (tombstones rs cancelled) ≡ true
unfolding tombstones
member-tombstones [] cancelled k h = h
member-tombstones (r ∷ rs) cancelled k h =
    member-tombstones rs
      (if str_eq r.run_id "" || member r.run_key cancelled
        then cancelled
        else r.run_key ∷ cancelled)
      k (ground (arith, h))

-- some request of the list has this run
abbrev has_run : String → List Request → Bool
has_run run_key rs = any (λ r. not (str_eq r.run_id "") && str_eq r.run_key run_key) rs

tombstones-run :
    (rs : List Request) (cancelled : List String) (k : String)
    → has_run k rs ≡ true
    → member k (tombstones rs cancelled) ≡ true
unfolding tombstones
tombstones-run [] cancelled k h = cc
tombstones-run (r ∷ rs) cancelled k h =
    elim (Bool-cases (not (str_eq r.run_id "") && str_eq r.run_key k)) [
      | inl this ↦
          member-tombstones rs
            (if str_eq r.run_id "" || member r.run_key cancelled
              then cancelled
              else r.run_key ∷ cancelled)
            k (ground (arith, this, eq_iff r.run_key k, eq_iff k r.run_key))
      | inr other ↦ tombstones-run rs _ k (ground (arith, other, h))
    ]

-- Once all requests were cancelled, no request of a named run that one of them belonged to is admitted, whatever
-- has changed since beside the table of cancelled runs.
pub act_cancel_all-reserve :
    (cfg : Config) (body : Body) (i₁ i₂ : Result (Option Resident)) (c d : Coordinator)
    (caller : Caller) (identifier requested : String) (waits : Bool)
    → d.cancelled ≡ (act cfg body i₁ cancel_all c).1.cancelled
    → has_run caller.run_key (values c.requests) ≡ true
    → caller.run ≢ ""
    → (reserve cfg caller identifier requested i₂ d).0 ≢ ok waits
unfolding act
act_cancel_all-reserve cfg body i₁ i₂ c d caller identifier requested waits e run named h =
    let after = (reserve cfg caller identifier requested i₂ d).1 in
    let split : reserve cfg caller identifier requested i₂ d ≡ (ok waits, after) =
      λ i. (h i, after) in
    let (first, key, q, p, target, seen, lets, again, found, allowed, w) =
      reserve-Allowed cfg caller identifier requested i₂ d split in
    elim allowed.live_run [
      | inl nameless ↦ named nameless
      | inr live ↦ cc (
        live,
        ap (member caller.run_key) e,
        tombstones-run (values c.requests) c.cancelled caller.run_key run,
      )
    ]
