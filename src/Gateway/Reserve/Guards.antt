-- ===== src/Gateway/Reserve/Guards.antt =====
-- What a reservation that succeeds has passed, and what it writes.
use lario_llms.Prelude.{
  ◌+◌, String, ◌≡◌, refl, sym, ap, ◌∙◌, inl, inr, Bool, true, false, not, ◌&&◌, Option, none, some,
  if◌then◌else◌, str_eq, eq_iff, lookup, insert, Result, ok, err, arith, Bool-cases,
}
use lario_llms.Roles.{can_infer, is_auxiliary}
use lario_llms.Gateway.{Profile, Config, Resident, Coordinator, resolve}
use lario_llms.Gateway.Reserve.{
  Caller, is_rtx, check_caller, place, entry, enter, placed, join, checked, locked, resolved_again,
  served, resolved_to, reserve,
}

-- How a reservation of `key` stands to the load of its profile.
pub data Loads (c : Coordinator) (key : String) (p : Profile) (inspected : Result (Option Resident))
    (waits : Bool) (after : Option String) : Type 0 where
  joins :
      c.loading ≡ some key → waits ≡ true → after ≡ some key → Loads c key p inspected waits after
  starts :
      (resident : Option Resident)
      → c.loading ≡ none
      → inspected ≡ ok resident
      → place c key p resident ≡ ok true
      → waits ≡ true
      → after ≡ some key
      → Loads c key p inspected waits after
  resides :
      (resident : Option Resident)
      → c.loading ≡ none
      → inspected ≡ ok resident
      → place c key p resident ≡ ok false
      → waits ≡ false
      → after ≡ none
      → Loads c key p inspected waits after

pub record Written (caller : Caller) (identifier key : String) (waits : Bool) (c d : Coordinator)
    : Type 0 where
  pub table : d.requests ≡ insert identifier (entry caller identifier key waits) c.requests
  pub revision : d.policy.revision ≡ c.policy.revision + 1
  pub switches :
      (d.marker ≡ c.marker)
      × (d.policy.paused ≡ c.policy.paused)
      × (d.policy.disabled ≡ c.policy.disabled)
      × (d.cancelled ≡ c.cancelled)

-- everything that a success of the part under the lock tells
pub record Reserved (cfg : Config) (caller : Caller) (identifier : String)
    (inspected : Result (Option Resident)) (key : String) (p : Profile) (waits : Bool)
    (c d : Coordinator) : Type 0 where
  pub guards : check_caller cfg c caller key p ≡ ok tt
  pub loads : Loads c key p inspected waits d.loading
  pub written : Written caller identifier key waits c d

module _ (caller : Caller) (identifier key : String) where
  enter-eq-ok :
      (w : Bool) (c : Coordinator) {waits : Bool} {d : Coordinator}
      → enter caller identifier key w c ≡ (ok waits, d)
      → (waits ≡ w) × (d.loading ≡ c.loading) × Written caller identifier key waits c d
  enter-eq-ok w c {waits} {d} h =
      let same : waits ≡ w = ground arith in
      let state : d ≡ (enter caller identifier key w c).1 = ap (λ r. r.1) (sym h) in
      (
        same,
        ap (λ x. x.loading) state,
        record {
          table = rw same (ap (λ x. x.requests) state);
          revision = ap (λ x. x.policy.revision) state;
          switches = (
            ap (λ x. x.marker) state,
            ap (λ x. x.policy.paused) state,
            ap (λ x. x.policy.disabled) state,
            ap (λ x. x.cancelled) state,
          );
        },
      )

  placed-eq-ok :
      (r : Result Bool) (c : Coordinator) {waits : Bool} {d : Coordinator}
      → c.loading ≡ none
      → placed caller identifier key r c ≡ (ok waits, d)
      → (r ≡ ok waits)
        × (d.loading ≡ (if waits then some key else none))
        × Written caller identifier key waits c d
  placed-eq-ok (err e) c n h = cc
  placed-eq-ok (ok false) c n h =
      let (same, kept, w) = enter-eq-ok false c h in (ap ok (sym same), rw same (kept ∙ n), w)
  placed-eq-ok (ok true) c n h =
      let (same, kept, w) = enter-eq-ok true (record c { loading = some key }) h in
      (
        ap ok (sym same),
        rw same kept,
        record { table = w.table; revision = w.revision; switches = w.switches },
      )

  join-eq-ok :
      (p : Profile) (inspected : Result (Option Resident)) (l : Option String) (c : Coordinator)
      {waits : Bool} {d : Coordinator}
      → c.loading ≡ l
      → join caller identifier key p inspected l c ≡ (ok waits, d)
      → Loads c key p inspected waits d.loading × Written caller identifier key waits c d
  join-eq-ok p inspected (some other) c {waits} {d} e h = elim (Bool-cases (str_eq other key)) [
    | inl same ↦
        let id : other ≡ key = (eq_iff other key).0 same in
        let (w, kept, written) = enter-eq-ok true c (rw same at h) in
        (joins (e ∙ ap some id) w (kept ∙ e ∙ ap some id), written)
    | inr differ ↦ let h' = rw differ at h in cc
  ]
  join-eq-ok p (err f) none c e h = cc
  join-eq-ok p (ok resident) none c {waits} {d} e h =
      let (found, after, w) =
        placed-eq-ok (place c key p resident) (record c { uncertain = false }) e h in
      let written : Written caller identifier key waits c d = record {
        table = w.table;
        revision = w.revision;
        switches = w.switches;
      } in
      (start waits found after, written)
    where
      start :
          (b : Bool)
          → place c key p resident ≡ ok b
          → d.loading ≡ (if b then some key else none)
          → Loads c key p (ok resident) b d.loading
      start true f a = starts resident e refl f refl a
      start false f a = resides resident e refl f refl a

  checked-eq-ok :
      (p : Profile) (inspected : Result (Option Resident)) (g : Result (Unit {0})) (c : Coordinator)
      {waits : Bool} {d : Coordinator}
      → checked caller identifier key p inspected g c ≡ (ok waits, d)
      → (g ≡ ok tt)
        × Loads c key p inspected waits d.loading
        × Written caller identifier key waits c d
  checked-eq-ok p inspected (err e) c h = cc
  checked-eq-ok p inspected (ok tt) c h =
      let (l, w) = join-eq-ok p inspected c.loading c refl h in (refl, l, w)

module _ (cfg : Config) (caller : Caller) (identifier : String)
    (inspected : Result (Option Resident)) where
  locked-eq-ok :
      (key : String) (o : Option Profile) (c : Coordinator) {waits : Bool} {d : Coordinator}
      → locked cfg caller identifier key inspected o c ≡ (ok waits, d)
      → (p : Profile) × (o ≡ some p) × Reserved cfg caller identifier inspected key p waits c d
  locked-eq-ok key none c h = cc
  locked-eq-ok key (some p) c h =
      let (g, l, w) =
        checked-eq-ok caller identifier key p inspected (check_caller cfg c caller key p) c h in
      (p, refl, record { guards = g; loads = l; written = w })

  resolved_again-eq-ok :
      (target : Result String) (c : Coordinator) {waits : Bool} {d : Coordinator}
      → resolved_again cfg caller identifier inspected target c ≡ (ok waits, d)
      → (key : String) × (p : Profile) × (target ≡ ok key)
        × (lookup key cfg.profiles ≡ some p)
        × Reserved cfg caller identifier inspected key p waits c d
  resolved_again-eq-ok (err e) c h = cc
  resolved_again-eq-ok (ok key) c h =
      let (p, found, r) = locked-eq-ok key (lookup key cfg.profiles) c h in (key, p, refl, found, r)

  served-eq-ok :
      (first : String) (o : Option Profile) (c : Coordinator) {waits : Bool} {d : Coordinator}
      → served cfg caller identifier first inspected o c ≡ (ok waits, d)
      → (q : Profile) × (o ≡ some q)
        × ((is_rtx cfg && not (is_auxiliary caller.role) && not q.allow_interactive) ≡ false)
        × (resolved_again cfg caller identifier inspected (resolve cfg c first) c ≡ (ok waits, d))
  served-eq-ok first none c h = cc
  served-eq-ok first (some q) c h =
      let turned = is_rtx cfg && not (is_auxiliary caller.role) && not q.allow_interactive in
      elim (Bool-cases turned) [
        | inl away ↦ let h' = rw away at h in cc
        | inr stays ↦ (q, refl, stays, rw stays at h)
      ]

  resolved_to-eq-ok :
      (target : Result String) (c : Coordinator) {waits : Bool} {d : Coordinator}
      → resolved_to cfg caller identifier inspected target c ≡ (ok waits, d)
      → (first key : String) × (q p : Profile) × (target ≡ ok first)
        × (lookup first cfg.profiles ≡ some q)
        × ((is_rtx cfg && not (is_auxiliary caller.role) && not q.allow_interactive) ≡ false)
        × (resolve cfg c first ≡ ok key)
        × (lookup key cfg.profiles ≡ some p)
        × Reserved cfg caller identifier inspected key p waits c d
  resolved_to-eq-ok (err e) c h = cc
  resolved_to-eq-ok (ok first) c h =
      let (q, seen, stays, rest) = served-eq-ok first (lookup first cfg.profiles) c h in
      let (key, p, target, found, r) = resolved_again-eq-ok (resolve cfg c first) c rest in
      (first, key, q, p, refl, seen, stays, target, found, r)

  pub reserve-Reserved :
      (requested : String) (c : Coordinator) {waits : Bool} {d : Coordinator}
      → reserve cfg caller identifier requested inspected c ≡ (ok waits, d)
      → (first key : String) × (q p : Profile) × (can_infer caller.role ≡ true)
        × (resolve cfg c requested ≡ ok first)
        × (lookup first cfg.profiles ≡ some q)
        × ((is_rtx cfg && not (is_auxiliary caller.role) && not q.allow_interactive) ≡ false)
        × (resolve cfg c first ≡ ok key)
        × (lookup key cfg.profiles ≡ some p)
        × Reserved cfg caller identifier inspected key p waits c d
  unfolding reserve
  reserve-Reserved requested c h = elim (Bool-cases (can_infer caller.role)) [
    | inl may ↦
        let (first, key, q, p, target, seen, stays, again, found, r) =
          resolved_to-eq-ok (resolve cfg c requested) c (rw may at h) in
        (first, key, q, p, may, target, seen, stays, again, found, r)
    | inr never ↦ let h' = rw never at h in cc
  ]
