-- ===== src/Gateway/Reserve/Refusal.antt =====
-- A reservation that is refused before its entry leaves the coordinator alone.
use lario_llms.Prelude.{
  String, ◌≡◌, refl, ◌⊎◌, inl, inr, Bool, true, false, not, ◌&&◌, Option, none, some, lookup,
  str_eq, if◌then◌else◌, Result, ok, err, http, Fault, subst,
}
use lario_llms.Roles.{can_infer, is_auxiliary}
use lario_llms.Gateway.{Profile, Config, Resident, Coordinator, resolve}
use lario_llms.Gateway.Reserve.{
  Caller, is_rtx, check_caller, place, enter, placed, join, checked, locked, resolved_again, served,
  resolved_to, reserve,
}

-- an inspection that succeeds makes the coordinator certain; none is made while a profile loads
abbrev pub Settled : Result (Option Resident) → Coordinator → Coordinator → Type 0
Settled inspected c d =
    (d ≡ c)
    ⊎ ((resident : Option Resident) × (inspected ≡ ok resident)
        × (c.loading ≡ none)
        × (d ≡ record c { uncertain = false }))

abbrev Untouched : Result (Option Resident) → Coordinator → Result Bool × Coordinator → Type 0
Untouched inspected c (ok _, d) = Unit
Untouched inspected c (err _, d) = Settled inspected c d

Untouched-if :
    (i : Result (Option Resident)) (c : Coordinator) (b : Bool) (x y : Result Bool × Coordinator)
    → Untouched i c x
    → Untouched i c y
    → Untouched i c (if b then x else y)
Untouched-if i c true x y p q = p
Untouched-if i c false x y p q = q

module _ (caller : Caller) (identifier : String) where
  Untouched-placed :
      (key : String) (resident : Option Resident) (c : Coordinator) (r : Result Bool)
      → c.loading ≡ none
      → Untouched (ok resident) c (placed caller identifier key r (record c { uncertain = false }))
  Untouched-placed key resident c (err e) still = inr (resident, refl, still, refl)
  Untouched-placed key resident c (ok false) still = tt
  Untouched-placed key resident c (ok true) still = tt

  Untouched-join :
      (key : String) (p : Profile) (i : Result (Option Resident)) (l : Option String)
      (c : Coordinator)
      → c.loading ≡ l
      → Untouched i c (join caller identifier key p i l c)
  Untouched-join key p i (some other) c l =
      Untouched-if i c (not (str_eq other key)) (err (http 409 "different_profile_loading"), c)
        (enter caller identifier key true c) (inl refl) tt
  Untouched-join key p (err e) none c l = inl refl
  Untouched-join key p (ok resident) none c l =
      Untouched-placed key resident c (place c key p resident) l

module _ (caller : Caller) (identifier : String) (inspected : Result (Option Resident)) where
  Untouched-checked :
      (key : String) (p : Profile) (g : Result (Unit {0})) (c : Coordinator)
      → Untouched inspected c (checked caller identifier key p inspected g c)
  Untouched-checked key p (err e) c = inl refl
  Untouched-checked key p (ok tt) c =
      Untouched-join caller identifier key p inspected c.loading c refl

  Untouched-locked :
      (cfg : Config) (key : String) (o : Option Profile) (c : Coordinator)
      → Untouched inspected c (locked cfg caller identifier key inspected o c)
  Untouched-locked cfg key none c = inl refl
  Untouched-locked cfg key (some p) c = Untouched-checked key p (check_caller cfg c caller key p) c

  Untouched-resolved_again :
      (cfg : Config) (target : Result String) (c : Coordinator)
      → Untouched inspected c (resolved_again cfg caller identifier inspected target c)
  Untouched-resolved_again cfg (err e) c = inl refl
  Untouched-resolved_again cfg (ok key) c = Untouched-locked cfg key (lookup key cfg.profiles) c

  Untouched-served :
      (cfg : Config) (first : String) (o : Option Profile) (c : Coordinator)
      → Untouched inspected c (served cfg caller identifier first inspected o c)
  Untouched-served cfg first none c = inl refl
  Untouched-served cfg first (some p) c =
      Untouched-if inspected c
        (is_rtx cfg && not (is_auxiliary caller.role) && not p.allow_interactive)
        (err (http 403 "rtx_auxiliary_credential_required"), c)
        (resolved_again cfg caller identifier inspected (resolve cfg c first) c) (inl refl)
        (Untouched-resolved_again cfg (resolve cfg c first) c)

  Untouched-resolved_to :
      (cfg : Config) (target : Result String) (c : Coordinator)
      → Untouched inspected c (resolved_to cfg caller identifier inspected target c)
  Untouched-resolved_to cfg (err e) c = inl refl
  Untouched-resolved_to cfg (ok first) c = Untouched-served cfg first (lookup first cfg.profiles) c

  Untouched-reserve :
      (cfg : Config) (requested : String) (c : Coordinator)
      → Untouched inspected c (reserve cfg caller identifier requested inspected c)
  unfolding reserve
  Untouched-reserve cfg requested c =
      Untouched-if inspected c (not (can_infer caller.role))
        (err (http 403 "management_key_cannot_infer"), c)
        (resolved_to cfg caller identifier inspected (resolve cfg c requested) c) (inl refl)
        (Untouched-resolved_to cfg (resolve cfg c requested) c)

-- A reservation that is refused before its entry (a refusal after the wait for a load is not one of them)
-- enters no request, starts no load and makes no revision: it changes nothing, or it marks the coordinator as
-- certain, which it does only where no profile was loading and the inspection succeeded.
pub reserve-eq-err :
    (cfg : Config) (caller : Caller) (identifier requested : String)
    (inspected : Result (Option Resident)) (c : Coordinator) {e : Fault} {d : Coordinator}
    → reserve cfg caller identifier requested inspected c ≡ (err e, d)
    → (d ≡ c)
      ⊎ ((resident : Option Resident) × (inspected ≡ ok resident)
          × (c.loading ≡ none)
          × (d ≡ record c { uncertain = false }))
reserve-eq-err cfg caller identifier requested inspected c h =
    subst (Untouched inspected c) h (Untouched-reserve caller identifier inspected cfg requested c)
