-- ===== src/Gateway/Control/Revision.antt =====
-- What an operator's action may change: a refused one nothing, and every change of the policy is a new
-- revision, so that a decision taken on an older one is refused.
use lario_llms.Prelude.{
  ℕ, ◌<◌, String, ◌≡◌, ◌≢◌, refl, subst, ◌⊎◌, inl, inr, Bool, true, false, not, ◌||◌, Option, none,
  some, List, [], ◌∷◌, if◌then◌else◌, str_eq, member, select, lookup, has_key, values, Result, ok,
  err, http, arith,
}
use lario_llms.Gateway.{Config, Resident, Request, Coordinator, touch}
use lario_llms.Gateway.Control.{
  Action, pause, resume, on, off, cancel_all, cancel_and_off, cancel, enable, disable, activate,
  unload, Body, Outcome, Owner, is_busy, is_loading, has_requests, activate_idle, activate_profile,
  when_idle, act, after_lock, fresh, control, cancel_found, Step, revised, done, set_disabled,
  sorted_set, pause_policy, refuse,
}
use lario_llms.Gateway.Control.Induction.{control_induction}

-- The policy and the switch stay, or there is a new revision.
abbrev pub Moves : Coordinator → Coordinator → Type 0
Moves c d =
    ((d.policy ≡ c.policy) × (d.marker ≡ c.marker)) ⊎ (c.policy.revision < d.policy.revision)

abbrev pub Kept : Coordinator → Result (List Request) × Coordinator → Type 0
Kept c (ok _, d) = Moves c d
Kept c (err _, d) = d ≡ c

Kept-if :
    (c : Coordinator) (b : Bool) (x y : Result (List Request) × Coordinator)
    → Kept c x
    → Kept c y
    → Kept c (if b then x else y)
Kept-if c true x y p q = p
Kept-if c false x y p q = q

Kept-set : (disabled : List String) (c : Coordinator) → Kept c (done [] (set_disabled disabled c))
Kept-set disabled c = inr (omega arith)

Kept-when_idle :
    (inspected : Result (Option Resident)) (next : Step) (c : Coordinator)
    → Kept c (next c)
    → Kept c (when_idle inspected next c)
Kept-when_idle (err e) next c h = refl
Kept-when_idle (ok resident) next c h =
    Kept-if c (has_requests c || is_loading c || is_busy resident) (refuse 409 "hardware_busy" c)
      (next c) refl h

Kept-activate_idle :
    (key : String) (inspected : Result (Option Resident)) (c : Coordinator)
    → Kept c (activate_idle key inspected c)
Kept-activate_idle key (err e) c = refl
Kept-activate_idle key (ok none) c =
    Kept-if c (has_requests c || false) (refuse 409 "hardware_busy" c)
      (done [] (touch (record c { loading = some key }))) refl (inr (omega arith))
Kept-activate_idle key (ok (some r)) c =
    Kept-if c (has_requests c || is_busy (some r)) (refuse 409 "hardware_busy" c) _ refl (
      Kept-if c (str_eq r.id key) (done [] c) (done [] (touch (record c { loading = some key })))
        (inl (refl, refl)) (inr (omega arith)))

Kept-activate_profile :
    (cfg : Config) (body : Body) (inspected : Result (Option Resident)) (c : Coordinator)
    → Kept c (activate_profile cfg body inspected c)
unfolding activate_profile
Kept-activate_profile cfg body inspected c =
    Kept-if c (not (has_key body.profile_id cfg.profiles)) (refuse 404 "unknown_profile" c) _ refl (
      Kept-if c (c.marker || c.policy.paused || member body.profile_id c.policy.disabled)
        (refuse 423 "hardware_or_profile_disabled" c) _ refl
        (Kept-if c (is_loading c) (refuse 409 "profile_loading" c) _ refl
          (Kept-activate_idle body.profile_id inspected c)))

Kept-cancel_found : (targets : List Request) (c : Coordinator) → Kept c (cancel_found c targets c)
Kept-cancel_found [] c = refl
Kept-cancel_found (target ∷ more) c = inl (refl, refl)

-- An action that is refused changes nothing, and one that changes the policy or the switch makes a new
-- revision.
pub act-Kept :
    (cfg : Config) (body : Body) (inspected : Result (Option Resident)) (action : Action)
    (c : Coordinator)
    → Kept c (act cfg body inspected action c)
unfolding act
act-Kept cfg body inspected unload c = refl
act-Kept cfg body inspected activate c = Kept-activate_profile cfg body inspected c
act-Kept cfg body inspected pause c = inr (omega arith)
act-Kept cfg body inspected cancel c =
    Kept-cancel_found (select (λ r. str_eq r.id body.request_id) (values c.requests)) c
act-Kept cfg body inspected cancel_all c = inr (omega arith)
act-Kept cfg body inspected cancel_and_off c = inr (omega arith)
act-Kept cfg body inspected off c =
    Kept-when_idle (if c.marker then ok none else inspected)
      (λ c'. done [] (record (pause_policy true c') { marker = true })) c (inr (omega arith))
act-Kept cfg body inspected enable c =
    Kept-if c (not (has_key body.profile_id cfg.profiles)) (refuse 404 "unknown_profile" c) _ refl
      (Kept-set (sorted_set (select (λ k. not (str_eq k body.profile_id)) c.policy.disabled)) c)
act-Kept cfg body inspected disable c = Kept-when_idle inspected _ c (
    Kept-if c (not (has_key body.profile_id cfg.profiles)) (refuse 404 "unknown_profile" c) _ refl
      (Kept-set (sorted_set (body.profile_id ∷ c.policy.disabled)) c))
act-Kept cfg body inspected resume c =
    Kept-if c c.marker (refuse 423 "hardware_off_use_on" c) (done [] (pause_policy false c)) refl
      (inr (omega arith))
act-Kept cfg body inspected on c = inr (omega arith)

Moves-act :
    (cfg : Config) (body : Body) (inspected : Result (Option Resident)) (action : Action)
    (c : Coordinator)
    → Moves c (act cfg body inspected action c).1
Moves-act cfg body inspected action c =
    of_kept (act cfg body inspected action c) (act-Kept cfg body inspected action c)
  where
    of_kept : (r : Result (List Request) × Coordinator) → Kept c r → Moves c r.1
    of_kept (ok _, d) h = h
    of_kept (err _, d) h = rw h (inl (refl, refl))

Moves-after_lock :
    (action : Action) (service : Result (Unit {0})) (c d : Coordinator)
    → Moves c d
    → Moves c (after_lock action service d).1
unfolding after_lock
Moves-after_lock off service c d h = h
Moves-after_lock _ service c d h = h

-- Whatever its result, an operation that changes the policy or the switch makes a new revision.
pub control-Moves :
    (cfg : Config) (body : Body) (inspected : Result (Option Resident))
    (service : Result (Unit {0})) (o : Owner)
    → Moves o.coordinator (control cfg body inspected service o).1.coordinator
control-Moves cfg =
    control_induction cfg Moves (λ c. inl (refl, refl)) (Moves-act cfg) Moves-after_lock

newer-of :
    (c d : Coordinator) → Moves c d → d.policy ≢ c.policy → c.policy.revision < d.policy.revision
newer-of c d (inl same) differ = absurd (differ same.0)
newer-of c d (inr newer) differ = newer

fresh-stale :
    (cfg : Config) (body : Body) (token : String) (inspected : Result (Option Resident))
    (service : Result (Unit {0})) (o : Owner) (revision : ℕ)
    → body.expected_revision ≡ some revision
    → revision < o.coordinator.policy.revision
    → fresh cfg body token inspected service o ≡ (err (http 409 "stale_revision"), o)
fresh-stale cfg body token inspected service o revision e newer =
    let old : revised body.expected_revision o.coordinator.policy.revision ≡ false =
      ground (arith, e, newer) in
    rw old refl

-- Of two operators who decide on the same revision, the second, whose key is a new one, is refused and
-- changes nothing, once the first has changed the policy.
pub control-stale :
    (cfg : Config) (first second : Body) (i₁ i₂ : Result (Option Resident))
    (s₁ s₂ : Result (Unit {0})) (o : Owner) (token : String) {r : Result Outcome} {o' : Owner}
    → control cfg first i₁ s₁ o ≡ (r, o')
    → o'.coordinator.policy ≢ o.coordinator.policy
    → second.expected_revision ≡ some o.coordinator.policy.revision
    → second.token ≡ some token
    → lookup token o'.operations ≡ none
    → control cfg second i₂ s₂ o' ≡ (err (http 409 "stale_revision"), o')
unfolding control
control-stale cfg first second i₁ i₂ s₁ s₂ o token {r} {o'} h changed e t unused =
    let moved : Moves o.coordinator o'.coordinator =
      subst (λ (x : Result Outcome × Owner). Moves o.coordinator x.1.coordinator) h
        (control-Moves cfg first i₁ s₁ o) in
    let newer : o.coordinator.policy.revision < o'.coordinator.policy.revision =
      newer-of o.coordinator o'.coordinator moved changed in
    simp (t, unused) (fresh-stale cfg second token i₂ s₂ o' o.coordinator.policy.revision e newer)
