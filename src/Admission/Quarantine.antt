-- ===== src/Admission/Quarantine.antt =====
-- What an uncertain server waits for, and what an inspection of a running backend guarantees.
use lario_llms.Prelude.{
  String, ◌≡◌, refl, ap, ◌∙◌, ◌⊎◌, inl, inr, Bool, true, false, ◌&&◌, ◌||◌, List, subst, arith,
  Result, ok, err, Bool-cases, ==_iff, ◌==◌,
}
use lario_llms.Registry.{Registry}
use lario_llms.Selection.{Saved}
use lario_llms.Admission.Inspect.{Outside, Observation, Live, inspect}
use lario_llms.Roles.{Role}
use lario_llms.Admission.{
  sum, Server, reconcile, admit, admit_known, decide, acquire, release, report, budget, drain,
  resume,
}
use lario_llms.Admission.Trace.{
  System, Step, admitted, refused, ended, polled, drained, resumed, Reach, here, next,
}
use lario_llms.Admission.Bounds.{acquire-Admitted}

uncertain-acquire :
    (out : Outside) (reg : Registry) (saved : Saved) (o : Observation) (role : Role)
    (model : String) (s : Server) {live : Live} {t : Server}
    → s.uncertain ≡ true
    → acquire out reg saved o role model s ≡ (ok live, t)
    → (sum s.active ≡ 0) × (live.busy ≡ 0)
uncertain-acquire out reg saved o role model s u h =
    let a = (acquire-Admitted out reg saved o role model s h).1 in ground (arith, a.settled)

-- an inspection that finds the backend idle while no request is active
abbrev pub IsIdle : Outside → Registry → Observation → Server → Type 0
IsIdle out reg o s =
    (live : Live) × ((inspect out reg o s.device_good_until).0 ≡ ok live)
    × (sum s.active ≡ 0)
    × (live.busy ≡ 0)

uncertain-reconcile :
    (live : Live) (s : Server)
    → s.uncertain ≡ true
    → ((reconcile live s).uncertain ≡ true) ⊎ ((sum s.active ≡ 0) × (live.busy ≡ 0))
unfolding reconcile
uncertain-reconcile live s u = elim (Bool-cases (sum s.active == 0 && live.busy == 0)) [
  | inl idle ↦ inr (ground arith, ground arith)
  | inr busy ↦ inl (ground arith)
]

uncertain-admit_known :
    (reg : Registry) (live : Live) (role : Role) (model : String) (known : Result (List String))
    (s : Server)
    → (admit_known reg live role model s known).1.uncertain ≡ s.uncertain
unfolding admit
uncertain-admit_known reg live role model (err e) s = refl
uncertain-admit_known reg live role model (ok known) s = ground arith

uncertain-decide :
    (reg : Registry) (saved : Saved) (role : Role) (model : String) (r : Result Live) (s : Server)
    → s.uncertain ≡ true
    → ((decide reg saved role model r s).1.uncertain ≡ true)
      ⊎ ((live : Live) × (r ≡ ok live) × (sum s.active ≡ 0) × (live.busy ≡ 0))
unfolding decide
uncertain-decide reg saved role model (err e) s u = inl u
uncertain-decide reg saved role model (ok live) s u = elim (uncertain-reconcile live s u) [
  | inl still ↦
      let s' = reconcile live s in
      let b = s'.draining || s'.uncertain in
      let stopped : b ≡ true = ground arith in inl (rw stopped still)
  | inr idle ↦ inr (live, refl, idle.0, idle.1)
]

uncertain-report :
    (r : Result Live) (s : Server)
    → s.uncertain ≡ true
    → ((report r s).1.uncertain ≡ true)
      ⊎ ((live : Live) × (r ≡ ok live) × (sum s.active ≡ 0) × (live.busy ≡ 0))
unfolding report
uncertain-report (err e) s u = inl u
uncertain-report (ok live) s u = elim (uncertain-reconcile live s u) [
  | inl still ↦ inl still
  | inr idle ↦ inr (live, refl, idle.0, idle.1)
]

module _ (out : Outside) (reg : Registry) where
  uncertain-after_acquire :
      (saved : Saved) (o : Observation) (role : Role) (model : String) (s : Server)
      → s.uncertain ≡ true
      → ((acquire out reg saved o role model s).1.uncertain ≡ true) ⊎ IsIdle out reg o s
  unfolding acquire
  uncertain-after_acquire saved o role model s u =
      let (r, good) = inspect out reg o s.device_good_until in
      uncertain-decide reg saved role model r (record s { device_good_until = good }) u

  uncertain-budget :
      (o : Observation) (s : Server)
      → s.uncertain ≡ true
      → ((budget out reg o s).1.uncertain ≡ true) ⊎ IsIdle out reg o s
  unfolding budget
  uncertain-budget o s u =
      let (r, good) = inspect out reg o s.device_good_until in
      uncertain-report r (record s { device_good_until = good }) u

uncertain-release :
    (role : Role) (clean : Bool) (s : Server)
    → s.uncertain ≡ true
    → (release role clean s).uncertain ≡ true
unfolding release
uncertain-release role clean s u = ground arith

uncertain-drain : (s : Server) → s.uncertain ≡ true → (drain s).uncertain ≡ true
unfolding drain
uncertain-drain s u = u

uncertain-resume : (s : Server) → s.uncertain ≡ true → (resume s).1.uncertain ≡ true
unfolding resume
uncertain-resume s u = ground arith

release-uncertain : (role : Role) (s : Server) → (release role false s).uncertain ≡ true
unfolding release
release-uncertain role s = ground arith

-- the step inspected the backend and found it idle, with no request active
abbrev pub FoundIdle : {out : Outside} {reg : Registry} {s t : System} → Step out reg s t → Type 0
FoundIdle {out} {reg} {s} (admitted saved o role model live h e) = IsIdle out reg o s.server
FoundIdle {out} {reg} {s} (refused saved o role model f h e) = IsIdle out reg o s.server
FoundIdle {out} {reg} {s} (polled o e ts) = IsIdle out reg o s.server
FoundIdle (ended role clean before after old e ts) = ⊥
FoundIdle (drained e ts) = ⊥
FoundIdle (resumed e ts) = ⊥

-- some step of the history did
abbrev pub SeenIdle : {out : Outside} {reg : Registry} {s t : System} → Reach out reg s t → Type 0
SeenIdle here = ⊥
SeenIdle (next r st) = SeenIdle r ⊎ FoundIdle st

module _ {out : Outside} {reg : Registry} where
  uncertain-Step :
      {s t : System} (st : Step out reg s t)
      → s.server.uncertain ≡ true
      → (t.server.uncertain ≡ true) ⊎ FoundIdle st
  uncertain-Step {s} {t} (admitted saved o role model live h e) u =
      let same : (acquire out reg saved o role model s.server).1 ≡ t.server = ap (λ r. r.1) h in
      subst (λ (x : Server). (x.uncertain ≡ true) ⊎ IsIdle out reg o s.server) same
        (uncertain-after_acquire out reg saved o role model s.server u)
  uncertain-Step {s} {t} (refused saved o role model f h e) u =
      let same : (acquire out reg saved o role model s.server).1 ≡ t.server = ap (λ r. r.1) h in
      subst (λ (x : Server). (x.uncertain ≡ true) ⊎ IsIdle out reg o s.server) same
        (uncertain-after_acquire out reg saved o role model s.server u)
  uncertain-Step {s} (polled o e ts) u = rw e (uncertain-budget out reg o s.server u)
  uncertain-Step {s} (ended role clean before after old e ts) u =
      inl (rw e (uncertain-release role clean s.server u))
  uncertain-Step {s} (drained e ts) u = inl (rw e (uncertain-drain s.server u))
  uncertain-Step {s} (resumed e ts) u = inl (rw e (uncertain-resume s.server u))

  uncertain-Reach :
      {s t : System} (r : Reach out reg s t)
      → s.server.uncertain ≡ true
      → (t.server.uncertain ≡ true) ⊎ SeenIdle r
  uncertain-Reach here u = inl u
  uncertain-Reach (next r st) u = elim (uncertain-Reach r u) [
    | inr seen ↦ inr (inl seen)
    | inl still ↦ elim (uncertain-Step st still) [
      | inl kept ↦ inl kept
      | inr found ↦ inr (inr found)
    ]
  ]

-- After a request that did not end cleanly, nothing is admitted before an inspection found the backend idle
-- while no request was active: whatever happened since the end of that request, a step since then made such
-- an inspection, or the admission itself does.
pub release-Reach-acquire :
    (out : Outside) (reg : Registry) (gone : Role) (s : Server) {t u : System}
    → t.server ≡ release gone false s
    → (r : Reach out reg t u) (saved : Saved) (o : Observation) (role : Role) (model : String)
      {live : Live} {v : Server}
    → acquire out reg saved o role model u.server ≡ (ok live, v)
    → SeenIdle r ⊎ ((sum u.server.active ≡ 0) × (live.busy ≡ 0))
release-Reach-acquire out reg gone s {t} {u} e r saved o role model h =
    elim (uncertain-Reach r (ap (λ x. x.uncertain) e ∙ release-uncertain gone s)) [
      | inl still ↦ inr (uncertain-acquire out reg saved o role model u.server still h)
      | inr seen ↦ inl seen
    ]

-- Resuming is refused while requests are active; after it, nothing is admitted before the backend was
-- seen idle.
pub acquire-resume :
    (out : Outside) (reg : Registry) (saved : Saved) (o : Observation) (role : Role)
    (model : String) (s : Server) {live : Live} {t : Server}
    → (resume s).0 ≡ ok tt
    → acquire out reg saved o role model (resume s).1 ≡ (ok live, t)
    → (sum s.active ≡ 0) × (live.busy ≡ 0)
unfolding resume
acquire-resume out reg saved o role model s done h = elim (Bool-cases (sum s.active == 0)) [
  | inl idle ↦
      let found = uncertain-acquire out reg saved o role model (resume s).1 (ground arith) h in
      ((==_iff (sum s.active) 0).0 idle, found.1)
  | inr busy ↦ ground arith
]
