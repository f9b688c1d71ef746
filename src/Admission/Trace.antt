-- ===== src/Admission/Trace.antt =====
-- The admission server over time: any order of requests, ends of requests, polls, drains and resumes, with
-- any answers of the backend. `tickets` are the requests that were admitted and have not ended.
use lario_llms.Prelude.{
  String, ◌<◌, ap, sym, ◌∙◌, ◌≡◌, refl, Bool, true, false, List, [], ◌∷◌, ◌++◌, arith, length,
  count, count-append, Result, ok, err, Fault,
}
use lario_llms.Registry.{Registry}
use lario_llms.Selection.{Saved}
use lario_llms.Admission.Inspect.{Outside, Observation, Live, inspect}
use lario_llms.Roles.{Role, interactive, fleet, auxiliary, management}
use lario_llms.Admission.{
  Counts, sum, increment, decrement, Server, start, acquire, release, budget, report, drain, resume,
}
use lario_llms.Admission.Bounds.{acquire-Admitted, acquire-eq-err, active-reconcile}

pub record System : Type 0 where
  pub server : Server
  pub tickets : List Role

abbrev pub beginning : System
unfolding start
beginning = record { server = start; tickets = [] }

module _ (out : Outside) (reg : Registry) where
  pub data Step (s t : System) : Type 0 where
    admitted :
        (saved : Saved) (o : Observation) (role : Role) (model : String) (live : Live)
        → acquire out reg saved o role model s.server ≡ (ok live, t.server)
        → t.tickets ≡ role ∷ s.tickets
        → Step s t
    refused :
        (saved : Saved) (o : Observation) (role : Role) (model : String) (e : Fault)
        → acquire out reg saved o role model s.server ≡ (err e, t.server)
        → t.tickets ≡ s.tickets
        → Step s t
    ended :
        (role : Role) (clean : Bool) (before after : List Role)
        → s.tickets ≡ before ++ role ∷ after
        → t.server ≡ release role clean s.server
        → t.tickets ≡ before ++ after
        → Step s t
    polled :
        (o : Observation)
        → t.server ≡ (budget out reg o s.server).1
        → t.tickets ≡ s.tickets
        → Step s t
    drained : t.server ≡ drain s.server → t.tickets ≡ s.tickets → Step s t
    resumed : t.server ≡ (resume s.server).1 → t.tickets ≡ s.tickets → Step s t

  pub data Reach (s : System) : System → Type 0 where
    here : Reach s s
    next : {t u : System} → Reach s t → Step t u → Reach s u

abbrev pub is_role : Role → Role → Bool
is_role interactive interactive = true
is_role fleet fleet = true
is_role auxiliary auxiliary = true
is_role management management = true
is_role _ _ = false

-- the counts are the tickets, counted by role
abbrev pub IsCounted : Counts → List Role → Type 0
IsCounted c ts =
    (c.interactive ≡ count (is_role interactive) ts)
    × (c.fleet ≡ count (is_role fleet) ts)
    × (c.auxiliary ≡ count (is_role auxiliary) ts)
    × (c.management ≡ count (is_role management) ts)

increment-IsCounted :
    (role : Role) (c : Counts) (ts : List Role)
    → IsCounted c ts
    → IsCounted (increment role c) (role ∷ ts)
increment-IsCounted interactive c ts h = omega arith
increment-IsCounted fleet c ts h = omega arith
increment-IsCounted auxiliary c ts h = omega arith
increment-IsCounted management c ts h = omega arith

decrement-IsCounted :
    (role : Role) (c : Counts) (before after : List Role)
    → IsCounted c (before ++ role ∷ after)
    → IsCounted (decrement role c) (before ++ after)
decrement-IsCounted interactive c bs as_ h = omega (arith, count-append {0})
decrement-IsCounted fleet c bs as_ h = omega (arith, count-append {0})
decrement-IsCounted auxiliary c bs as_ h = omega (arith, count-append {0})
decrement-IsCounted management c bs as_ h = omega (arith, count-append {0})

active-report : (r : Result Live) (s : Server) → (report r s).1.active ≡ s.active
unfolding report
active-report (err e) s = refl
active-report (ok live) s = active-reconcile live s

active-budget :
    (out : Outside) (reg : Registry) (o : Observation) (s : Server)
    → (budget out reg o s).1.active ≡ s.active
unfolding budget
active-budget out reg o s =
    let (r, good) = inspect out reg o s.device_good_until in
    active-report r (record s { device_good_until = good })

active-release :
    (role : Role) (clean : Bool) (s : Server)
    → (release role clean s).active ≡ decrement role s.active
unfolding release
active-release role clean s = refl

active-drain : (s : Server) → (drain s).active ≡ s.active
unfolding drain
active-drain s = refl

active-resume : (s : Server) → (resume s).1.active ≡ s.active
unfolding resume
active-resume s = ground arith

IsCounted-eq :
    {c d : Counts} {ts us : List Role} → c ≡ d → ts ≡ us → IsCounted d us → IsCounted c ts
IsCounted-eq p q h = rw (p, q) h

module _ {out : Outside} {reg : Registry} where
  Step-IsCounted :
      {s t : System}
      → Step out reg s t
      → IsCounted s.server.active s.tickets
      → IsCounted t.server.active t.tickets
  Step-IsCounted {s} (admitted saved o role model live h e) c =
      IsCounted-eq (acquire-Admitted out reg saved o role model s.server h).1.counted e
        (increment-IsCounted role s.server.active s.tickets c)
  Step-IsCounted {s} (refused saved o role model f h e) c =
      let kept = (acquire-eq-err out reg saved o role model s.server (ap (λ r. r.0) h)).0 in
      IsCounted-eq (ap (λ r. r.1.active) (sym h) ∙ kept) e c
  Step-IsCounted {s} (ended role clean before after old e ts) c =
      IsCounted-eq (ap (λ r. r.active) e ∙ active-release role clean s.server) ts
        (decrement-IsCounted role s.server.active before after (rw old at c))
  Step-IsCounted {s} (polled o e ts) c =
      IsCounted-eq (ap (λ r. r.active) e ∙ active-budget out reg o s.server) ts c
  Step-IsCounted {s} (drained e ts) c =
      IsCounted-eq (ap (λ r. r.active) e ∙ active-drain s.server) ts c
  Step-IsCounted {s} (resumed e ts) c =
      IsCounted-eq (ap (λ r. r.active) e ∙ active-resume s.server) ts c

  Reach-IsCounted :
      {s t : System}
      → IsCounted s.server.active s.tickets
      → Reach out reg s t
      → IsCounted t.server.active t.tickets
  Reach-IsCounted c here = c
  Reach-IsCounted c (next r st) = Step-IsCounted st (Reach-IsCounted c r)

-- In every history the counts of a server are its unfinished requests, counted by role.
pub Reach-beginning :
    (out : Outside) (reg : Registry) {t : System}
    → Reach out reg beginning t
    → IsCounted t.server.active t.tickets
unfolding start
Reach-beginning out reg r = Reach-IsCounted (refl, refl, refl, refl) r

sum-IsCounted : (c : Counts) (ts : List Role) → IsCounted c ts → sum c ≡ length ts
sum-IsCounted c [] h = omega arith
sum-IsCounted c (interactive ∷ ts) h =
    omega (arith, sum-IsCounted (decrement interactive c) ts (omega arith))
sum-IsCounted c (fleet ∷ ts) h = omega (arith, sum-IsCounted (decrement fleet c) ts (omega arith))
sum-IsCounted c (auxiliary ∷ ts) h =
    omega (arith, sum-IsCounted (decrement auxiliary c) ts (omega arith))
sum-IsCounted c (management ∷ ts) h =
    omega (arith, sum-IsCounted (decrement management c) ts (omega arith))

-- In every history an admitted request finds a slot: with it, the unfinished requests are at most the
-- slots of the backend that was inspected.
pub Reach-within_slots :
    (out : Outside) (reg : Registry) (saved : Saved) (o : Observation) (role : Role)
    (model : String) (s : System) {live : Live} {t : Server}
    → Reach out reg beginning s
    → acquire out reg saved o role model s.server ≡ (ok live, t)
    → length s.tickets < live.slots
Reach-within_slots out reg saved o role model s {live} {t} r h =
    let a = (acquire-Admitted out reg saved o role model s.server h).1 in
    let c = increment-IsCounted role s.server.active s.tickets (Reach-beginning out reg r) in
    omega (
      arith,
      a.within_slots,
      ap sum a.counted,
      sum-IsCounted (increment role s.server.active) (role ∷ s.tickets) c,
    )
