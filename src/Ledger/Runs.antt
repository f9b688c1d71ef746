-- ===== src/Ledger/Runs.antt =====
-- media/core/ledger.py: the runs of a ledger, failed rows, and what a resumed run finds finished. The clock
-- is an argument; the artifacts of a finished run are left out.
use lario_llms.Prelude.{
  ℕ, String, ◌≡◌, refl, inl, inr, Bool, true, false, not, ◌&&◌, Option, none, some, List, [], ◌∷◌,
  map, if◌then◌else◌, str_eq, eq_refl, lookup, insert, lookup-insert, Result, ok, err, raised,
  arith, Bool-cases,
}
use lario_llms.Ledger.{Commit, failed, RunStatus, ongoing, Run, Ledger, is_done, with_status}

abbrev begun : String → Run → Ledger → Option Run → Run × Ledger
begun run_id run l none = (run, record l { runs = insert run_id run l.runs })
begun run_id run l (some existing) = (existing, l)

-- the row is made with the status `running`
pub start_run :
    String → String → String → String → String → String → String → ℕ → Ledger → Run × Ledger
start_run run_id domain verb phase src dest opts now l =
    begun run_id
      (record {
        domain = domain;
        verb = verb;
        phase = phase;
        src = src;
        dest = dest;
        opts = opts;
        started = now;
        finished = none;
        status = ongoing;
      })
      l (lookup run_id l.runs)

abbrev is_end : RunStatus → Bool
is_end ongoing = false
is_end _ = true

-- an UPDATE of a run that is not there changes nothing
abbrev ended : String → RunStatus → ℕ → Ledger → Option Run → Ledger
ended run_id status now l none = l
ended run_id status now l (some run) = record l {
  runs = insert run_id (record run { status = status; finished = some now }) l.runs;
}

pub finish_run : String → RunStatus → ℕ → Ledger → Result (Unit {0}) × Ledger
finish_run run_id status now l =
    if not (is_end status)
    then (err (raised "LedgerError"), l)
    else (ok tt, ended run_id status now l (lookup run_id l.runs))

abbrev if_ongoing : Option Run → Option Run
if_ongoing none = none
if_ongoing (some run) = if is_end run.status then none else some run

pub pending_run : String → Ledger → Option Run
pending_run run_id l = if_ongoing (lookup run_id l.runs)

-- the text of the error is left out
pub mark_failed : ℕ → Ledger → Ledger
mark_failed id l = record l { commits = map (with_status id failed) l.commits }

pub completed_paths : String → List Commit → List String
completed_paths run_id [] = []
completed_paths run_id (r ∷ rs) =
    let rest = completed_paths run_id rs in
    if str_eq r.run_id run_id && is_done r.status
    then elim r.dst [ none ↦ rest | some path ↦ path ∷ rest ]
    else rest

-- A run that is started again under its name is the one that was started first, and nothing changes.
start_run-start_run :
    (run_id domain verb phase src dest opts : String) (now : ℕ) (l : Ledger)
    (domain' verb' phase' src' dest' opts' : String) (later : ℕ)
    → start_run run_id domain' verb' phase' src' dest' opts' later
        (start_run run_id domain verb phase src dest opts now l).1
      ≡ start_run run_id domain verb phase src dest opts now l
unfolding start_run
start_run-start_run run_id domain verb phase src dest opts now l domain' verb' phase' src' dest'
      opts' later =
    again (lookup run_id l.runs) refl
  where
    run : Run
    run = record {
      domain = domain;
      verb = verb;
      phase = phase;
      src = src;
      dest = dest;
      opts = opts;
      started = now;
      finished = none;
      status = ongoing;
    }

    other : Run
    other = record {
      domain = domain';
      verb = verb';
      phase = phase';
      src = src';
      dest = dest';
      opts = opts';
      started = later;
      finished = none;
      status = ongoing;
    }

    again :
        (o : Option Run)
        → lookup run_id l.runs ≡ o
        → begun run_id other (begun run_id run l o).1 (lookup run_id (begun run_id run l o).1.runs)
          ≡ begun run_id run l o
    again none e = rw (lookup-insert run_id run_id run l.runs, eq_refl run_id) refl
    again (some existing) e = rw e refl

ended-pending :
    (run_id : String) (status : RunStatus) (now : ℕ) (l : Ledger) (o : Option Run)
    → is_end status ≡ true
    → lookup run_id l.runs ≡ o
    → (if_ongoing (lookup run_id (ended run_id status now l o).runs) ≡ none)
      × ((ended run_id status now l o).commits ≡ l.commits)
ended-pending run_id status now l none h e = (rw e refl, refl)
ended-pending run_id status now l (some run) h e = (
  rw
      (
        lookup-insert run_id run_id (record run { status = status; finished = some now }) l.runs,
        eq_refl run_id,
      )
      (ground (arith, h)),
  refl,
)

-- A run that was finished is not pending, and its rows stand as they were.
finish_run-pending_run :
    (run_id : String) (status : RunStatus) (now : ℕ) (l : Ledger)
    → (finish_run run_id status now l).0 ≡ ok tt
    → (pending_run run_id (finish_run run_id status now l).1 ≡ none)
      × ((finish_run run_id status now l).1.commits ≡ l.commits)
unfolding finish_run pending_run
finish_run-pending_run run_id status now l h = elim (Bool-cases (is_end status)) [
  | inl over ↦ rw over (ended-pending run_id status now l (lookup run_id l.runs) over refl)
  | inr goes_on ↦ let h' = rw goes_on at h in cc
]
