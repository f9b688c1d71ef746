-- ===== src/Audiobooks/Jobs/Start.antt =====
-- `start_op` of media/audiolib/controller.py: the checks before a job starts, and its start. The tests of the types of
-- the arguments are their types here, and a negative number is no argument.
pub mod Recorded
use lario_llms.Prelude.{
  ℕ, zero, suc, ◌+◌, ◌*◌, ◌≤◌, String, Bool, true, false, not, ◌&&◌, ◌||◌, Option, none, some, List,
  [], ◌∷◌, ◌++◌, if◌then◌else◌, ltb, leb, ◌==◌, any, all, select, length, str_eq, Dict, lookup,
  insert, values, Text, codes, eq_text, starts_with, take, rstrip, Fault, Result, ok, err, http,
  raised, ◌>>=◌, ◌>>◌, require,
}
use lario_llms.Names.{is_slash}
use lario_llms.Audiobooks.Catalog.{Entry, select_entries, value_error}
use lario_llms.Audiobooks.Jobs.{
  State, starting, running, failed, ended, Job, Jobs, Summary, active, write_state, inventory,
}

-- the arguments of a job after the defaults; the type tests of the source are the types of the fields
pub record Arguments : Type 0 where
  pub root : Text
  pub log_root : Text
  pub include : List Text
  pub limit : ℕ
  pub workers : ℕ
  pub min_free_gb : ℕ
  pub unknown : Bool

-- What a start meets. `is_safe` is the match of SAFE_PATH; `has_dots` tells whether `..` is in a path.
pub record Setting : Type 0 where
  pub on_bigcachy : Bool
  pub is_safe : Text → Bool
  pub alive : ℕ → Bool
  pub holder : Text → Bool
  pub catalog : Result (List Entry)
  pub resolve : Text → Text
  pub size_at : Text → Option ℕ
  pub free : Text → ℕ
  pub made_dir : Bool
  pub spawned : Result ℕ
  pub exited : Bool
  pub result : Option String

abbrev pub media_anchor : Text
media_anchor = codes "/mnt/media"

-- `'..' in text`
abbrev pub has_dots : Text → Bool
has_dots [] = false
has_dots (x ∷ []) = false
has_dots (x ∷ y ∷ text) = (x == b'.' && y == b'.') || has_dots (y ∷ text)

unfoldable pub is_allowed : Setting → Text → Bool
unfolding starts_with
is_allowed s path = s.is_safe path && not (has_dots path) && starts_with path media_anchor

unfoldable pub plain : Text → Text
unfolding rstrip
plain path = rstrip is_slash path

abbrev pub runtime_error : String → Fault
runtime_error message = raised message

unfoldable pub check_arguments : Setting → Arguments → Result (Unit {0})
unfolding is_allowed plain
check_arguments s a =
    require (not a.unknown) value_error
    >> (require (is_allowed s (plain a.root)) value_error
        >> (require (is_allowed s (plain a.log_root)) value_error
            >> (require (leb a.limit 1000000) value_error
                >> (require (leb 1 a.workers && leb a.workers 8) value_error
                    >> require (leb 1 a.min_free_gb && leb a.min_free_gb 200) value_error))))

abbrev pub first_entries : ℕ → List Entry → List Entry
first_entries zero entries = []
first_entries (suc n) [] = []
first_entries (suc n) (e ∷ entries) = e ∷ first_entries n entries

abbrev pub limited : ℕ → List Entry → List Entry
limited limit entries = if limit == 0 then entries else first_entries limit entries

abbrev pub is_some_entry : List Entry → Bool
is_some_entry [] = false
is_some_entry (_ ∷ _) = true

-- the plan of a job over the chosen entries, and the choice: the entries and what is missing of them
unfoldable pub chosen_plan : Setting → Arguments → List Entry → Result (List Entry × Summary)
unfolding inventory plain
chosen_plan s a chosen =
    require (is_some_entry (limited a.limit chosen)) (runtime_error "nothing selected")
    >> (inventory s.resolve s.size_at (limited a.limit chosen) (plain a.root) >>= λ summary.
        require
          (not (ltb (s.free (plain a.root)) (summary.missing_bytes + a.min_free_gb * 1073741824)))
          (runtime_error "refusing to start")
        >> ok (limited a.limit chosen, summary))

unfoldable pub plan : Setting → Arguments → Result (List Entry × Summary)
unfolding select_entries chosen_plan
plan s a =
    require (not (s.holder (plain a.log_root))) (runtime_error "writer lock")
    >> (s.catalog >>= λ all_entries.
        select_entries all_entries a.include >>= λ chosen. chosen_plan s a chosen)

abbrev pub new_job : String → ℕ → Job
new_job id now = record {
  job_id = id;
  state = starting;
  started_mono = now;
  pgid = none;
  log_dir = none;
  root = [];
  include = [];
  limit = 0;
  files = 0;
  missing = 0;
  missing_bytes = 0;
  error = none;
}

abbrev pub message_of : Fault → String
message_of (http _ message) = message
message_of (raised message) = message

-- the handler of `start_op`: the failure is written to the state file and raised again
unfoldable pub fail : Job → Fault → Jobs → Result Job × Jobs
unfolding write_state
fail job fault jobs =
    (err fault, write_state (record job { state = failed; error = some (message_of fault) }) jobs)

-- the end of the liveness window
unfoldable pub settle_start : Bool → Option String → Job → Jobs → Result Job × Jobs
unfolding fail
settle_start exited (some state) job jobs =
    let job = record job { state = ended state } in (ok job, write_state job jobs)
settle_start true none job jobs = fail job (runtime_error "runner exited immediately") jobs
settle_start false none job jobs = (ok job, jobs)

unfoldable pub spawn : Setting → Job → Jobs → Result ℕ → Result Job × Jobs
unfolding settle_start
spawn s job jobs (err fault) = fail job fault jobs
spawn s job jobs (ok pid) =
    let job = record job { pgid = some pid } in
    settle_start s.exited s.result job (write_state job jobs)

abbrev pub job_dir : Text → String → Text
job_dir log_root id = log_root ++ codes "/j-" ++ codes id

unfoldable pub launch :
    Setting → Arguments → Job → Jobs → Result (List Entry × Summary) → Result Job × Jobs
unfolding spawn plain
launch s a job jobs (err fault) = fail job fault jobs
launch s a job jobs (ok (entries, summary)) =
    if not s.made_dir
    then fail job (raised "FileExistsError") jobs
    else let job = record job {
      state = running;
      root = plain a.root;
      include = a.include;
      limit = a.limit;
      log_dir = some (job_dir (plain a.log_root) job.job_id);
      files = length entries;
      missing = summary.missing;
      missing_bytes = summary.missing_bytes;
    } in
      spawn s job (write_state job jobs) s.spawned

abbrev pub is_idle : Option Job → Bool
is_idle none = true
is_idle (some _) = false

unfoldable pub prepared : Setting → Arguments → Jobs → Result (List Entry × Summary)
unfolding active check_arguments plan
prepared s a jobs =
    require (is_idle (active s.alive jobs)) (runtime_error "already running")
    >> (check_arguments s a >> plan s a)

-- `start_op`
unfoldable pub start : Setting → Arguments → String → ℕ → Jobs → Result Job × Jobs
unfolding launch prepared
start s a id now jobs =
    if not s.on_bigcachy
    then (err (runtime_error "bigcachy"), jobs)
    else launch s a (new_job id now) jobs (prepared s a jobs)
