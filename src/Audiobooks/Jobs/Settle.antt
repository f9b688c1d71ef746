-- ===== src/Audiobooks/Jobs/Settle.antt =====
-- `status_op` and `cancel_op` of media/audiolib/controller.py: how the state of a job is settled.
pub mod Laws
use lario_llms.Prelude.{
  ℕ, zero, suc, ◌+◌, ◌*◌, ◌≤◌, String, Bool, true, false, not, ◌&&◌, ◌||◌, Option, none, some, List,
  [], ◌∷◌, ◌++◌, if◌then◌else◌, ltb, leb, ◌==◌, any, all, select, length, str_eq, Dict, lookup,
  insert, values, Text, codes, eq_text, starts_with, take, rstrip, Fault, Result, ok, err, http,
  raised, ◌>>=◌, ◌>>◌, require,
}
use lario_llms.Audiobooks.Jobs.{
  State, starting, running, interrupted, cancelling, cancelled, ended, Job, Jobs, is_running,
  latest, active, write_state,
}

abbrev pub is_open : State → Bool
is_open starting = true
is_open running = true
is_open _ = false

-- the state that the result file gives, or none where there is no result
abbrev pub settled : Option String → State
settled none = interrupted
settled (some state) = ended state

abbrev pub result_of : (Text → Option String) → Option Text → Option String
result_of results none = none
result_of results (some dir) = results dir

-- `status_op`: a dead job is settled
unfoldable pub settle : (ℕ → Bool) → (Text → Option String) → Job → Jobs → Jobs
unfolding is_running write_state
settle alive results job jobs =
    if not (is_running alive job) && is_open job.state
    then write_state (record job { state = settled (result_of results job.log_dir) }) jobs
    else jobs

unfoldable pub settle_latest : (ℕ → Bool) → (Text → Option String) → Option Job → Jobs → Jobs
unfolding settle
settle_latest alive results none jobs = jobs
settle_latest alive results (some job) jobs = settle alive results job jobs

unfoldable pub status : (ℕ → Bool) → (Text → Option String) → Jobs → Jobs
unfolding settle_latest latest
status alive results jobs = settle_latest alive results (latest (values jobs)) jobs

-- The polls of `cancel_op` until the group is gone, at most `left` more before the deadline: the number of the poll
-- that ended the wait. `alive_at` tells of each poll whether the group lives.
unfoldable pub wait : (ℕ → Bool) → ℕ → ℕ → ℕ
wait alive_at zero poll = poll
wait alive_at (suc left) poll =
    let later = wait alive_at left (poll + 1) in if alive_at poll then later else poll

-- whether the result can be read: `read_json` gives None where there is no file, and None has no `get`
abbrev pub reported : (Text → Option String) → Job → Result Job
reported results job = elim job.log_dir [
  | none ↦ ok job
  | some dir ↦ elim (results dir) [ none ↦ err (raised "AttributeError") | some _ ↦ ok job ]
]

unfoldable pub stop_job :
    (ℕ → Bool) → ℕ → (Text → Option String) → Option Job → Jobs → Result (Option Job) × Jobs
unfolding wait write_state
stop_job alive_at polls results none jobs = (ok none, jobs)
stop_job alive_at polls results (some job) jobs =
    let after = wait alive_at polls 0 in
    let job = record job { state = if alive_at (after + 1) then cancelling else cancelled } in
    (reported results job >>= λ j. ok (some j), write_state job jobs)

-- `cancel_op`
unfoldable pub cancel :
    (ℕ → Bool) → (ℕ → Bool) → ℕ → (Text → Option String) → Jobs → Result (Option Job) × Jobs
unfolding stop_job active
cancel alive alive_at polls results jobs = stop_job alive_at polls results (active alive jobs) jobs
