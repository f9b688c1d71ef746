-- ===== src/Encoder/Settle.antt =====
-- `status` and `cancel` of rtx5080/encoder/controller.py: a job whose runner is gone gives the card back.
pub mod Repaired
use lario_llms.Prelude.{
  ℕ, zero, suc, ◌+◌, String, Bool, true, false, not, ◌&&◌, ◌||◌, Option, none, some, List, [], ◌∷◌,
  if◌then◌else◌, ◌==◌, max_by, select, values, Fault, Result, ok, err, raised,
}
use lario_llms.Audiobooks.Jobs.Settle.{wait}
use lario_llms.Encoder.{
  State, starting, running, restoring, interrupted, done, cancelled, Job, Jobs, is_running, Machine,
  Repair, write_state, teardown,
}
use lario_llms.Encoder.Start.{message_of}

abbrev pub latest : List Job → Option Job
latest jobs = max_by (λ job. job.started_mono) jobs

abbrev pub is_open : State → Bool
is_open starting = true
is_open running = true
is_open restoring = true
is_open _ = false

abbrev pub has_log_dir : Job → Bool
has_log_dir job = elim job.log_dir [ none ↦ false | some _ ↦ true ]

-- a bounded run that finished
abbrev pub finish : Job → Job
finish job = record job { state = done; restore_pending = false }

-- the chat service is restored, or the error is noted and the restore stays due
abbrev pub repaired : Job → Result (Unit {0}) × Machine → Job × Machine
repaired job (err fault, m) =
    (record job { restore_pending = true; restore_error = some (message_of fault) }, m)
repaired job (ok _, m) = (record job { state = interrupted; restore_pending = false }, m)

-- `has_done` tells whether the runner left its `job.done`
abbrev pub settle : Repair → Bool → Job → Machine → Job × Machine
settle a has_done job m =
    if not (job.limit == 0) && has_done
    then (finish job, m)
    else repaired job (teardown job.was_chat_active a m)

abbrev pub settled : (ℕ → Bool) → Repair → Bool → Job → Jobs → Machine → Jobs × Machine
settled alive a has_done job jobs m =
    if has_log_dir job && not (is_running alive job) && is_open job.state
    then (let (job', m') = settle a has_done job m in (write_state job' jobs, m'))
    else (jobs, m)

abbrev pub settle_latest : (ℕ → Bool) → Repair → Bool → Option Job → Jobs → Machine → Jobs × Machine
settle_latest alive a has_done none jobs m = (jobs, m)
settle_latest alive a has_done (some job) jobs m = settled alive a has_done job jobs m

unfoldable pub status : (ℕ → Bool) → Repair → Bool → Jobs → Machine → Jobs × Machine
status alive a has_done jobs m = settle_latest alive a has_done (latest (values jobs)) jobs m

-- after the wait for the runner, the card is given back; where that fails, nothing is written
abbrev pub cancelled_job :
    Job → Jobs → Result (Unit {0}) × Machine → Result (Option Job) × Jobs × Machine
cancelled_job job jobs (err fault, m) = (err fault, jobs, m)
cancelled_job job jobs (ok _, m) =
    let job = record job { state = cancelled; restore_pending = false } in
    (ok (some job), write_state job jobs, m)

-- `machine_after` is the state of the machine once the wait is over: the runner gives the card back itself when it can
abbrev pub stop_job : Repair → Option Job → Jobs → Machine → Result (Option Job) × Jobs × Machine
stop_job a none jobs m = (ok none, jobs, m)
stop_job a (some job) jobs m = cancelled_job job jobs (teardown job.was_chat_active a m)

unfoldable pub cancel :
    (ℕ → Bool) → Repair → Jobs → Machine → Machine → Result (Option Job) × Jobs × Machine
cancel alive a jobs m machine_after =
    let job = latest (select (is_running alive) (values jobs)) in
    stop_job a job jobs (elim job [ none ↦ m | some _ ↦ machine_after ])
