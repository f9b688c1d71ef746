-- ===== src/Encoder.antt =====
-- rtx5080/encoder/controller.py and teardown.py: the jobs that borrow the graphics card of the chat service to encode
-- video. This file has the state; Encoder/Sources finds the files, Encoder/Tally reads the manifest, Encoder/Start
-- starts a job, Encoder/Settle has status and cancel.
pub mod Sources
pub mod Tally
pub mod Start
pub mod Teardown
pub mod Settle
pub mod Examples
use lario_llms.Prelude.{
  ℕ, String, ◌≡◌, Bool, true, false, not, ◌&&◌, ◌||◌, Option, none, some, List, [], ◌∷◌,
  if◌then◌else◌, ◌==◌, max_by, select, Dict, insert, values, Text, Fault, Result, ok, err, raised,
  ◌>>=◌, ◌>>◌, require,
}

pub data State : Type 0 where
  starting : State
  running : State
  restoring : State
  failed : State
  interrupted : State
  done : State
  cancelled : State

-- a state file
pub record Job : Type 0 where
  pub job_id : String
  pub state : State
  pub started_mono : ℕ
  pub restore_pending : Bool
  pub log_dir : Option Text
  pub limit : ℕ
  pub total : ℕ
  pub already_done : ℕ
  pub was_chat_active : Bool
  pub chat_selection : Option (String × String)
  pub drained : Bool
  pub pgid : Option ℕ
  pub error : Option String
  pub restore_error : Option String

abbrev pub Jobs : Type 0
Jobs = Dict Job

unfoldable pub write_state : Job → Jobs → Jobs
unfolding insert
write_state job jobs = insert job.job_id job jobs

-- signal 0 reaches the group, or is not permitted; a group id 0 counts as none
unfoldable pub is_running : (ℕ → Bool) → Job → Bool
is_running alive job = elim job.pgid [ none ↦ false | some pid ↦ not (pid == 0) && alive pid ]

-- the chat service, and whether its admission lets requests in
pub record Machine : Type 0 where
  pub service_active : Bool
  pub admitting : Bool

-- the answers that a restore gets
pub record Repair : Type 0 where
  pub starts : Bool
  pub warms : Bool
  pub resumes : Bool

abbrev pub broken : Fault
broken = raised "chat restore failed"

abbrev pub resume : Repair → Machine → Result (Unit {0}) × Machine
resume a m = if a.resumes then (ok tt, record m { admitting = true }) else (err broken, m)

-- `warm` where the chat service was active, then `resume`
abbrev pub warm_up : Bool → Repair → Machine → Result (Unit {0}) × Machine
warm_up was_active a m =
    if was_active && m.service_active && not a.warms then (err broken, m) else resume a m

-- teardown.py, which `restore` runs
unfoldable pub teardown : Bool → Repair → Machine → Result (Unit {0}) × Machine
teardown was_active a m =
    if was_active && not m.service_active
    then (if a.starts
        then warm_up was_active a (record m { service_active = true })
        else (err broken, m))
    else warm_up was_active a m

-- the chat service is there again, if it was before the job, and lets requests in
abbrev pub Restored : Bool → Machine → Type 0
Restored was_active m = (m.admitting ≡ true) × (was_active ≡ true → m.service_active ≡ true)
