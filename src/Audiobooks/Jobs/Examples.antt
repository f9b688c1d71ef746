-- ===== src/Audiobooks/Jobs/Examples.antt =====
-- One job, started on an idle machine, and cancelled.
use lario_llms.Prelude.{
  ℕ, ◌≤◌, String, ◌≡◌, ◌≢◌, refl, Bool, true, false, none, some, [], ◌∷◌, ltb, ◌==◌, codes, eq_text,
  starts_with, rstrip, ok, err, raised, lookup, insert, arith,
}
use lario_llms.Audiobooks.Catalog.{Entry, select_entries, destination, safe_parts, has_parent}
use lario_llms.Audiobooks.Jobs.{
  Job, Jobs, running, cancelled, interrupted, is_running, latest, active, write_state, survey,
  inventory,
}
use lario_llms.Audiobooks.Jobs.Start.{
  Arguments, Setting, is_allowed, plain, check_arguments, chosen_plan, plan, fail, settle_start,
  spawn, launch, prepared, start, new_job,
}
use lario_llms.Audiobooks.Jobs.Start.Recorded.{Recorded, start-Recorded}
use lario_llms.Audiobooks.Jobs.Settle.{settle, settle_latest, status, wait, stop_job, cancel}
use lario_llms.Audiobooks.Jobs.Settle.Laws.{cancel-cancelled}

abbrev entry : Entry
entry = record { rel = codes "Quran/One.m4b"; size = some 7; code = "c"; fileid = 1 }

abbrev setting : Setting
setting = record {
  on_bigcachy = true;
  is_safe = λ p. true;
  alive = λ pid. pid == 42;
  holder = λ log_root. false;
  catalog = ok (entry ∷ []);
  resolve = λ p. p;
  size_at = λ p. none;
  free = λ p. 2000000000;
  made_dir = true;
  spawned = ok 42;
  exited = false;
  result = none;
}

abbrev arguments : Arguments
arguments = record {
  root = codes "/mnt/media/a/";
  log_root = codes "/mnt/media/l";
  include = [];
  limit = 0;
  workers = 4;
  min_free_gb = 1;
  unknown = false;
}

abbrev job : Job
job = record (new_job "j" 9) {
  state = running;
  pgid = some 42;
  log_dir = some (codes "/mnt/media/l/j-j");
  root = codes "/mnt/media/a";
  files = 1;
  missing = 1;
  missing_bytes = 7;
}

started : start setting arguments "j" 9 [] ≡ (ok job, ("j", job) ∷ [])
unfolding start launch spawn settle_start fail prepared check_arguments plan chosen_plan inventory
    survey destination safe_parts has_parent select_entries is_allowed plain active latest
    is_running write_state insert rstrip starts_with eq_text
started = refl

start-Recorded_example : Recorded "j" [] (start setting arguments "j" 9 [])
start-Recorded_example = start-Recorded setting arguments "j" 9 [] refl

-- a directory beside the media disk whose name begins like its own is let through
beside : is_allowed setting (codes "/mnt/media2/a") ≡ true
unfolding is_allowed starts_with
beside = refl

abbrev jobs : Jobs
jobs = ("j", job) ∷ []

found : active setting.alive jobs ≡ some job
unfolding active latest is_running
found = refl

-- the group lives for two polls
abbrev alive_at : ℕ → Bool
alive_at n = ltb n 2

cancel-cancelled_example :
    (lookup "j" (cancel setting.alive alive_at 60 (λ dir. none) jobs).1
      ≡ some (record job { state = cancelled }))
    × ((other : String)
        → other ≢ "j"
        → lookup other (cancel setting.alive alive_at 60 (λ dir. none) jobs).1 ≡ lookup other jobs)
    × (wait alive_at 60 0 ≤ 2)
cancel-cancelled_example =
    cancel-cancelled setting.alive alive_at 60 2 (λ dir. none) jobs found (omega arith) refl
      (λ m n low gone. ground (arith, low, gone))

-- a runner that left no result file: the job is cancelled, and the answer is an error
no_result :
    cancel setting.alive alive_at 60 (λ dir. none) jobs
    ≡ (err (raised "AttributeError"), ("j", record job { state = cancelled }) ∷ [])
unfolding cancel stop_job wait active latest is_running write_state insert
no_result = refl

-- a dead job without a result is interrupted
dead : status (λ pid. false) (λ dir. none) jobs ≡ ("j", record job { state = interrupted }) ∷ []
unfolding status settle_latest settle latest is_running write_state insert
dead = refl
