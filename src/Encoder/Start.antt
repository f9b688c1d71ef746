-- ===== src/Encoder/Start.antt =====
-- `start` of rtx5080/encoder/controller.py: everything is validated, then the card is taken from the chat service, and a
-- failure gives it back. The answers of the services and of the disk are given.
pub mod Restore
pub mod Stages
use lario_llms.Prelude.{
  ℕ, ◌+◌, String, Bool, true, false, not, ◌&&◌, ◌||◌, Option, none, some, List, [], ◌∷◌,
  if◌then◌else◌, leb, ◌==◌, length, Text, codes, starts_with, rstrip, Fault, Result, ok, err, http,
  raised, ◌>>=◌, ◌>>◌, require,
}
use lario_llms.Names.{is_slash}
use lario_llms.Audiobooks.Catalog.{value_error}
use lario_llms.Audiobooks.Jobs.Start.{has_dots}
use lario_llms.Encoder.{
  State, starting, running, failed, Job, Jobs, Machine, Repair, write_state, teardown,
}
use lario_llms.Encoder.Tally.{Line}
use lario_llms.Encoder.Sources.{Found, media_probe, already_done}

-- The arguments after the defaults. The tests of the source for integers are the types here.
pub record Arguments : Type 0 where
  pub source_root : Text
  pub cq : ℕ
  pub limit : ℕ
  pub mirror : Bool
  pub mirror_dir : Text
  pub mirror_free_gb : ℕ
  pub log_dir : Text
  pub unknown : Bool

-- What a start meets, in the order of the calls: `registry`, `lock`, `held` and `device` are the checks of the machine,
-- `busy` tells of another encoder, `listing` and `manifest` are read from the disk.
pub record Setting : Type 0 where
  pub on_bigcachy : Bool
  pub is_safe : Text → Bool
  pub lower : Text → Text
  pub extra_skips : List Text
  pub registry : Result (Unit {0})
  pub lock : Result (Unit {0})
  pub held : Result (Unit {0})
  pub device : Result (Unit {0})
  pub busy : Bool
  pub listing : Text → Option (List Found)
  pub manifest : Text → Option (List Line)
  pub made_dir : Result (Unit {0})
  pub idle : Result (Unit {0})
  pub selection : Result (String × String)
  pub drain : Result (Unit {0})
  pub stops : Bool
  pub spawned : Result ℕ
  pub exited : Bool
  pub repair : Repair

abbrev pub plain : Text → Text
plain path = rstrip is_slash path

abbrev pub is_under : Setting → Text → Text → Bool
is_under s path prefix = s.is_safe path && not (has_dots path) && starts_with path prefix

abbrev pub is_log_dir : Setting → Text → Bool
is_log_dir s path =
    s.is_safe path
    && not (has_dots path)
    && (starts_with path (codes "/mnt/media/") || starts_with path (codes "/mnt/xfs/"))

unfoldable pub check_arguments : Setting → Arguments → Result (Unit {0})
unfolding starts_with rstrip
check_arguments s a =
    require (not a.unknown) value_error
    >> (require (is_under s (plain a.source_root) (codes "/mnt/media/")) value_error
        >> (require (not a.mirror || is_under s (plain a.mirror_dir) (codes "/mnt/xfs/"))
              value_error
            >> (require (leb 16 a.cq && leb a.cq 30) value_error
                >> (require (leb a.limit 100000) value_error
                    >> require (leb 20 a.mirror_free_gb && leb a.mirror_free_gb 200) value_error))))

unfoldable pub check_machine : Setting → Result (Unit {0})
check_machine s =
    s.registry
    >> (s.lock
        >> (s.held >> (s.device >> require (not s.busy) (raised "an encoder is already running"))))

abbrev pub has_files : List Found → Bool
has_files [] = false
has_files (_ ∷ _) = true

-- the sources and their bytes
unfoldable pub validate : Setting → Arguments → Result (List Found × ℕ)
unfolding check_arguments check_machine media_probe
validate s a =
    check_arguments s a
    >> (check_machine s
        >> (media_probe s.is_safe s.lower s.extra_skips (s.listing (plain a.source_root))
              (plain a.source_root)
            >>= λ probe.
                require (has_files probe.0) (raised "no sources")
                >> (require (is_log_dir s (plain a.log_dir)) value_error >> ok probe)))

-- the job in hand, the state files, and the machine
pub record World : Type 0 where
  pub job : Job
  pub jobs : Jobs
  pub machine : Machine

abbrev pub Step : Type 0
Step = World → Result (Unit {0}) × World

infixl 5 ◌then◌
abbrev pub ◌then◌ : Result (Unit {0}) × World → Step → Result (Unit {0}) × World
(err fault, w) then step = (err fault, w)
(ok _, w) then step = step w

abbrev pub save : Job → World → World
save job w = record w { job = job; jobs = write_state job w.jobs }

abbrev pub limited : ℕ → ℕ → ℕ
limited limit n = if limit == 0 then n else if leb n limit then n else limit

-- a call that may fail, and what it changes if it does not
abbrev pub after_ok {ℓ} : {A : Type ℓ} → Result A → World → (A → World) → Result (Unit {0}) × World
after_ok (err fault) w k = (err fault, w)
after_ok (ok a) w k = (ok tt, k a)

-- the job gets its directory
abbrev pub describe : Setting → Arguments → List Found → Step
describe s a files w = after_ok s.made_dir w (λ _.
    save
      (record w.job {
        log_dir = some (plain a.log_dir);
        limit = a.limit;
        total = limited a.limit (length files);
        already_done = already_done files (s.manifest (plain a.log_dir));
      })
      w)

abbrev pub note_chat : World → World
note_chat w = record w { job = record w.job { was_chat_active = w.machine.service_active } }

abbrev pub check_chat : Setting → Step
check_chat s w =
    if w.machine.service_active
    then after_ok s.idle (note_chat w) (λ _. note_chat w)
    else (ok tt, note_chat w)

abbrev pub note_selection : Setting → Step
note_selection s w =
    after_ok s.selection w (λ chosen. save (record w.job { chat_selection = some chosen }) w)

-- a drain that fails has not been carried out
abbrev pub drain : Setting → Step
drain s w = after_ok s.drain w (λ _.
    save (record w.job { drained = true })
      (record w { machine = record w.machine { admitting = false } }))

abbrev pub stop_chat : Setting → Step
stop_chat s w =
    if not w.job.was_chat_active
    then (ok tt, w)
    else if s.stops
    then (ok tt, record w { machine = record w.machine { service_active = false } })
    else (err (raised "failed to stop rtx5080.service"), w)

abbrev pub launch : Setting → Step
launch s w =
    after_ok s.spawned w (λ pid. save (record w.job { pgid = some pid; state = running }) w)

abbrev pub watch_runner : Setting → Step
watch_runner s w = if s.exited then (err (raised "runner exited immediately"), w) else (ok tt, w)

abbrev pub reserve : Setting → Arguments → List Found → Step
reserve s a files w =
    describe s a files w
    then check_chat s
    then note_selection s
    then drain s
    then stop_chat s
    then launch s
    then watch_runner s

abbrev pub message_of : Fault → String
message_of (http _ message) = message
message_of (raised message) = message

-- the handler gives the card back, and marks the job until that has worked
abbrev pub given_back : Job → World → Result (Unit {0}) × Machine → World
given_back job w (err _, m) = record w { machine = m }
given_back job w (ok _, m) = record w { job = record job { restore_pending = false }; machine = m }

abbrev pub give_back : Repair → World → World
give_back a w =
    let job = record w.job { restore_pending = true } in
    let w = save job w in given_back job w (teardown job.was_chat_active a w.machine)

abbrev pub fail : Repair → Fault → World → World
fail a fault w =
    let job = record w.job { state = failed; error = some (message_of fault) } in
    let w = record w { job = job } in
    let w = if job.drained || job.was_chat_active then give_back a w else w in save w.job w

abbrev pub handle : Repair → Result (Unit {0}) × World → Result (Unit {0}) × World
handle a (ok _, w) = (ok tt, w)
handle a (err fault, w) = (err fault, fail a fault w)

abbrev pub new_job : String → ℕ → Job
new_job id now = record {
  job_id = id;
  state = starting;
  started_mono = now;
  restore_pending = false;
  log_dir = none;
  limit = 0;
  total = 0;
  already_done = 0;
  was_chat_active = false;
  chat_selection = none;
  drained = false;
  pgid = none;
  error = none;
  restore_error = none;
}

abbrev pub proceed :
    Setting → Arguments → Result (List Found × ℕ) → World → Result (Unit {0}) × World
proceed s a (err fault) w = (err fault, w)
proceed s a (ok (files, bytes)) w = reserve s a files w

-- on another host nothing is written
unfoldable pub start : Setting → Arguments → String → ℕ → Jobs → Machine → Result (Unit {0}) × World
unfolding validate
start s a id now jobs m =
    let w : World = record { job = new_job id now; jobs = jobs; machine = m } in
    if not s.on_bigcachy
    then (err (raised "bigcachy"), w)
    else handle s.repair (proceed s a (validate s a) w)
