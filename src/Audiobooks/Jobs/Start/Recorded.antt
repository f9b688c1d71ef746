-- ===== src/Audiobooks/Jobs/Start/Recorded.antt =====
-- What a start leaves in the state files.
use lario_llms.Prelude.{
  ℕ, String, ◌≡◌, ◌≢◌, refl, ap, ◌∙◌, ◌⊎◌, inl, inr, Bool, true, false, not, Option, none, some,
  List, length, if◌then◌else◌, str_eq, eq_refl, eq_iff, lookup, insert, lookup-insert, Fault,
  Result, ok, err, raised, arith,
}
use lario_llms.Audiobooks.Catalog.{Entry}
use lario_llms.Audiobooks.Jobs.{running, failed, ended, Job, Jobs, Summary, write_state}
use lario_llms.Audiobooks.Jobs.Start.{
  Arguments, Setting, plain, runtime_error, new_job, message_of, fail, settle_start, spawn, job_dir,
  launch, prepared, start,
}

-- the state that a start leaves of its job
abbrev pub Started : Job → Type 0
Started job =
    ((pid : ℕ) × (job.pgid ≡ some pid))
    × ((job.state ≡ running) ⊎ ((state : String) × (job.state ≡ ended state)))

-- the state files of all other jobs are the same
abbrev pub SameBut : String → Jobs → Jobs → Type 0
SameBut id jobs jobs' = (other : String) → other ≢ id → lookup other jobs' ≡ lookup other jobs

-- what a start leaves, with its result
abbrev pub Recorded : String → Jobs → Result Job × Jobs → Type 0
Recorded id jobs (ok job, jobs') =
    (lookup id jobs' ≡ some job) × Started job × SameBut id jobs jobs'
Recorded id jobs (err fault, jobs') =
    ((job : Job) × (lookup id jobs' ≡ some job)
      × (job.state ≡ failed)
      × (job.error ≡ some (message_of fault)))
    × SameBut id jobs jobs'

write_state-lookup :
    (job : Job) (id : String) (jobs : Jobs)
    → job.job_id ≡ id
    → lookup id (write_state job jobs) ≡ some job
unfolding write_state
write_state-lookup job id jobs e =
    ap (λ (k : String). lookup id (insert k job jobs)) e
    ∙ lookup-insert id id job jobs
    ∙ rw (eq_refl id) refl

write_state-SameBut :
    (job : Job) (id : String) (before jobs : Jobs)
    → job.job_id ≡ id
    → SameBut id before jobs
    → SameBut id before (write_state job jobs)
unfolding write_state
write_state-SameBut job id before jobs e h other apart =
    let differ : str_eq id other ≡ false = ground (arith, eq_iff id other, apart) in
    ap (λ (k : String). lookup other (insert k job jobs)) e
    ∙ lookup-insert id other job jobs
    ∙ rw differ (h other apart)

fail-Recorded :
    (job : Job) (fault : Fault) (id : String) (before jobs : Jobs)
    → job.job_id ≡ id
    → SameBut id before jobs
    → Recorded id before (fail job fault jobs)
unfolding fail
fail-Recorded job fault id before jobs e h =
    let failure = record job { state = failed; error = some (message_of fault) } in
    (
      (failure, write_state-lookup failure id jobs e, refl, refl),
      write_state-SameBut failure id before jobs e h,
    )

settle_start-Recorded :
    (exited : Bool) (result : Option String) (job : Job) (id : String) (before jobs : Jobs)
    (pid : ℕ)
    → job.job_id ≡ id
    → job.pgid ≡ some pid
    → job.state ≡ running
    → lookup id jobs ≡ some job
    → SameBut id before jobs
    → Recorded id before (settle_start exited result job jobs)
unfolding settle_start fail
settle_start-Recorded exited (some state) job id before jobs pid e p r there h =
    let job' = record job { state = ended state } in
    (
      write_state-lookup job' id jobs e,
      ((pid, p), inr (state, refl)),
      write_state-SameBut job' id before jobs e h,
    )
settle_start-Recorded true none job id before jobs pid e p r there h =
    fail-Recorded job (runtime_error "runner exited immediately") id before jobs e h
settle_start-Recorded false none job id before jobs pid e p r there h =
    (there, ((pid, p), inl r), h)

spawn-Recorded :
    (s : Setting) (job : Job) (id : String) (before jobs : Jobs) (spawned : Result ℕ)
    → job.job_id ≡ id
    → job.state ≡ running
    → SameBut id before jobs
    → Recorded id before (spawn s job jobs spawned)
unfolding spawn settle_start fail
spawn-Recorded s job id before jobs (err fault) e r h = fail-Recorded job fault id before jobs e h
spawn-Recorded s job id before jobs (ok pid) e r h =
    let job' = record job { pgid = some pid } in
    settle_start-Recorded s.exited s.result job' id before (write_state job' jobs) pid e refl r
      (write_state-lookup job' id jobs e) (write_state-SameBut job' id before jobs e h)

launch-Recorded :
    (s : Setting) (a : Arguments) (job : Job) (id : String) (jobs : Jobs)
    (plan : Result (List Entry × Summary))
    → job.job_id ≡ id
    → Recorded id jobs (launch s a job jobs plan)
unfolding launch spawn settle_start fail
launch-Recorded s a job id jobs (err fault) e = fail-Recorded job fault id jobs jobs e (λ _ _. refl)
launch-Recorded s a job id jobs (ok (entries, summary)) e = made s.made_dir
  where
    at_work : Job
    at_work = record job {
      state = running;
      root = plain a.root;
      include = a.include;
      limit = a.limit;
      log_dir = some (job_dir (plain a.log_root) job.job_id);
      files = length entries;
      missing = summary.missing;
      missing_bytes = summary.missing_bytes;
    }

    made :
        (b : Bool)
        → Recorded id jobs (
            if not b
            then fail job (raised "FileExistsError") jobs
            else spawn s at_work (write_state at_work jobs) s.spawned)
    made false = fail-Recorded job (raised "FileExistsError") id jobs jobs e (λ _ _. refl)
    made true =
        spawn-Recorded s at_work id jobs (write_state at_work jobs) s.spawned e refl
          (write_state-SameBut at_work id jobs jobs e (λ _ _. refl))

-- Every start on the right host is recorded in the state file of its job. If it succeeds, the file is the job that
-- was returned, with a process group, running or already ended; if it fails, the file has the state failed and
-- the message. Every other state file is as it was.
pub start-Recorded :
    (s : Setting) (a : Arguments) (id : String) (now : ℕ) (jobs : Jobs)
    → s.on_bigcachy ≡ true
    → Recorded id jobs (start s a id now jobs)
unfolding start
start-Recorded s a id now jobs here =
    rw here (launch-Recorded s a (new_job id now) id jobs (prepared s a jobs) refl)
