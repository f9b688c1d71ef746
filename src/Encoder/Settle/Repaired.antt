-- ===== src/Encoder/Settle/Repaired.antt =====
-- What the status of a dead job leaves.
use lario_llms.Prelude.{
  ℕ, ◌≡◌, ◌≢◌, refl, sym, ◌∙◌, ◌⊎◌, inl, inr, Bool, true, false, false≢true, ==_iff, not, ◌&&◌,
  some, if◌then◌else◌, ◌==◌, values, lookup, Result, ok, err,
}
use lario_llms.Encoder.{
  interrupted, done, Job, Jobs, is_running, Machine, Repair, Restored, teardown,
}
use lario_llms.Encoder.Teardown.{teardown-Restored, write_state-lookup}
use lario_llms.Encoder.Settle.{latest, is_open, has_log_dir, finish, repaired, settle, status}

-- the card was given back, or it is still due
abbrev pub Returned : Job → Job × Machine → Type 0
Returned job (j, n) =
    ((j.state ≡ interrupted) × (j.restore_pending ≡ false) × Restored job.was_chat_active n)
    ⊎ ((j.state ≡ job.state) × (j.restore_pending ≡ true))

-- how a dead job is settled: a bounded run that finished is done, and of every other one the card is returned
abbrev pub Repaired : Bool → Job → Machine → Job × Machine → Type 0
Repaired has_done job m (j, n) =
    (j.job_id ≡ job.job_id)
    × (((job.limit ≢ 0)
          × (has_done ≡ true)
          × (j.state ≡ done)
          × (j.restore_pending ≡ false)
          × (n ≡ m))
        ⊎ (((job.limit ≡ 0) ⊎ (has_done ≡ false)) × Returned job (j, n)))

repaired-Repaired :
    (a : Repair) (job : Job) (m : Machine) (r : Result (Unit {0}) × Machine)
    → teardown job.was_chat_active a m ≡ r
    → ((repaired job r).0.job_id ≡ job.job_id) × Returned job (repaired job r)
repaired-Repaired a job m (err fault, n) e = (refl, inr (refl, refl))
repaired-Repaired a job m (ok tt, n) e =
    (refl, inl (refl, refl, teardown-Restored job.was_chat_active a m e))

settle-Repaired :
    (a : Repair) (has_done : Bool) (job : Job) (m : Machine)
    → Repaired has_done job m (settle a has_done job m)
settle-Repaired a has_done job m = split (job.limit == 0) has_done refl
  where
    put_back :
        (b : Bool)
        → (job.limit ≡ 0) ⊎ (b ≡ false)
        → Repaired b job m (repaired job (teardown job.was_chat_active a m))
    put_back b why =
        let r = repaired-Repaired a job m (teardown job.was_chat_active a m) refl in
        (r.0, inr (why, r.1))

    split :
        (unbounded b : Bool)
        → (job.limit == 0) ≡ unbounded
        → Repaired b job m (
            if not unbounded && b
            then (finish job, m)
            else repaired job (teardown job.was_chat_active a m))
    split true b e = put_back b (inl ((==_iff job.limit 0).0 e))
    split false false e = put_back false (inr refl)
    split false true e = (
      refl,
      inl ((λ z. absurd (false≢true (sym e ∙ (==_iff job.limit 0).1 z))), refl, refl, refl, refl),
    )

-- If the newest job has a directory and an open state and its runner is gone, then after a status its state file
-- says that it is done, and nothing was touched, exactly if the run has a limit and its runner left `job.done`;
-- otherwise it says that the job is interrupted, and the chat service is restored if it ran before, or that
-- the job is still open and marked for a restore.
pub status-Repaired :
    (alive : ℕ → Bool) (a : Repair) (has_done : Bool) (jobs : Jobs) (m : Machine) {job : Job}
    → latest (values jobs) ≡ some job
    → has_log_dir job ≡ true
    → is_running alive job ≡ false
    → is_open job.state ≡ true
    → (j : Job) × (lookup job.job_id (status alive a has_done jobs m).0 ≡ some j)
      × Repaired has_done job m (j, (status alive a has_done jobs m).1)
unfolding status
status-Repaired alive a has_done jobs m {job = job} newest dir gone unsettled =
    rw (newest, dir, gone, unsettled)
      (
        (settle a has_done job m).0,
        write_state-lookup (settle a has_done job m).0 jobs (settle-Repaired a has_done job m).0,
        settle-Repaired a has_done job m,
      )
