-- ===== src/Audiobooks/Jobs/Settle/Laws.antt =====
-- The wait of a cancellation, and the states that it and `status_op` leave.
use lario_llms.Prelude.{
  ℕ, zero, suc, ◌+◌, ◌≤◌, ◌<◌, String, ◌≡◌, ◌≢◌, refl, sym, ◌∙◌, subst, ◌⊎◌, inl, inr, Bool, true,
  false, false≢true, leb, ◌==◌, Option, some, if◌then◌else◌, str_eq, eq_refl, eq_iff, lookup,
  insert, lookup-insert, Text, arith, Bool-cases,
}
use lario_llms.Audiobooks.Jobs.{cancelled, Job, Jobs, active, write_state}
use lario_llms.Audiobooks.Jobs.Settle.{wait, stop_job, cancel}

-- the wait ended at a poll: every poll before it saw the group alive, and this one saw it gone or was the last
record Waited (alive_at : ℕ → Bool) (from left end : ℕ) : Type 0 where
  low : from ≤ end
  high : end ≤ from + left
  alive : (n : ℕ) → from ≤ n → n < end → alive_at n ≡ true
  last : (alive_at end ≡ false) ⊎ (end ≡ from + left)

wait-Waited :
    (alive_at : ℕ → Bool) (left from : ℕ) → Waited alive_at from left (wait alive_at left from)
unfolding wait
wait-Waited alive_at zero from = record {
  low = omega arith;
  high = omega arith;
  alive = λ n low high. absurd (omega arith);
  last = inr (omega arith);
}
wait-Waited alive_at (suc left) from =
    split (alive_at from) refl (wait-Waited alive_at left (from + 1))
  where
    here : alive_at from ≡ true → (n : ℕ) → from ≡ n → alive_at n ≡ true
    here e n same = subst (λ x. alive_at x ≡ true) same e

    split :
        (b : Bool)
        → alive_at from ≡ b
        → Waited alive_at (from + 1) left (wait alive_at left (from + 1))
        → Waited alive_at from (suc left) (if b then wait alive_at left (from + 1) else from)
    split true e w = record {
      low = omega (arith, w.low);
      high = omega (arith, w.high);
      alive = λ n low high. elim (Bool-cases (n == from)) [
        | inl same ↦ here e n (ground (arith, same))
        | inr later ↦ w.alive n (ground (arith, later, low)) high
      ];
      last = elim w.last [ inl gone ↦ inl gone | inr end ↦ inr (omega (arith, end)) ];
    }
    split false e w = record {
      low = omega arith;
      high = omega arith;
      alive = λ n low high. absurd (omega arith);
      last = inl e;
    }

-- A cancellation whose process group is gone at some poll before the deadline records the job as cancelled and changes
-- no other state file; and it stops waiting no later than at that poll. (A group that is gone stays gone.)
pub cancel-cancelled :
    (alive alive_at : ℕ → Bool) (polls k : ℕ) (results : Text → Option String) (jobs : Jobs)
    {job : Job}
    → active alive jobs ≡ some job
    → k ≤ polls
    → alive_at k ≡ false
    → ((m n : ℕ) → m ≤ n → alive_at m ≡ false → alive_at n ≡ false)
    → (lookup job.job_id (cancel alive alive_at polls results jobs).1
        ≡ some (record job { state = cancelled }))
      × ((other : String)
          → other ≢ job.job_id
          → lookup other (cancel alive alive_at polls results jobs).1 ≡ lookup other jobs)
      × (wait alive_at polls 0 ≤ k)
unfolding cancel stop_job write_state
cancel-cancelled alive alive_at polls k results jobs {job = job} found soon gone stays =
    let w = wait-Waited alive_at polls 0 in
    let end = wait alive_at polls 0 in
    let early : end ≤ k = elim (Bool-cases (leb end k)) [
      | inl e ↦ ground (arith, e)
      | inr e ↦ absurd (false≢true (sym gone ∙ w.alive k (omega arith) (ground (arith, e))))
    ] in
    let dead : alive_at (end + 1) ≡ false = elim w.last [
      | inl e ↦ stays end (end + 1) (omega arith) e
      | inr e ↦ stays k (end + 1) (omega (arith, e)) gone
    ] in
    (
      stopped (λ js. lookup job.job_id js ≡ some (record job { state = cancelled })) dead
          (lookup-insert job.job_id job.job_id (record job { state = cancelled }) jobs
            ∙ rw (eq_refl job.job_id) refl),
      (λ other apart.
          let differ : str_eq job.job_id other ≡ false =
            ground (arith, eq_iff job.job_id other, apart) in
          stopped (λ js. lookup other js ≡ lookup other jobs) dead
            (lookup-insert job.job_id other (record job { state = cancelled }) jobs
              ∙ rw differ refl)),
      early,
    )
  where
    stopped :
        (P : Jobs → Type 0)
        → alive_at (wait alive_at polls 0 + 1) ≡ false
        → P (insert job.job_id (record job { state = cancelled }) jobs)
        → P (cancel alive alive_at polls results jobs).1
    stopped P dead h = rw found (rw dead h)
