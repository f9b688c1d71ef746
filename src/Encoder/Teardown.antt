-- ===== src/Encoder/Teardown.antt =====
-- teardown.py of rtx5080/encoder: what a restore that succeeds leaves; and what a written state file holds.
use lario_llms.Prelude.{
  String, ◌≡◌, refl, ap, ◌∙◌, subst, inl, inr, Bool, true, false, not, ◌&&◌, some, if◌then◌else◌,
  eq_refl, lookup, insert, lookup-insert, ok, err, arith, Bool-cases,
}
use lario_llms.Encoder.{
  Job, Jobs, Machine, Repair, broken, resume, warm_up, teardown, Restored, write_state,
}

resume-Restored :
    (was : Bool) (a : Repair) (m : Machine) {m' : Machine}
    → (was ≡ true → m.service_active ≡ true)
    → resume a m ≡ (ok tt, m')
    → Restored was m'
resume-Restored was a m {m' = m'} up h = elim (Bool-cases a.resumes) [
  | inl e ↦
      let k : (ok tt, record m { admitting = true }) ≡ (ok tt, m') = rw e at h in
      let same = ap (λ x. x.1) k in subst (Restored was) same (refl, up)
  | inr e ↦ let k = rw e at h in cc
]

warm_up-Restored :
    (was : Bool) (a : Repair) (m : Machine) {m' : Machine}
    → (was ≡ true → m.service_active ≡ true)
    → warm_up was a m ≡ (ok tt, m')
    → Restored was m'
warm_up-Restored was a m up h = elim (Bool-cases (was && m.service_active && not a.warms)) [
  | inl e ↦ let k = rw e at h in cc
  | inr e ↦ resume-Restored was a m up (rw e at h)
]

-- A restore that succeeds leaves the admission open, and the chat service active if it was so before the job.
pub teardown-Restored :
    (was : Bool) (a : Repair) (m : Machine) {m' : Machine}
    → teardown was a m ≡ (ok tt, m')
    → Restored was m'
unfolding teardown
teardown-Restored was a m {m' = m'} h = elim (Bool-cases (was && not m.service_active)) [
  | inl e ↦ started a.starts (rw e at h)
  | inr e ↦ warm_up-Restored was a m (λ w. ground (arith, e, w)) (rw e at h)
]
  where
    started :
        (b : Bool)
        → (if b then warm_up was a (record m { service_active = true }) else (err broken, m))
          ≡ (ok tt, m')
        → Restored was m'
    started true k = warm_up-Restored was a (record m { service_active = true }) (λ _. refl) k
    started false k = cc

pub write_state-lookup :
    (job : Job) (jobs : Jobs) {id : String}
    → job.job_id ≡ id
    → lookup id (write_state job jobs) ≡ some job
unfolding write_state
write_state-lookup job jobs {id = id} e =
    ap (λ (k : String). lookup id (insert k job jobs)) e
    ∙ lookup-insert id id job jobs
    ∙ rw (eq_refl id) refl
