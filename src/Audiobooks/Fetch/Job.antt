-- ===== src/Audiobooks/Fetch/Job.antt =====
-- What the state and the counters of a finished fetch job say of the files.
use lario_llms.Prelude.{
  ℕ, ◌+◌, ◌≤◌, ◌≡◌, ◌≢◌, refl, ◌∙◌, inl, inr, Bool, true, false, not, ◌&&◌, ◌||◌, Option, none,
  some, List, [], ◌∷◌, if◌then◌else◌, ◌==◌, length, All, arith, Bool-cases,
}
use lario_llms.Audiobooks.Fetch.{
  Place, Attempt, Outcome, fetched, skipped, stopped_before, failed, cleared, download, publish,
  attempt, or_next, tries, is_there, up_to_six, fetch, Counters, count_outcome, Task, fetch_all,
  done, partial, failed_all, final_state, zero_counts, run,
}
use lario_llms.Audiobooks.Fetch.Verified.{Verified, fetch-Verified}

-- the outcomes of a fetch that is not cancelled
abbrev Uncancelled : Outcome → Type 0
Uncancelled (fetched n) = Unit
Uncancelled skipped = Unit
Uncancelled stopped_before = ⊥
Uncancelled failed = Unit

-- no attempt of the task meets the cancel signal
abbrev pub Undisturbed : Task → Type 0
Undisturbed t = (n : ℕ) → (t.attempts n).stopped ≡ false

attempt-Uncancelled :
    (want : ℕ) (a : Attempt) (p : Place) (rest : Outcome × Place)
    → a.stopped ≡ false
    → Uncancelled rest.0
    → Uncancelled (or_next (attempt want a p) rest).0
attempt-Uncancelled want a p rest quiet h =
    rw quiet (published (download want a (cleared want p.part)))
  where
    published : (r : Bool × Option ℕ) → Uncancelled (or_next (publish want p r) rest).0
    published (false, part) = h
    published (true, none) = h
    published (true, some got) = split (not (want == 0) && not (got == want))
      where
        split :
            (b : Bool)
            → Uncancelled
                (or_next
                  (if b
                    then (none, record p { part = some got })
                    else (some (fetched got), record { dest = some got; part = none }))
                  rest).0
        split true = h
        split false = tt

tries-Uncancelled :
    (want : ℕ) (attempts : List Attempt) (p : Place)
    → All (λ a. a.stopped ≡ false) attempts
    → Uncancelled (tries want attempts p).0
unfolding tries
tries-Uncancelled want [] p h = tt
tries-Uncancelled want (a ∷ attempts) p h =
    attempt-Uncancelled want a p (tries want attempts (attempt want a p).1) h.0
      (tries-Uncancelled want attempts (attempt want a p).1 h.1)

fetch-Uncancelled : (t : Task) → Undisturbed t → Uncancelled (fetch t.want t.attempts t.place).0
unfolding fetch
fetch-Uncancelled t h = split (is_there t.want t.place.dest)
  where
    split :
        (b : Bool)
        → Uncancelled
            (if b then (skipped, t.place) else tries t.want (up_to_six t.attempts) t.place).0
    split true = tt
    split false =
        tries-Uncancelled t.want (up_to_six t.attempts) t.place
          (h 0, (h 1, (h 2, (h 3, (h 4, (h 5, tt))))))

-- the library file of the task has its expected size, if that is known, and there is one at any rate
abbrev pub Whole : Task → Place → Type 0
Whole t q = (n : ℕ) × (q.dest ≡ some n) × (t.want ≢ 0 → n ≡ t.want)

abbrev pub AllWhole : List Task → List Place → Type 0
AllWhole [] [] = Unit
AllWhole [] (_ ∷ _) = ⊥
AllWhole (_ ∷ _) [] = ⊥
AllWhole (t ∷ tasks) (q ∷ places) = Whole t q × AllWhole tasks places

outcomes : Counters → ℕ
outcomes c = c.done + c.skipped + c.failed + c.stopped

count_outcome-outcomes :
    (o : Outcome) (c : Counters) → outcomes (count_outcome o c) ≡ outcomes c + 1
unfolding count_outcome outcomes
count_outcome-outcomes (fetched n) c = omega arith
count_outcome-outcomes skipped c = omega arith
count_outcome-outcomes stopped_before c = omega arith
count_outcome-outcomes failed c = omega arith

fetch_all-outcomes :
    (tasks : List Task) (c : Counters) → outcomes (fetch_all tasks c).0 ≡ outcomes c + length tasks
unfolding fetch_all
fetch_all-outcomes [] c = omega arith
fetch_all-outcomes (t ∷ tasks) c =
    let o = (fetch t.want t.attempts t.place).0 in
    omega (arith, fetch_all-outcomes tasks (count_outcome o c), count_outcome-outcomes o c)

count_outcome-failed : (o : Outcome) (c : Counters) → c.failed ≤ (count_outcome o c).failed
unfolding count_outcome
count_outcome-failed (fetched n) c = omega arith
count_outcome-failed skipped c = omega arith
count_outcome-failed stopped_before c = omega arith
count_outcome-failed failed c = omega arith

fetch_all-failed : (tasks : List Task) (c : Counters) → c.failed ≤ (fetch_all tasks c).0.failed
unfolding fetch_all
fetch_all-failed [] c = omega arith
fetch_all-failed (t ∷ tasks) c =
    let o = (fetch t.want t.attempts t.place).0 in
    omega (arith, fetch_all-failed tasks (count_outcome o c), count_outcome-failed o c)

Verified-Whole :
    (t : Task) (r : Outcome × Place) (c : Counters)
    → Verified t.want t.place r
    → Uncancelled r.0
    → (count_outcome r.0 c).failed ≡ 0
    → Whole t r.1
unfolding count_outcome
Verified-Whole t (fetched n, q) c v u h = (n, v.0, v.2)
Verified-Whole t (skipped, q) c v u h = (t.want, v.0 ∙ v.1, λ known. refl)
Verified-Whole t (stopped_before, q) c v u h = absurd u
Verified-Whole t (failed, q) c v u h = absurd (omega (arith, h))

fetch_all-AllWhole :
    (tasks : List Task) (c : Counters)
    → All Undisturbed tasks
    → (fetch_all tasks c).0.failed ≡ 0
    → AllWhole tasks (fetch_all tasks c).1
unfolding fetch_all
fetch_all-AllWhole [] c u h = tt
fetch_all-AllWhole (t ∷ tasks) c u h =
    let r = fetch t.want t.attempts t.place in
    let next = count_outcome r.0 c in
    (
      Verified-Whole t r c (fetch-Verified t.want t.attempts t.place) (fetch-Uncancelled t u.0)
          (omega (arith, h, fetch_all-failed tasks next)),
      fetch_all-AllWhole tasks next u.1 h,
    )

final_state-done : (c : Counters) → final_state false c ≡ done → c.failed ≡ 0
unfolding final_state
final_state-done c h = elim (Bool-cases (c.failed == 0)) [
  | inl e ↦ ground (arith, e)
  | inr e ↦ split (not (c.done == 0) || not (c.skipped == 0)) (rw e at h)
]
  where
    split : (b : Bool) → (if b then partial else failed_all) ≡ done → c.failed ≡ 0
    split true k = cc
    split false k = cc

-- A job that was not cancelled and ends as `done` leaves every file of its list in the library, with its expected
-- size where that is known; and whatever its end, it counts every file of the list once.
pub run-AllWhole :
    (tasks : List Task)
    → All Undisturbed tasks
    → ((run false tasks).0 ≡ done → AllWhole tasks (run false tasks).2)
      × ((run false tasks).1.done
            + (run false tasks).1.skipped
            + (run false tasks).1.failed
            + (run false tasks).1.stopped
          ≡ length tasks)
unfolding run outcomes
run-AllWhole tasks quiet = (
  (λ end.
      fetch_all-AllWhole tasks zero_counts quiet
        (final_state-done (fetch_all tasks zero_counts).0 end)),
  omega (arith, fetch_all-outcomes tasks zero_counts),
)
