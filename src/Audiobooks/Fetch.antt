-- ===== src/Audiobooks/Fetch.antt =====
-- media/audiolib/runner.py: the fetch of one file, and the job that fetches a list of them. A file is its size. The
-- answers of the source, the failures of the disk and the cancel signal are given for each attempt.
pub mod Verified
pub mod Job
use lario_llms.Prelude.{
  ℕ, zero, suc, ◌+◌, Bool, true, false, not, ◌&&◌, ◌||◌, Option, none, some, List, [], ◌∷◌,
  if◌then◌else◌, ltb, leb, ◌==◌, Text,
}

-- the library file and its `.part`
pub record Place : Type 0 where
  pub dest : Option ℕ
  pub part : Option ℕ

-- What an attempt meets: whether the job is being cancelled, whether the source gives a link, and what the
-- transfer makes of the `.part` it finds, and whether it succeeds.
pub record Attempt : Type 0 where
  pub stopped : Bool
  pub linked : Bool
  pub transfer : Option ℕ → Option ℕ
  pub transferred : Bool

pub data Outcome : Type 0 where
  fetched : ℕ → Outcome
  skipped : Outcome
  stopped_before : Outcome
  failed : Outcome

-- `os.path.getsize(part) if os.path.exists(part) else 0`
abbrev pub size_of : Option ℕ → ℕ
size_of none = 0
size_of (some n) = n

abbrev pub is_known : ℕ → Bool
is_known want = not (want == 0)

-- a `.part` that is longer than the file is removed
abbrev pub cleared : ℕ → Option ℕ → Option ℕ
cleared want part = if is_known want && ltb want (size_of part) then none else part

-- the part after the download, unless the link, the transfer or the measure failed
abbrev pub measured : Option ℕ → Bool × Option ℕ
measured none = (false, none)
measured (some n) = (true, some n)

abbrev pub download : ℕ → Attempt → Option ℕ → Bool × Option ℕ
download want a part =
    if not a.linked
    then (false, part)
    else if is_known want && leb want (size_of part)
    then measured part
    else if a.transferred
    then measured (a.transfer part)
    else (false, a.transfer part)

-- the end of an attempt: a part of the right size becomes the file; otherwise there is no outcome yet
abbrev pub publish : ℕ → Place → Bool × Option ℕ → Option Outcome × Place
publish want p (false, part) = (none, record p { part = part })
publish want p (true, none) = (none, record p { part = none })
publish want p (true, some got) =
    if is_known want && not (got == want)
    then (none, record p { part = some got })
    else (some (fetched got), record { dest = some got; part = none })

abbrev pub attempt : ℕ → Attempt → Place → Option Outcome × Place
attempt want a p =
    if a.stopped
    then (some stopped_before, p)
    else publish want p (download want a (cleared want p.part))

abbrev pub or_next : Option Outcome × Place → Outcome × Place → Outcome × Place
or_next (none, p) rest = rest
or_next (some outcome, p) rest = (outcome, p)

unfoldable pub tries : ℕ → List Attempt → Place → Outcome × Place
tries want [] p = (failed, p)
tries want (a ∷ attempts) p = let now = attempt want a p in or_next now (tries want attempts now.1)

abbrev pub is_there : ℕ → Option ℕ → Bool
is_there want none = false
is_there want (some n) = n == want

-- the attempts of `range(MAX_TRIES)`
abbrev pub up_to_six : (ℕ → Attempt) → List Attempt
up_to_six attempts =
    attempts 0 ∷ attempts 1 ∷ attempts 2 ∷ attempts 3 ∷ attempts 4 ∷ attempts 5 ∷ []

unfoldable pub fetch : ℕ → (ℕ → Attempt) → Place → Outcome × Place
unfolding tries
fetch want attempts p =
    if is_there want p.dest then (skipped, p) else tries want (up_to_six attempts) p

pub record Counters : Type 0 where
  pub done : ℕ
  pub skipped : ℕ
  pub failed : ℕ
  pub stopped : ℕ
  pub bytes : ℕ

-- `_one`
unfoldable pub count_outcome : Outcome → Counters → Counters
count_outcome (fetched n) c = record c { done = c.done + 1; bytes = c.bytes + n }
count_outcome skipped c = record c { skipped = c.skipped + 1 }
count_outcome stopped_before c = record c { stopped = c.stopped + 1 }
count_outcome failed c = record c { failed = c.failed + 1 }

-- an entry of the job: the expected size, what its attempts meet, and its files
pub record Task : Type 0 where
  pub want : ℕ
  pub attempts : ℕ → Attempt
  pub place : Place

-- The entries of a job are taken to have different destinations, as those of the catalog in the repository, so that
-- the workers fetch different files and the counts do not depend on their order. An error of the file system
-- outside the transfer (a directory that cannot be made, a part that cannot be removed or renamed) would end
-- the job without a result; it is not modelled. The second list has the files afterwards.
unfoldable pub fetch_all : List Task → Counters → Counters × List Place
unfolding fetch count_outcome
fetch_all [] c = (c, [])
fetch_all (t ∷ tasks) c =
    let one = fetch t.want t.attempts t.place in
    let rest = fetch_all tasks (count_outcome one.0 c) in (rest.0, one.1 ∷ rest.1)

pub data State : Type 0 where
  cancelled : State
  done : State
  partial : State
  failed_all : State

-- the state of the result
unfoldable pub final_state : Bool → Counters → State
final_state stop c =
    if stop
    then cancelled
    else if c.failed == 0
    then done
    else if not (c.done == 0) || not (c.skipped == 0)
    then partial
    else failed_all

abbrev pub zero_counts : Counters
zero_counts = record { done = 0; skipped = 0; failed = 0; stopped = 0; bytes = 0 }

-- a job whose tasks were not cut short by the pool: `stop` is the cancel signal at its end
unfoldable pub run : Bool → List Task → State × Counters × List Place
unfolding fetch_all final_state
run stop tasks = let out = fetch_all tasks zero_counts in (final_state stop out.0, out.0, out.1)
