-- ===== src/Audiobooks/Jobs.antt =====
-- media/audiolib/controller.py: the jobs that fetch audiobooks. The state directory is a map from a job's id to its
-- state file; a process group lives or not. Messages of errors are named by their first words.
pub mod Start
pub mod Settle
pub mod Examples
use lario_llms.Prelude.{
  ℕ, zero, suc, ◌+◌, ◌*◌, ◌≤◌, String, Bool, true, false, not, ◌&&◌, ◌||◌, Option, none, some, List,
  [], ◌∷◌, ◌++◌, if◌then◌else◌, ltb, leb, ◌==◌, any, all, select, length, max_by, str_eq, Dict,
  lookup, insert, values, Text, codes, eq_text, starts_with, take, rstrip, Fault, Result, ok, err,
  http, raised, ◌>>=◌, ◌>>◌, require,
}
use lario_llms.Names.{is_slash}
use lario_llms.Audiobooks.Catalog.{
  Entry, Document, size_or_0, select_entries, destination, value_error,
}

pub data State : Type 0 where
  starting : State
  running : State
  failed : State
  interrupted : State
  cancelling : State
  cancelled : State
  ended : String → State

-- a state file: `pgid` is none until the runner is started, `log_dir` until its directory is made
pub record Job : Type 0 where
  pub job_id : String
  pub state : State
  pub started_mono : ℕ
  pub pgid : Option ℕ
  pub log_dir : Option Text
  pub root : Text
  pub include : List Text
  pub limit : ℕ
  pub files : ℕ
  pub missing : ℕ
  pub missing_bytes : ℕ
  pub error : Option String

abbrev pub Jobs : Type 0
Jobs = Dict Job

-- `running`: the signal 0 reaches the group, or is not permitted. A group id 0 counts as none.
unfoldable pub is_running : (ℕ → Bool) → Job → Bool
is_running alive job = elim job.pgid [ none ↦ false | some pid ↦ not (pid == 0) && alive pid ]

unfoldable pub latest : List Job → Option Job
latest jobs = max_by (λ job. job.started_mono) jobs

unfoldable pub active : (ℕ → Bool) → Jobs → Option Job
unfolding latest is_running
active alive jobs = latest (select (is_running alive) (values jobs))

unfoldable pub write_state : Job → Jobs → Jobs
unfolding insert
write_state job jobs = insert job.job_id job jobs

pub record Summary : Type 0 where
  pub files : ℕ
  pub present : ℕ
  pub present_bytes : ℕ
  pub missing : ℕ
  pub missing_bytes : ℕ

-- `entry['size'] or -1`: a size of 0 is never met
abbrev pub is_complete : Option ℕ → Option ℕ → Bool
is_complete none _ = false
is_complete (some size) none = false
is_complete (some size) (some n) = not (n == 0) && size == n

abbrev pub add_entry : Entry → Option ℕ → Summary → Summary
add_entry e size s =
    if is_complete size e.size
    then record s { present = s.present + 1; present_bytes = s.present_bytes + size_or_0 e }
    else record s { missing = s.missing + 1; missing_bytes = s.missing_bytes + size_or_0 e }

abbrev pub nothing_yet : ℕ → Summary
nothing_yet n = record { files = n; present = 0; present_bytes = 0; missing = 0; missing_bytes = 0 }

-- `size_at` gives the size of a file; the count of `.part` files is left out
unfoldable pub survey :
    (Text → Text) → (Text → Option ℕ) → Text → List Entry → Summary → Result Summary
unfolding destination
survey resolve size_at root [] s = ok s
survey resolve size_at root (e ∷ entries) s = destination resolve e.rel root >>= λ path.
    survey resolve size_at root entries (add_entry e (size_at path) s)

unfoldable pub inventory : (Text → Text) → (Text → Option ℕ) → List Entry → Text → Result Summary
unfolding survey
inventory resolve size_at entries root =
    survey resolve size_at root entries (nothing_yet (length entries))
