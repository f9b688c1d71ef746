-- ===== src/Ledger.antt =====
-- media/core/ledger.py and remove of media/core/fsx.py: the journal of a run over a media library, and the
-- rule for deleting a file. Rows stand in the order of their ids. `os.path.realpath` is a parameter. The
-- free space, the counts for reports and the plan file are left out.
pub mod Authority
pub mod Resume
pub mod Runs
pub mod Examples
use lario_llms.Prelude.{
  ℕ, suc, ◌+◌, max, String, Bool, true, false, not, ◌&&◌, ◌||◌, Option, none, some, List, [], ◌∷◌,
  ◌++◌, map, if◌then◌else◌, str_eq, leb, ◌==◌, any, select, Dict, lookup, insert, remove, Fault,
  Result, ok, err, raised,
}

pub data Op : Type 0 where
  move copy delete rename tag write : Op

pub data Status : Type 0 where
  pending done failed reverted : Status

-- a row of `commits`; `none` is NULL
pub record Commit : Type 0 where
  pub id : ℕ
  pub run_id : String
  pub op : Op
  pub src : Option String
  pub dst : Option String
  pub src_sha256 : Option String
  pub dst_sha256 : Option String
  pub bytes : ℕ
  pub status : Status
  pub requested_by : String

pub data RunStatus : Type 0 where
  ongoing successful aborted broken : RunStatus

-- A row of `runs`, by its run_id: `ongoing` is the status `running`, the others are the end statuses
-- `done`, `aborted` and `failed`. `src` and `opts` are the texts that are stored.
pub record Run : Type 0 where
  pub domain : String
  pub verb : String
  pub phase : String
  pub src : String
  pub dest : String
  pub opts : String
  pub started : ℕ
  pub finished : Option ℕ
  pub status : RunStatus

pub record Ledger : Type 0 where
  pub apply : Bool
  pub runs : Dict Run
  pub commits : List Commit

abbrev pub is_pending : Status → Bool
is_pending pending = true
is_pending _ = false

abbrev pub is_done : Status → Bool
is_done done = true
is_done _ = false

abbrev pub is_delete : Op → Bool
is_delete delete = true
is_delete _ = false

-- `op IN ('copy', 'move')`
abbrev pub is_copy : Op → Bool
is_copy copy = true
is_copy move = true
is_copy _ = false

-- `a = b` of SQL as a condition: NULL equals nothing
abbrev pub equals : Option String → String → Bool
equals none b = false
equals (some a) b = str_eq a b

-- `a IS NOT NULL AND a != b`
abbrev pub differs : Option String → String → Bool
differs none b = false
differs (some a) b = not (str_eq a b)

-- an INTEGER PRIMARY KEY: one more than the greatest
unfoldable pub greatest : List Commit → ℕ
greatest [] = 0
greatest (r ∷ rs) = max r.id (greatest rs)

-- `src and os.path.realpath(src)`
abbrev pub real : (String → String) → Option String → Option String
real realpath none = none
real realpath (some path) = some (if str_eq path "" then path else realpath path)

-- `record`; the operations are the six that it allows
unfoldable pub record_row :
    (String → String)
    → String
    → Op
    → Option String
    → Option String
    → Option String
    → Option String
    → ℕ
    → Status
    → String
    → Ledger
    → ℕ × Ledger
record_row realpath run_id op src dst src_sha256 dst_sha256 bytes status requested_by l =
    let id = suc (greatest l.commits) in
    let row : Commit = record {
      id = id;
      run_id = run_id;
      op = op;
      src = real realpath src;
      dst = real realpath dst;
      src_sha256 = src_sha256;
      dst_sha256 = dst_sha256;
      bytes = bytes;
      status = status;
      requested_by = requested_by;
    } in
    (id, record l { commits = l.commits ++ row ∷ [] })

-- The hash is given; where it is omitted the source reads it from the file first.
unfoldable pub request_delete :
    (String → String) → String → String → String → ℕ → String → Ledger → ℕ × Ledger
unfolding record_row
request_delete realpath run_id path sha256 bytes requested_by l =
    record_row realpath run_id delete (some (realpath path)) none (some sha256) none bytes pending
      requested_by l

unfoldable pub verify_copy :
    (String → String) → String → String → String → ℕ → String → Ledger → ℕ × Ledger
unfolding record_row
verify_copy realpath run_id dst sha256 bytes requested_by l =
    record_row realpath run_id copy none (some (realpath dst)) none (some sha256) bytes done
      requested_by l

-- `ORDER BY id LIMIT 1` and `ORDER BY id DESC LIMIT 1`
unfoldable pub oldest : (Commit → Bool) → List Commit → Option Commit
oldest p [] = none
oldest p (r ∷ rs) = if p r then some r else oldest p rs

abbrev pub or_else : Option Commit → Option Commit → Option Commit
or_else none b = b
or_else (some a) b = some a

unfoldable pub newest : (Commit → Bool) → List Commit → Option Commit
newest p [] = none
newest p (r ∷ rs) = or_else (newest p rs) (if p r then some r else none)

abbrev pub is_pending_of : String → Commit → Bool
is_pending_of run_id r = str_eq r.run_id run_id && is_pending r.status

unfoldable pub next_pending : String → Ledger → Option Commit
next_pending run_id l = oldest (is_pending_of run_id) l.commits

-- `UPDATE commits SET status = ... WHERE id = ?`
abbrev pub with_status : ℕ → Status → Commit → Commit
with_status id status r = if r.id == id then record r { status = status } else r

abbrev pub claimed : ℕ → Commit → Commit
claimed id r = if r.id == id && is_pending r.status then record r { status = done } else r

-- whether the update found the row pending
unfoldable pub claim_pending : ℕ → Ledger → Bool × Ledger
claim_pending id l = (
  any (λ r. r.id == id && is_pending r.status) l.commits,
  record l { commits = map (claimed id) l.commits },
)

unfoldable pub mark_delete_done : ℕ → Ledger → Ledger
mark_delete_done id l = record l { commits = map (with_status id done) l.commits }

abbrev pub is_request : String → String → Commit → Bool
is_request run_id target r =
    str_eq r.run_id run_id && is_delete r.op && equals r.src target && is_pending r.status

-- a verified copy of these bytes at another path
abbrev pub survives : String → String → Commit → Bool
survives digest target r =
    is_copy r.op && equals r.dst_sha256 digest && is_done r.status && differs r.dst target

abbrev pub proved : List Commit → String → Commit → Option String → Option Commit
proved commits target row none = none
proved commits target row (some digest) =
    if str_eq digest ""
    then none
    else if any (survives digest target) commits
    then some row
    else none

abbrev pub authorised : Ledger → String → Option Commit → Option Commit
authorised l target none = none
authorised l target (some row) =
    if not l.apply then none else proved l.commits target row row.src_sha256

unfoldable pub authorised_delete : (String → String) → String → String → Ledger → Option Commit
authorised_delete realpath run_id path l =
    authorised l (realpath path) (newest (is_request run_id (realpath path)) l.commits)

abbrev pub is_claimed : List Commit → Option String → Option String → Bool
is_claimed commits (some src) (some digest) = any (survives digest src) commits
is_claimed commits _ _ = false

unfoldable pub unclaimed_deletes : String → Ledger → List Commit
unclaimed_deletes run_id l =
    select
      (λ c.
        str_eq c.run_id run_id && is_delete c.op && not (is_claimed l.commits c.src c.src_sha256))
      l.commits

-- The files: the regular files of the file system by their real paths, each with the hash of its bytes.
-- `is_link` tells whether the given path is a symbolic link.
abbrev pub removed :
    String
    → Option String
    → Option Commit
    → Ledger
    → Dict String
    → Result ℕ × (Ledger × Dict String)
removed target none row l files = (err (raised "UnauthorisedDelete"), (l, files))
removed target (some current) none l files = (err (raised "UnauthorisedDelete"), (l, files))
removed target (some current) (some row) l files =
    if not (equals row.src_sha256 current)
    then (err (raised "UnauthorisedDelete"), (l, files))
    else (ok row.bytes, (mark_delete_done row.id l, remove target files))

unfoldable pub remove_file :
    (String → String)
    → Bool
    → String
    → String
    → Ledger
    → Dict String
    → Result ℕ × (Ledger × Dict String)
remove_file realpath is_link run_id path l files =
    if is_link
    then (err (raised "UnauthorisedDelete"), (l, files))
    else removed (realpath path) (lookup (realpath path) files)
        (authorised_delete realpath run_id (realpath (realpath path)) l) l files
