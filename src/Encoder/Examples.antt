-- ===== src/Encoder/Examples.antt =====
-- A job that takes the card from an active chat service, and one that fails.
use lario_llms.Prelude.{
  ℕ, ◌+◌, ◌-◌, ◌≡◌, refl, true, false, Option, none, some, List, [], ◌∷◌, count, select,
  if◌then◌else◌, Text, codes, eq_text, starts_with, ends_with, rstrip, rpartition, ok, err, raised,
  lookup, insert,
}
use lario_llms.Names.{basename}
use lario_llms.Encoder.{running, Job, Machine, is_running, write_state, teardown}
use lario_llms.Encoder.Sources.{Found, pruned, sources, media_probe, already_done}
use lario_llms.Encoder.Tally.{Line, is_done, bump, tally_lines, manifest_tally}
use lario_llms.Encoder.Tally.Bump.{sum, count_of}
use lario_llms.Encoder.Tally.Renames.{is_row, renames}
use lario_llms.Encoder.Tally.Rows.{is_decision, last_commit, manifest_tally-lines}
use lario_llms.Encoder.Start.{
  Arguments, Setting, check_arguments, check_machine, validate, new_job, start,
}
use lario_llms.Encoder.Settle.{status}
use lario_llms.Encoder.Settle.Repaired.{Repaired, status-Repaired}

-- a commit under two names, a refusal, and a commit with the same sizes
abbrev manifest : List Line
manifest =
    (codes "/m/a.avi" ∷ codes "DONE" ∷ codes "9" ∷ codes "4" ∷ [])
    ∷ (codes "/m/a.mkv" ∷ codes "DONE" ∷ codes "9" ∷ codes "4" ∷ [])
    ∷ (codes "/m/b.mkv" ∷ codes "FAIL" ∷ [])
    ∷ (codes "/m/c.mkv" ∷ codes "DONE" ∷ codes "9" ∷ codes "4" ∷ [])
    ∷ (codes "note" ∷ [])
    ∷ []

abbrev digit : Text → Option ℕ
digit [] = none
digit (c ∷ _) = some (c - 48)

counted :
    ((manifest_tally digit (some manifest)).aliases ≡ 1)
    × (count_of (codes "DONE") (manifest_tally digit (some manifest)).counts ≡ 2)
    × ((manifest_tally digit (some manifest)).before ≡ 18)
    × ((manifest_tally digit (some manifest)).after ≡ 8)
    × ((manifest_tally digit (some manifest)).last ≡ some (codes "c.mkv"))
unfolding manifest_tally tally_lines bump eq_text basename rpartition
counted = (refl, refl, refl, refl, refl)

manifest_tally-lines_example :
    (sum (manifest_tally digit (some manifest)).counts
        + (manifest_tally digit (some manifest)).aliases
      ≡ count is_row manifest)
    × ((d : Text)
        → count_of d (manifest_tally digit (some manifest)).counts
            + (if is_done d then (manifest_tally digit (some manifest)).aliases else 0)
          ≡ count (is_decision d) manifest)
    × ((manifest_tally digit (some manifest)).aliases ≡ renames (select is_row manifest))
    × ((manifest_tally digit (some manifest)).last ≡ last_commit none manifest)
manifest_tally-lines_example = manifest_tally-lines digit manifest

abbrev film : Found
film = record {
  path = codes "/mnt/media/m/x/b.mkv";
  folders = codes "x" ∷ [];
  name = codes "b.mkv";
  is_link = false;
  is_file = true;
  size = some 9;
}

hidden : sources (λ t. t) [] (film ∷ record film { folders = codes ".git" ∷ [] } ∷ []) ≡ film ∷ []
unfolding sources pruned starts_with ends_with eq_text
hidden = refl

abbrev willing : Setting
willing = record {
  on_bigcachy = true;
  is_safe = λ p. true;
  lower = λ t. t;
  extra_skips = [];
  registry = ok tt;
  lock = ok tt;
  held = ok tt;
  device = ok tt;
  busy = false;
  listing = λ root. some (film ∷ []);
  manifest = λ dir. none;
  made_dir = ok tt;
  idle = ok tt;
  selection = ok ("model", "preset");
  drain = ok tt;
  stops = true;
  spawned = ok 42;
  exited = false;
  repair = record { starts = true; warms = true; resumes = true };
}

abbrev arguments : Arguments
arguments = record {
  source_root = codes "/mnt/media/m/";
  cq = 23;
  limit = 0;
  mirror = false;
  mirror_dir = [];
  mirror_free_gb = 50;
  log_dir = codes "/mnt/media/l";
  unknown = false;
}

abbrev chatting : Machine
chatting = record { service_active = true; admitting = true }

takes_the_card :
    (start willing arguments "j" 9 [] chatting).1.machine
    ≡ record { service_active = false; admitting = false }
unfolding start validate check_arguments check_machine media_probe sources pruned already_done
    write_state insert rstrip starts_with ends_with eq_text
takes_the_card = refl

-- a busy chat service refuses the job; the admission, which an operator had drained, is opened by the handler
opened :
    (start
      (record willing { idle = err (raised "active") })
      arguments
      "j"
      9
      []
      (record { service_active = true; admitting = false })).1.machine
    ≡ chatting
unfolding start validate check_arguments check_machine media_probe sources pruned already_done
    write_state insert rstrip starts_with ends_with eq_text teardown
opened = refl

abbrev orphan : Job
orphan = record (new_job "j" 9) {
  state = running;
  log_dir = some (codes "/mnt/media/l");
  was_chat_active = true;
  drained = true;
  pgid = some 42;
}

abbrev taken : Machine
taken = record { service_active = false; admitting = false }

unalive : is_running (λ pid. false) orphan ≡ false
unfolding is_running
unalive = refl

status-Repaired_example :
    (j : Job) × (lookup "j"
        (status (λ pid. false) willing.repair false (("j", orphan) ∷ []) taken).0
      ≡ some j)
    × Repaired false orphan taken
        (j, (status (λ pid. false) willing.repair false (("j", orphan) ∷ []) taken).1)
status-Repaired_example =
    status-Repaired (λ pid. false) willing.repair false (("j", orphan) ∷ []) taken refl refl unalive
      refl
