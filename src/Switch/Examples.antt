-- ===== src/Switch/Examples.antt =====
-- A switch that goes well, and one whose warm-up fails.
use lario_llms.Prelude.{String, ◌≡◌, refl, some, [], ok, err, raised, lookup, if◌then◌else◌, str_eq}
use lario_llms.Selection.{strip, selection, save_selection, save_model}
use lario_llms.Switch.{Disk, Writes, Outside, switch}
use lario_llms.Switch.Rollback.{switch-err, switch-ok}

abbrev before : Disk
before = record {
  config = some "old";
  saved = record { model = some "gemma"; choice = some ("gemma", "agents") };
}

abbrev writes : Writes
writes = record { model = ok tt; choice = ok tt }

abbrev well : Outside
well = record {
  ready = ok tt;
  rendered = ok "new";
  drained = ok tt;
  stopped = ok tt;
  configured = ok tt;
  saved = writes;
  restarted = ok tt;
  warmed = ok tt;
  saved_again = writes;
  resumed = ok tt;
  configured_back = ok tt;
  saved_back = writes;
  restarted_back = ok tt;
  warmed_back = ok tt;
  saved_back_again = writes;
  resumed_back = ok tt;
}

-- the JSON record cannot be written, and neither can it be a second time on the way back
abbrev full : Outside
full = record well {
  saved = record writes { choice = err (raised "OSError") };
  saved_back_again = record writes { choice = err (raised "OSError") };
}

-- a rollback that cannot write the configuration leaves the new one
abbrev stuck : Outside
stuck = record well { warmed = err (raised "warmup"); configured_back = err (raised "OSError") }

abbrev after : Disk
after = record {
  config = some "new";
  saved = record { model = some "qwen"; choice = some ("qwen", "capacity") };
}

switches : switch well [] "qwen" "capacity" before ≡ (ok tt, after)
unfolding switch selection save_selection save_model strip lookup
switches = refl

switch-ok_example :
    (text : String) × (well.rendered ≡ ok text)
    × (after.config ≡ some text)
    × (selection after.saved ≡ (
        if str_eq "qwen" (strip "qwen\n")
        then ok ("qwen", "capacity")
        else err (raised "selection state disagrees; restore through the controller")))
switch-ok_example = switch-ok well [] "qwen" "capacity" before switches

fails : switch full [] "qwen" "capacity" before ≡ (err (raised "OSError"), before)
unfolding switch selection save_selection save_model strip lookup
fails = refl

keeps_new : switch stuck [] "qwen" "capacity" before ≡ (err (raised "OSError"), after)
unfolding switch selection save_selection save_model strip lookup
keeps_new = refl

stripped : strip "gemma\n" ≡ "gemma"
unfolding strip
stripped = refl

switch-err_example :
    (before.config ≡ before.config) × (selection before.saved ≡ selection before.saved)
switch-err_example =
    switch-err full [] "qwen" "capacity" before "old" (refl, refl, refl) refl stripped fails
