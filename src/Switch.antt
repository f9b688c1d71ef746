-- ===== src/Switch.antt =====
-- shared/modelctl.py, switch: the change of the model of a hardware, with its rollback. The state is what
-- stands on the disk: the backend's configuration and the saved selection. What the service manager, the
-- backend and the admission server answer are arguments, and so is whether a write of a file succeeds: one that
-- fails leaves the file as it was.
pub mod Written
pub mod Rollback
pub mod Examples
use lario_llms.Prelude.{
  String, if◌then◌else◌, ◌>>=◌, Bool, true, false, Option, none, some, Result, ok, err, ◌>>◌, Fault,
  Dict, has_key,
}
use lario_llms.Registry.{Model}
use lario_llms.Selection.{Saved, selection, save_model, save_selection}

pub record Disk : Type 0 where
  pub config : Option String
  pub saved : Saved

-- the outcomes of the two writes of a selection: the state file and the JSON record
pub record Writes : Type 0 where
  pub model : Result (Unit {0})
  pub choice : Result (Unit {0})

-- The outcomes of the calls, in their order. `ready` joins the checks before the selection is read,
-- `drained` the draining and the check for idleness; `rendered` is the text of `render`.
pub record Outside : Type 0 where
  pub ready : Result (Unit {0})
  pub rendered : Result String
  pub drained : Result (Unit {0})
  pub stopped : Result (Unit {0})
  pub configured : Result (Unit {0})
  pub saved : Writes
  pub restarted : Result (Unit {0})
  pub warmed : Result (Unit {0})
  pub saved_again : Writes
  pub resumed : Result (Unit {0})
  pub configured_back : Result (Unit {0})
  pub saved_back : Writes
  pub restarted_back : Result (Unit {0})
  pub warmed_back : Result (Unit {0})
  pub saved_back_again : Writes
  pub resumed_back : Result (Unit {0})

-- one step after another, unless that one raised
abbrev pub after :
    Result (Unit {0}) × Disk → (Disk → Result (Unit {0}) × Disk) → Result (Unit {0}) × Disk
after (err e, d) next = (err e, d)
after (ok _, d) next = next d

abbrev pub write_config : Result (Unit {0}) → String → Disk → Result (Unit {0}) × Disk
write_config (err e) text d = (err e, d)
write_config (ok _) text d = (ok tt, record d { config = some text })

abbrev pub save_both :
    Result (Unit {0}) → Result (Unit {0}) → String → String → Disk → Result (Unit {0}) × Disk
save_both (err e) choice key preset d = (err e, d)
save_both (ok _) (err e) key preset d = (err e, record d { saved = save_model key d.saved })
save_both (ok _) (ok _) key preset d =
    (ok tt, record d { saved = save_selection key preset d.saved })

abbrev pub write_selection : Writes → String → String → Disk → Result (Unit {0}) × Disk
write_selection w key preset d = save_both w.model w.choice key preset d

-- the last steps, after the selection was saved: `warm` is the outcome of the restart and the warm-up
abbrev pub conclude :
    String
    → String
    → Result (Unit {0})
    → Writes
    → Result (Unit {0})
    → Disk
    → Result (Unit {0}) × Disk
conclude key preset warm again resumed d =
    after (warm, d) (λ d. after (write_selection again key preset d) (λ d. (resumed, d)))

-- the body of the `try`
abbrev pub attempt :
    Outside → String → String → String → Result (Unit {0}) → Disk → Result (Unit {0}) × Disk
attempt out text key preset (err e) d = (err e, d)
attempt out text key preset (ok _) d = after (write_config out.configured text d) (λ d.
    after (write_selection out.saved key preset d)
      (conclude key preset (out.restarted >> out.warmed) out.saved_again out.resumed))

-- A failure of the rollback itself takes the place of the first one.
abbrev pub in_place_of : Fault → Result (Unit {0}) × Disk → Result (Unit {0}) × Disk
in_place_of e (ok _, d) = (err e, d)
in_place_of e (err e', d) = (err e', d)

abbrev pub warm_back : Outside → Dict Model → String → Result (Unit {0})
warm_back out models key = if has_key key models then out.warmed_back else ok tt

abbrev pub recover :
    Outside
    → Dict Model
    → Option String
    → String × String
    → Result (Unit {0}) × Disk
    → Result (Unit {0}) × Disk
recover out models previous (key, preset) (ok _, d) = (ok tt, d)
recover out models none (key, preset) (err e, d) = (err e, d)
recover out models (some text) (key, preset) (err e, d) = in_place_of e (
    after (write_config out.configured_back text d) (λ d.
      after (write_selection out.saved_back key preset d) (
        conclude key preset (out.restarted_back >> warm_back out models key) out.saved_back_again
          out.resumed_back)))

abbrev pub change :
    Outside
    → Dict Model
    → String
    → String
    → String × String
    → Result String
    → Disk
    → Result (Unit {0}) × Disk
change out models key preset previous (err e) d = (err e, d)
change out models key preset previous (ok text) d =
    recover out models d.config previous (attempt out text key preset out.stopped d)

abbrev pub drained_then : Outside → Result String
drained_then out = out.rendered >>= λ text. out.drained >> ok text

abbrev pub selected :
    Outside
    → Dict Model
    → String
    → String
    → Result (String × String)
    → Disk
    → Result (Unit {0}) × Disk
selected out models key preset (err e) d = (err e, d)
selected out models key preset (ok previous) d =
    change out models key preset previous (drained_then out) d

unfoldable pub switch : Outside → Dict Model → String → String → Disk → Result (Unit {0}) × Disk
switch out models key preset d = selected out models key preset (out.ready >> selection d.saved) d
