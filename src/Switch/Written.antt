-- ===== src/Switch/Written.antt =====
-- What the writes of a switch leave on the disk (switch of shared/modelctl.py).
use Prim.Native.String.{◌++◌ as join}
use lario_llms.Prelude.{
  String, ◌≡◌, refl, ap, if◌then◌else◌, str_eq, some, Result, ok, err, raised, ◌>>◌, subst,
}
use lario_llms.Selection.{strip, selection, save_model, save_selection}
use lario_llms.Selection.Options.{selection-save_selection}
use lario_llms.Switch.{
  Disk, Writes, Outside, after, write_config, save_both, write_selection, conclude, attempt,
}

-- the text in the configuration and the selection that was saved last
pub record Holds (text key preset : String) (d : Disk) : Type 0 where
  pub config : d.config ≡ some text
  pub model : d.saved.model ≡ some (strip (join key "\n"))
  pub choice : d.saved.choice ≡ some (key, preset)

pub Holds-selection :
    (text key preset : String) (d : Disk)
    → Holds text key preset d
    → selection d.saved ≡ (
        if str_eq key (strip (join key "\n"))
        then ok (key, preset)
        else err (raised "selection state disagrees; restore through the controller"))
unfolding selection save_selection save_model
Holds-selection text key preset d h =
    rw (h.model, h.choice) (selection-save_selection key preset d.saved)

saved_both :
    (m w : Result (Unit {0})) (text key preset : String) (d : Disk)
    → Holds text key preset d
    → Holds text key preset (save_both m w key preset d).1
unfolding save_selection save_model
saved_both (err e) w text key preset d h = h
saved_both (ok _) (err e) text key preset d h = record {
  config = h.config;
  model = refl;
  choice = h.choice;
}
saved_both (ok _) (ok _) text key preset d h = record {
  config = h.config;
  model = refl;
  choice = refl;
}

after-Holds :
    {P : Disk → Type 0} (r : Result (Unit {0}) × Disk) (next : Disk → Result (Unit {0}) × Disk)
    → P r.1
    → ((d : Disk) → P d → P (next d).1)
    → P (after r next).1
after-Holds (err e, d) next h k = h
after-Holds (ok _, d) next h k = k d h

conclude-Holds :
    (text key preset : String) (warm : Result (Unit {0})) (again : Writes)
    (resumed : Result (Unit {0})) (d : Disk)
    → Holds text key preset d
    → Holds text key preset (conclude key preset warm again resumed d).1
conclude-Holds text key preset warm again resumed d h =
    after-Holds {P = Holds text key preset} (warm, d) _ h
      (λ d h.
        after-Holds {P = Holds text key preset} (write_selection again key preset d) _
          (saved_both again.model again.choice text key preset d h) (λ d h. h))

-- the part that writes: the configuration and the selection, then the last steps
abbrev pub written :
    Result (Unit {0})
    → Result (Unit {0})
    → Result (Unit {0})
    → Result (Unit {0})
    → Writes
    → Result (Unit {0})
    → String
    → String
    → String
    → Disk
    → Result (Unit {0}) × Disk
written configured model choice warm again resumed text key preset d =
    after (write_config configured text d)
      (λ d. after (save_both model choice key preset d) (conclude key preset warm again resumed))

pub written-Holds :
    (warm : Result (Unit {0})) (again : Writes) (resumed : Result (Unit {0}))
    (text key preset : String) (d : Disk)
    → Holds text key preset (written (ok tt) (ok tt) (ok tt) warm again resumed text key preset d).1
unfolding save_selection save_model
written-Holds warm again resumed text key preset d =
    conclude-Holds text key preset warm again resumed _
      (record { config = refl; model = refl; choice = refl })

written-eq-ok :
    (configured model choice warm : Result (Unit {0})) (again : Writes)
    (resumed : Result (Unit {0})) (text key preset : String) (d : Disk) {d' : Disk}
    → written configured model choice warm again resumed text key preset d ≡ (ok tt, d')
    → Holds text key preset d'
written-eq-ok (err e) model choice warm again resumed text key preset d h = cc
written-eq-ok (ok _) (err e) choice warm again resumed text key preset d h = cc
written-eq-ok (ok _) (ok _) (err e) warm again resumed text key preset d h = cc
written-eq-ok (ok _) (ok _) (ok _) warm again resumed text key preset d h =
    subst (Holds text key preset) (ap (λ x. x.1) h)
      (written-Holds warm again resumed text key preset d)

pub attempt-Holds :
    (out : Outside) (text key preset : String) (stopped : Result (Unit {0})) (d : Disk) {d' : Disk}
    → attempt out text key preset stopped d ≡ (ok tt, d')
    → Holds text key preset d'
attempt-Holds out text key preset (err e) d h = cc
attempt-Holds out text key preset (ok _) d h =
    written-eq-ok out.configured out.saved.model out.saved.choice (out.restarted >> out.warmed)
      out.saved_again out.resumed text key preset d h
