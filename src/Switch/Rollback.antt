-- ===== src/Switch/Rollback.antt =====
-- A switch either happens or leaves the disk as it was.
use Prim.Native.String.{◌++◌ as join}
use lario_llms.Prelude.{
  String, ◌≡◌, refl, sym, ap, ◌∙◌, ◌⊎◌, inl, inr, true, if◌then◌else◌, str_eq, eq_iff, Option, none,
  some, Result, ok, err, raised, ◌>>◌, Fault, Dict, subst, >>=-eq-ok, arith,
}
use lario_llms.Registry.{Model, get_or}
use lario_llms.Selection.{Saved, strip, chosen, selection}
use lario_llms.Switch.Written.{Holds, Holds-selection, written-Holds, attempt-Holds}
use lario_llms.Switch.{
  Disk, Outside, attempt, in_place_of, warm_back, recover, change, drained_then, selected, switch,
}

-- the writes of the rollback succeed, up to the second save of the selection
abbrev pub CanRollBack : Outside → Type 0
CanRollBack out =
    (out.configured_back ≡ ok tt) × (out.saved_back.model ≡ ok tt) × (out.saved_back.choice ≡ ok tt)

recover-err :
    (out : Outside) (models : Dict Model) (text key preset : String) (r : Result (Unit {0}) × Disk)
    {e : Fault} {d : Disk}
    → CanRollBack out
    → recover out models (some text) (key, preset) r ≡ (err e, d)
    → Holds text key preset d
recover-err out models text key preset (ok _, d) w h = cc
recover-err out models text key preset (err e, d) (configured, model, choice) h =
    let warm = out.restarted_back >> warm_back out models key in
    subst (Holds text key preset) (kept _ h) (
      rw (configured, model, choice)
        (written-Holds warm out.saved_back_again out.resumed_back text key preset d))
  where
    kept :
        (r : Result (Unit {0}) × Disk) {e' : Fault} {d' : Disk}
        → in_place_of e r ≡ (err e', d')
        → r.1 ≡ d'
    kept (ok _, c) k = ap (λ x. x.1) k
    kept (err f, c) k = ap (λ x. x.1) k

recover-ok :
    (out : Outside) (models : Dict Model) (o : Option String) (previous : String × String)
    (r : Result (Unit {0}) × Disk) {d : Disk}
    → recover out models o previous r ≡ (ok tt, d)
    → r ≡ (ok tt, d)
recover-ok out models o (key, preset) (ok _, d) h = h
recover-ok out models none (key, preset) (err e, d) h = cc
recover-ok out models (some text) (key, preset) (err e, d) h = absurd (never _ h)
  where
    never : (r : Result (Unit {0}) × Disk) {d' : Disk} → in_place_of e r ≡ (ok tt, d') → ⊥
    never (ok _, c) k = cc
    never (err f, c) k = cc

-- nothing was written, or the rollback has put everything back
Back : Disk → String → String × String → Disk → Type 0
Back d text previous d' = (d' ≡ d) ⊎ Holds text previous.0 previous.1 d'

change-err :
    (out : Outside) (models : Dict Model) (key preset : String) (previous : String × String)
    (r : Result String) (d : Disk) (text : String) {e : Fault} {d' : Disk}
    → CanRollBack out
    → d.config ≡ some text
    → change out models key preset previous r d ≡ (err e, d')
    → Back d text previous d'
unfolding Back
change-err out models key preset previous (err e) d text w there h = inl (sym (ap (λ x. x.1) h))
change-err out models key preset (key', preset') (ok new) d text {e = e} {d' = d'} w there h =
    let tried = attempt out new key preset out.stopped d in
    inr (
      recover-err out models text key' preset' tried w (
        subst (λ (o : Option String). recover out models o (key', preset') tried ≡ (err e, d'))
          there h))

change-ok :
    (out : Outside) (models : Dict Model) (key preset : String) (previous : String × String)
    (r : Result String) (d : Disk) {d' : Disk}
    → change out models key preset previous r d ≡ (ok tt, d')
    → (text : String) × (r ≡ ok text) × Holds text key preset d'
change-ok out models key preset previous (err e) d h = cc
change-ok out models key preset previous (ok text) d h = (
  text,
  refl,
  attempt-Holds out text key preset out.stopped d
      (recover-ok out models d.config previous (attempt out text key preset out.stopped d) h),
)

selection-model :
    (s : Saved) {key preset : String}
    → selection s ≡ ok (key, preset)
    → get_or s.model "(unset)" ≡ key
unfolding selection
selection-model s h = chosen-model (get_or s.model "(unset)") s.choice h
  where
    chosen-model :
        (model : String) (o : Option (String × String)) {key preset : String}
        → chosen model o ≡ ok (key, preset)
        → model ≡ key
    chosen-model model none h = ground arith
    chosen-model model (some (m, p)) h = ground arith

seq-selection :
    (m : Result (Unit {0})) (k : Result (String × String)) {previous : String × String}
    → (m >> k) ≡ ok previous
    → k ≡ ok previous
seq-selection (err e) k h = cc
seq-selection (ok _) k h = h

-- A switch that fails leaves the configuration and the selection that were there before, wherever it fails, also
-- where the rollback fails, but not where the rollback cannot write the configuration or, the first time, the
-- selection. (There was a configuration, and the saved model is, as it was read, without white space at its
-- ends.)
pub switch-err :
    (out : Outside) (models : Dict Model) (key preset : String) (d : Disk) (text : String)
    {e : Fault} {d' : Disk}
    → CanRollBack out
    → d.config ≡ some text
    → strip (join (get_or d.saved.model "(unset)") "\n") ≡ get_or d.saved.model "(unset)"
    → switch out models key preset d ≡ (err e, d')
    → (d'.config ≡ d.config) × (selection d'.saved ≡ selection d.saved)
unfolding switch Back
switch-err out models key preset d text w there stripped h =
    of_selected (out.ready >> selection d.saved) refl h
  where
    of_back :
        (previous : String × String) {d' : Disk}
        → selection d.saved ≡ ok previous
        → Back d text previous d'
        → (d'.config ≡ d.config) × (selection d'.saved ≡ selection d.saved)
    of_back previous saved (inl same) = (ap (λ x. x.config) same, ap (λ x. selection x.saved) same)
    of_back (key', preset') {d' = d'} saved (inr held) =
        let read : get_or d.saved.model "(unset)" ≡ key' = selection-model d.saved saved in
        let clean : strip (join key' "\n") ≡ key' =
          ap (λ k. strip (join k "\n")) (sym read) ∙ stripped ∙ read in
        let equal : str_eq key' (strip (join key' "\n")) ≡ true =
          (eq_iff key' (strip (join key' "\n"))).1 (sym clean) in
        (
          held.config ∙ sym there,
          Holds-selection text key' preset' d' held ∙ rw equal refl ∙ sym saved,
        )

    of_selected :
        (r : Result (String × String)) {e : Fault} {d' : Disk}
        → (out.ready >> selection d.saved) ≡ r
        → selected out models key preset r d ≡ (err e, d')
        → (d'.config ≡ d.config) × (selection d'.saved ≡ selection d.saved)
    of_selected (err f) s k = (sym (ap (λ x. x.1.config) k), sym (ap (λ x. selection x.1.saved) k))
    of_selected (ok previous) s k =
        of_back previous (seq-selection out.ready (selection d.saved) s)
          (change-err out models key preset previous (drained_then out) d text w there k)

-- A switch that succeeds leaves the rendered configuration and the new selection, which is read back unless its key
-- has white space at an end.
pub switch-ok :
    (out : Outside) (models : Dict Model) (key preset : String) (d : Disk) {d' : Disk}
    → switch out models key preset d ≡ (ok tt, d')
    → (text : String) × (out.rendered ≡ ok text)
      × (d'.config ≡ some text)
      × (selection d'.saved ≡ (
          if str_eq key (strip (join key "\n"))
          then ok (key, preset)
          else err (raised "selection state disagrees; restore through the controller")))
unfolding switch
switch-ok out models key preset d h = of_selected (out.ready >> selection d.saved) h
  where
    of_selected :
        (r : Result (String × String)) {d' : Disk}
        → selected out models key preset r d ≡ (ok tt, d')
        → (text : String) × (out.rendered ≡ ok text)
          × (d'.config ≡ some text)
          × (selection d'.saved ≡ (
              if str_eq key (strip (join key "\n"))
              then ok (key, preset)
              else err (raised "selection state disagrees; restore through the controller")))
    of_selected (err f) k = cc
    of_selected (ok previous) k =
        let (text, r, held) = change-ok out models key preset previous (drained_then out) d k in
        let (shown, rendered, q) = >>=-eq-ok out.rendered (λ text. out.drained >> ok text) r in
        (
          text,
          rendered ∙ ap ok (same out.drained q),
          held.config,
          Holds-selection text key preset _ held,
        )
      where
        same :
            (m : Result (Unit {0})) {shown text : String} → (m >> ok shown) ≡ ok text → shown ≡ text
        same (err e) p = cc
        same (ok _) p = cc
