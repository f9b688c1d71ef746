-- ===== src/Encoder/Start/Restore.antt =====
-- A start that fails leaves the chat service as it was, or restores it, or marks the job.
use lario_llms.Prelude.{
  ℕ, String, ◌≡◌, refl, ◌⊎◌, true, false, some, lookup, Fault, Result, ok, err,
}
use lario_llms.Encoder.{failed, Jobs, Machine, Restored}
use lario_llms.Encoder.Start.{Arguments, Setting, validate, World, message_of, start}
use lario_llms.Encoder.Start.Stages.{Running}

module _ (id : String) (m : Machine) where
  -- what the handler leaves
  abbrev pub GivenBack : Fault → World → Type 0
  GivenBack fault w =
      (w.job.state ≡ failed)
      × (w.job.error ≡ some (message_of fault))
      × (lookup id w.jobs ≡ some w.job)
      × ((w.machine ≡ m) ⊎ (Restored m.service_active w.machine ⊎ (w.job.restore_pending ≡ true)))

  -- what a start leaves, with its result
  abbrev pub Left : Result (Unit {0}) × World → Type 0
  Left (ok _, w) = Running id m w
  Left (err fault, w) = GivenBack fault w

-- A start that is not valid touches nothing: neither the admission nor the chat service, and no restore is due.
pub start-validate :
    (s : Setting) (a : Arguments) (id : String) (now : ℕ) (jobs : Jobs) (m : Machine)
    {fault : Fault}
    → s.on_bigcachy ≡ true
    → validate s a ≡ err fault
    → ((start s a id now jobs m).0 ≡ err fault)
      × ((start s a id now jobs m).1.machine ≡ m)
      × ((start s a id now jobs m).1.job.restore_pending ≡ false)
      × ((start s a id now jobs m).1.job.state ≡ failed)
unfolding start
start-validate s a id now jobs m here invalid = rw (here, invalid) (refl, refl, refl, refl)
