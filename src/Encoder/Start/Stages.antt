-- ===== src/Encoder/Start/Stages.antt =====
-- The stages of a start, from the validated job to the running one, and what holds between them.
use lario_llms.Prelude.{
  ℕ, String, ◌≡◌, refl, sym, ap, ◌∙◌, ◌⊎◌, inl, inr, Bool, true, false, not, some, List,
  if◌then◌else◌, lookup, Result, ok, err, raised,
}
use lario_llms.Encoder.{running, Machine}
use lario_llms.Encoder.Sources.{Found}
use lario_llms.Encoder.Start.{
  Arguments, Setting, World, Step, ◌then◌, save, after_ok, note_chat, check_chat, note_selection,
  drain, stop_chat, launch, watch_runner, reserve,
}
use lario_llms.Encoder.Teardown.{write_state-lookup}

module _ (id : String) (m : Machine) where
  -- nothing is touched yet, and then the state of the chat service is noted
  abbrev Before : World → Type 0
  Before w =
      (w.job.job_id ≡ id)
      × (w.machine ≡ m)
      × (w.job.was_chat_active ≡ false)
      × (w.job.drained ≡ false)

  abbrev Noted : World → Type 0
  Noted w = (w.job.job_id ≡ id) × (w.machine ≡ m) × (w.job.was_chat_active ≡ m.service_active)

  -- the admission is closed, and then the chat service is stopped
  abbrev Drained : World → Type 0
  Drained w =
      (w.job.job_id ≡ id)
      × (w.job.drained ≡ true)
      × (w.job.was_chat_active ≡ m.service_active)
      × (w.machine.admitting ≡ false)
      × (w.machine.service_active ≡ m.service_active)

  abbrev pub Held : World → Type 0
  Held w =
      (w.job.job_id ≡ id)
      × (w.job.drained ≡ true)
      × (w.job.was_chat_active ≡ m.service_active)
      × (w.machine.admitting ≡ false)
      × (w.machine.service_active ≡ false)

  abbrev pub Running : World → Type 0
  Running w =
      Held w
      × (w.job.state ≡ running)
      × ((pid : ℕ) × (w.job.pgid ≡ some pid))
      × (lookup id w.jobs ≡ some w.job)

  -- what every failure leaves to the handler
  abbrev pub Safe : World → Type 0
  Safe w =
      (w.job.job_id ≡ id)
      × ((w.machine ≡ m) ⊎ (w.job.drained ≡ true))
      × ((w.job.was_chat_active ≡ m.service_active)
          ⊎ ((w.job.was_chat_active ≡ false) × (w.job.drained ≡ false)))

  abbrev pub Ends : (World → Type 0) → Result (Unit {0}) × World → Type 0
  Ends P (err fault, w) = Safe w
  Ends P (ok _, w) = P w

  then-Ends :
      (P Q : World → Type 0) (r : Result (Unit {0}) × World) (step : Step)
      → Ends P r
      → ((w : World) → P w → Ends Q (step w))
      → Ends Q (r then step)
  then-Ends P Q (err fault, w) step h k = h
  then-Ends P Q (ok _, w) step h k = k w h

  after_ok-Ends :
      {A : Type 0} (P : World → Type 0) (r : Result A) (w : World) (k : A → World)
      → Safe w
      → ((a : A) → P (k a))
      → Ends P (after_ok r w k)
  after_ok-Ends P (err fault) w k h f = h
  after_ok-Ends P (ok a) w k h f = f a

  Before-Safe : (w : World) → Before w → Safe w
  Before-Safe w h = (h.0, inl h.1, inr (h.2, h.3))

  Noted-Safe : (w : World) → Noted w → Safe w
  Noted-Safe w h = (h.0, inl h.1, inl h.2)

  check_chat-Ends : (s : Setting) (w : World) → Before w → Ends Noted (check_chat s w)
  check_chat-Ends s w h = split w.machine.service_active
    where
      noted : Noted (note_chat w)
      noted = (h.0, h.1, ap (λ x. x.service_active) h.1)

      split :
          (b : Bool)
          → Ends Noted
              (if b then after_ok s.idle (note_chat w) (λ _. note_chat w) else (ok tt, note_chat w))
      split true =
          after_ok-Ends Noted s.idle (note_chat w) (λ _. note_chat w)
            (Noted-Safe (note_chat w) noted) (λ _. noted)
      split false = noted

  Held-Safe : (w : World) → Held w → Safe w
  Held-Safe w h = (h.0, inr h.1, inl h.2)

  stop_chat-Ends : (s : Setting) (w : World) → Drained w → Ends Held (stop_chat s w)
  stop_chat-Ends s w h = split w.job.was_chat_active s.stops refl
    where
      split :
          (b c : Bool)
          → w.job.was_chat_active ≡ b
          → Ends Held (
              if not b
              then (ok tt, w)
              else if c
              then (ok tt, record w { machine = record w.machine { service_active = false } })
              else (err (raised "failed to stop rtx5080.service"), w))
      split false c e = (h.0, h.1, h.2, h.3, h.4 ∙ sym h.2 ∙ e)
      split true true e = (h.0, h.1, h.2, h.3, refl)
      split true false e = (h.0, inr h.1, inl h.2)

  launch-Ends : (s : Setting) (w : World) → Held w → Ends Running (launch s w)
  launch-Ends s w h =
      after_ok-Ends Running s.spawned w
        (λ pid. save (record w.job { pgid = some pid; state = running }) w) (Held-Safe w h)
        (λ pid. (
          h,
          refl,
          (pid, refl),
          write_state-lookup (record w.job { pgid = some pid; state = running }) w.jobs h.0,
        ))

  watch_runner-Ends : (s : Setting) (w : World) → Running w → Ends Running (watch_runner s w)
  watch_runner-Ends s w h = split s.exited
    where
      split :
          (b : Bool)
          → Ends Running (if b then (err (raised "runner exited immediately"), w) else (ok tt, w))
      split true = Held-Safe w h.0
      split false = h

  pub reserve-Ends :
      (s : Setting) (a : Arguments) (files : List Found) (w : World)
      → Before w
      → Ends Running (reserve s a files w)
  reserve-Ends s a files w h =
      then-Ends Running Running _ (watch_runner s)
        (then-Ends Held Running _ (launch s)
          (then-Ends Drained Held _ (stop_chat s)
            (then-Ends Noted Drained _ (drain s)
              (then-Ends Noted Noted _ (note_selection s)
                (then-Ends Before Noted _ (check_chat s)
                  (after_ok-Ends Before s.made_dir w _ (Before-Safe w h) (λ _. h))
                  (check_chat-Ends s))
                (λ v n. after_ok-Ends Noted s.selection v _ (Noted-Safe v n) (λ _. n)))
              (λ v n.
                after_ok-Ends Drained s.drain v _ (Noted-Safe v n)
                  (λ _. (n.0, refl, n.2, refl, ap (λ x. x.service_active) n.1))))
            (stop_chat-Ends s))
          (launch-Ends s))
        (watch_runner-Ends s)
