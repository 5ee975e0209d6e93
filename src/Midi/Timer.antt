-- ===== src/Midi/Timer.antt =====
-- The timer that drives a port's output: `istimer` and the kernel's timer over any sequence of
-- triggers, expiries and ends of the handler.
use snd_hdspe.Common.{
  ℕ, ◌-◌, ◌≤◌, ◌≡◌, ◌⊎◌, arith, refl, Bool, true, false, ◌==◌, ==_iff, Bool-cases, ap, sym, ◌∙◌,
  if◌then◌else◌, inl, inr,
}
use mathlib.Core.Path.{subst}
use mathlib.Core.Bool.{false≢true}
use snd_hdspe.Midi.{
  Port, Midi, Environment, send_if, output_write, start_timer, stop_timer, output_trigger, rearm,
  output_open, output_close,
}

-- A port and whether the timer's handler runs.
pub record Output : Type 0 where
  pub midi : Midi
  pub running : Bool

-- The kernel's timer expires only where it is armed and its handler does not run; triggers may come
-- at any time, also between the handler's write and its decision to add the timer back.
pub data Step : Output → Output → Type 0 where
  opens :
      (m : Midi) (r : Bool)
      → Step (record { midi = m; running = r }) (record { midi = output_open m; running = r })
  starts :
      (e : Environment) (m : Midi) (r : Bool)
      → Step
          (record { midi = m; running = r })
          (record { midi = output_trigger e true m; running = r })
  stops :
      (e : Environment) (m : Midi) (r : Bool)
      → Step
          (record { midi = m; running = r })
          (record { midi = output_trigger e false m; running = r })
  closes :
      (e : Environment) (m : Midi) (r : Bool)
      → Step (record { midi = m; running = r }) (record { midi = output_close e m; running = r })
  expires :
      (m : Midi)
      → m.port.timer_armed ≡ true
      → Step
          (record { midi = m; running = false })
          (record {
            midi = record m { port = record (m.port) { timer_armed = false } };
            running = true;
          })
  writes :
      (e : Environment) (m : Midi)
      → Step
          (record { midi = m; running = true })
          (record { midi = output_write e m; running = true })
  returns :
      (m : Midi)
      → Step (record { midi = m; running = true }) (record { midi = rearm m; running = false })

pub data Steps : Output → Output → Type 0 where
  none_taken : (o : Output) → Steps o o
  one_more : (o o' o'' : Output) → Steps o o' → Step o' o'' → Steps o o''

-- `istimer` is 0 or 1; an armed timer belongs to a started output, and a started output has its
-- timer armed or its handler running.
pub record IsTimed (p : Port) (running : Bool) : Type 0 where
  pub counted : p.istimer ≤ 1
  pub owned : p.timer_armed ≡ true → p.istimer ≡ 1
  pub driven : p.istimer ≡ 1 → (p.timer_armed ≡ true) ⊎ (running ≡ true)

output_write-port : (e : Environment) (m : Midi) → (output_write e m).port ≡ m.port
unfolding output_write send_if
output_write-port e m = by_test _
  where
    by_test : (b : Bool) → (send_if b e m).port ≡ m.port
    by_test true = refl
    by_test false = refl

start_timer-IsTimed : (p : Port) (r : Bool) → IsTimed p r → IsTimed (start_timer p) r
unfolding start_timer
start_timer-IsTimed p r h = by_test (p.istimer == 0) refl
  where
    by_test :
        (b : Bool)
        → (p.istimer == 0) ≡ b
        → IsTimed (if b then record p { timer_armed = true; istimer = 1 } else p) r
    by_test true _ = record { counted = omega arith; owned = λ _. refl; driven = λ _. inl refl }
    by_test false _ = h

idle-IsTimed : (p : Port) (r : Bool) → p.istimer ≡ 0 → p.timer_armed ≡ false → IsTimed p r
idle-IsTimed p r none_left disarmed = record {
  counted = omega (arith, none_left);
  owned = λ armed. absurd (false≢true (sym disarmed ∙ armed));
  driven = λ one. absurd (omega (arith, none_left, one));
}

disarmed_of_zero : (p : Port) (r : Bool) → IsTimed p r → p.istimer ≡ 0 → p.timer_armed ≡ false
disarmed_of_zero p r h none_left = elim (Bool-cases p.timer_armed) [
  | inl armed ↦ absurd (omega (arith, h.owned armed, none_left))
  | inr disarmed ↦ disarmed
]

stop_timer-idle :
    (p : Port) (r : Bool)
    → IsTimed p r
    → ((stop_timer p).istimer ≡ 0) × ((stop_timer p).timer_armed ≡ false)
unfolding stop_timer
stop_timer-idle p r h = by_test (p.istimer == 0) refl
  where
    stopped : Port
    stopped = record p {
      istimer = p.istimer - 1;
      timer_armed = if p.istimer - 1 == 0 then false else p.timer_armed;
    }

    by_test :
        (b : Bool)
        → (p.istimer == 0) ≡ b
        → ((if b then p else stopped).istimer ≡ 0)
          × ((if b then p else stopped).timer_armed ≡ false)
    by_test true e = ((==_iff _ _).0 e, disarmed_of_zero p r h ((==_iff _ _).0 e))
    by_test false e =
        let last : p.istimer - 1 ≡ 0 = omega (arith, h.counted) in
        (last, ap (λ (n : ℕ). if n == 0 then false else p.timer_armed) last)

rearm-IsTimed : (m : Midi) → IsTimed m.port true → IsTimed (rearm m).port false
unfolding rearm
rearm-IsTimed m h = by_test (m.port.istimer == 0) refl
  where
    by_test :
        (b : Bool)
        → (m.port.istimer == 0) ≡ b
        → IsTimed
            (if b then m else record m { port = record (m.port) { timer_armed = true } }).port
            false
    by_test true e =
        let none_left = (==_iff _ _).0 e in
        idle-IsTimed m.port false none_left (disarmed_of_zero m.port true h none_left)
    by_test false e = record {
      counted = h.counted;
      owned = λ _. ground (arith, h.counted);
      driven = λ _. inl refl;
    }

-- The fields that the invariant is about.
with_fields :
    (p q : Port) (r : Bool)
    → q.istimer ≡ p.istimer
    → q.timer_armed ≡ p.timer_armed
    → IsTimed p r
    → IsTimed q r
with_fields p q r same_count same_armed h = record {
  counted = omega (arith, same_count, h.counted);
  owned = λ armed. same_count ∙ h.owned (sym same_armed ∙ armed);
  driven = λ one. elim (h.driven (sym same_count ∙ one)) [
    | inl armed ↦ inl (same_armed ∙ armed)
    | inr running ↦ inr running
  ];
}

output_close-idle :
    (e : Environment) (m : Midi) (r : Bool)
    → IsTimed m.port r
    → ((output_close e m).port.istimer ≡ 0) × ((output_close e m).port.timer_armed ≡ false)
unfolding output_close output_trigger
output_close-idle e m r h = stop_timer-idle m.port r h

Step-IsTimed :
    (o o' : Output) → Step o o' → IsTimed o.midi.port o.running → IsTimed o'.midi.port o'.running
unfolding output_trigger output_open
Step-IsTimed _ _ (opens m r) h = with_fields m.port _ r refl refl h
Step-IsTimed _ _ (starts e m r) h =
    subst (λ (p : Port). IsTimed p r) (sym (output_write-port e _)) (start_timer-IsTimed m.port r h)
Step-IsTimed _ _ (stops e m r) h =
    let (none_left, disarmed) = stop_timer-idle m.port r h in idle-IsTimed _ r none_left disarmed
Step-IsTimed _ _ (closes e m r) h =
    let (none_left, disarmed) = output_close-idle e m r h in idle-IsTimed _ r none_left disarmed
Step-IsTimed _ _ (expires m armed) h = record {
  counted = h.counted;
  owned = λ same. h.owned armed;
  driven = λ one. inr refl;
}
Step-IsTimed _ _ (writes e m) h =
    subst (λ (p : Port). IsTimed p true) (sym (output_write-port e m)) h
Step-IsTimed _ _ (returns m) h = rearm-IsTimed m h

Steps-IsTimed :
    (o o' : Output) → Steps o o' → IsTimed o.midi.port o.running → IsTimed o'.midi.port o'.running
Steps-IsTimed _ _ (none_taken o) h = h
Steps-IsTimed _ _ (one_more o o' o'' steps step) h =
    Step-IsTimed o' o'' step (Steps-IsTimed o o' steps h)

-- From a port whose output is stopped, any sequence of opens, triggers, closes, expiries and runs of
-- the handler keeps the timer in step with `istimer`, and a close then leaves no timer armed.
pub steps_timer_lem :
    (o o' : Output) (e : Environment)
    → o.midi.port.istimer ≡ 0
    → o.midi.port.timer_armed ≡ false
    → Steps o o'
    → IsTimed o'.midi.port o'.running
      × ((output_close e o'.midi).port.istimer ≡ 0)
      × ((output_close e o'.midi).port.timer_armed ≡ false)
steps_timer_lem o o' e none_left disarmed steps =
    let timed = Steps-IsTimed o o' steps (idle-IsTimed o.midi.port o.running none_left disarmed) in
    let (stopped, disarmed') = output_close-idle e o'.midi o'.running timed in
    (timed, stopped, disarmed')
