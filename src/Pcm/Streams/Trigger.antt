-- ===== src/Pcm/Streams/Trigger.antt =====
-- The trigger of hdspe_pcm.c: which streams run, and when the playback buffer is silenced.
use snd_hdspe.Common.{
  ℕ, ◌<◌, ◌≤◌, ◌*◌, ◌≡◌, ◌≢◌, arith, refl, bit_and, Bool, true, false, not, ◌&&◌, ◌||◌, ltb, ◌==◌,
  ==_iff, ltb→lt, ap, sym, ◌∙◌,
}
use mathlib.Core.Bool.{false≢true}
use mathlib.Core.Option
use snd_hdspe.Common.Int.{ℤ, pos}
use snd_hdspe.Common.Finite.{all_below, all_below_sound, &&-split}
use snd_hdspe.Device.{Direction, playback, capture}
use snd_hdspe.Pcm.Streams.Silence.{silent, silence_playback-silent}
use snd_hdspe.Pcm.Streams.{
  Command, start, resume, stop, suspend, pause_push, pause_release, other, Streams,
  silence_playback, bit_of, other_of, is_playback, is_start, with_bit, without_bit, own_bit,
  next_running, silences, is_open, triggered, trigger,
}

both : (Bool → Bool) → Bool
both p = p true && p false

both_sound : (p : Bool → Bool) → both p ≡ true → (b : Bool) → p b ≡ true
unfolding both
both_sound p h true = (&&-split _ _ h).0
both_sound p h false = (&&-split _ _ h).1

each_direction : (Direction → Bool) → Bool
each_direction p = p playback && p capture

each_direction_sound :
    (p : Direction → Bool) → each_direction p ≡ true → (d : Direction) → p d ≡ true
unfolding each_direction
each_direction_sound p h playback = (&&-split _ _ h).0
each_direction_sound p h capture = (&&-split _ _ h).1

-- A command that starts or stops; pausing does neither.
unfoldable pub moves : Command → Bool
moves start = true
moves resume = true
moves stop = true
moves suspend = true
moves _ = false

-- The streams that run are open.
abbrev pub consistent : Bool → Bool → ℕ → Bool
consistent p c running =
    (ltb running 4 && ((bit_and running 1 == 0) || p)) && ((bit_and running 2 == 0) || c)

abbrev opened : Bool → Bool → Direction → Bool
opened p c playback = p
opened p c capture = c

keeps : Bool → Bool → Bool → Direction → Command → ℕ → Bool
keeps p c linked d cmd running =
    not (consistent p c running && opened p c d)
    || consistent p c (next_running (opened p c (other_of d)) linked d cmd running)

quiet : Bool → Bool → Bool → Direction → Command → ℕ → Bool
quiet p c linked d cmd running =
    let open_other = opened p c (other_of d) in
    not (
      (consistent p c running && moves cmd)
      && ((next_running open_other linked d cmd running == 2) && not (running == 2)))
    || silences open_other linked d cmd running

each : (Bool → Bool → Bool → Direction → ℕ → Bool) → Bool
each f = both (λ p. both (λ c. both (λ l. each_direction (λ d. all_below 4 (f p c l d)))))

each_sound :
    (f : Bool → Bool → Bool → Direction → ℕ → Bool)
    → each f ≡ true
    → (p c l : Bool) (d : Direction) (r : ℕ) → r < 4
    → f p c l d r ≡ true
unfolding each
each_sound f h p c l d r small =
    all_below_sound 4 (f p c l d) r
      (each_direction_sound _ (both_sound _ (both_sound _ (both_sound _ h p) c) l) d) small

checked : (cmd : Command) → each (λ p c l d r. keeps p c l d cmd r && quiet p c l d cmd r) ≡ true
unfolding each both each_direction all_below keeps quiet moves next_running silences own_bit
    with_bit without_bit bit_of other_of is_playback is_start
checked start = refl
checked resume = refl
checked stop = refl
checked suspend = refl
checked pause_push = refl
checked pause_release = refl
checked other = refl

-- No other bits than the two are set, and a stream that runs is open.
unfoldable pub IsRunnable : Streams → Type 0
IsRunnable s = consistent s.playback_open s.capture_open s.running ≡ true

is_open-opened :
    (s : Streams) (d : Direction) → is_open s d ≡ opened s.playback_open s.capture_open d
unfolding is_open
is_open-opened s playback = refl
is_open-opened s capture = refl

running_small : (s : Streams) → IsRunnable s → s.running < 4
unfolding IsRunnable
running_small s h =
    let (first, second) = &&-split _ _ h in
    let (small, third) = &&-split _ _ first in ltb→lt s.running 4 small

checked_at :
    (s : Streams) (d : Direction) (cmd : Command)
    → IsRunnable s
    → (keeps s.playback_open s.capture_open s.linked d cmd s.running ≡ true)
      × (quiet s.playback_open s.capture_open s.linked d cmd s.running ≡ true)
checked_at s d cmd h = &&-split _ _ (
    each_sound _ (checked cmd) s.playback_open s.capture_open s.linked d s.running
      (running_small s h))

implied : (a b : Bool) → (not a || b) ≡ true → a ≡ true → b ≡ true
implied a b h e = ground arith

&&-both : (a b : Bool) → a ≡ true → b ≡ true → (a && b) ≡ true
&&-both a b h k = ground arith

triggered-IsRunnable :
    (s : Streams) (d : Direction) (cmd : Command)
    → IsRunnable s
    → is_open s d ≡ true
    → IsRunnable (triggered s d cmd)
unfolding IsRunnable triggered keeps
triggered-IsRunnable s d cmd h is_opened =
    rw (is_open-opened s (other_of d))
      (implied _ _ (checked_at s d cmd h).0 (&&-both _ _ h (sym (is_open-opened s d) ∙ is_opened)))

-- Each trigger of an open stream, pausing and unknown commands included, leaves no other bits than
-- the two streams' set, and only open streams running.
pub trigger-IsRunnable :
    (s : Streams) (d : Direction) (cmd : Command)
    → IsRunnable s
    → is_open s d ≡ true
    → IsRunnable (trigger s d cmd).0
unfolding trigger
trigger-IsRunnable s d start h o = triggered-IsRunnable s d start h o
trigger-IsRunnable s d resume h o = triggered-IsRunnable s d resume h o
trigger-IsRunnable s d stop h o = triggered-IsRunnable s d stop h o
trigger-IsRunnable s d suspend h o = triggered-IsRunnable s d suspend h o
trigger-IsRunnable s d pause_push h o = triggered-IsRunnable s d pause_push h o
trigger-IsRunnable s d pause_release h o = triggered-IsRunnable s d pause_release h o
trigger-IsRunnable s d other h o = h

trigger-moves :
    (s : Streams) (d : Direction) (cmd : Command)
    → moves cmd ≡ true
    → trigger s d cmd ≡ (triggered s d cmd, pos 0)
unfolding trigger moves
trigger-moves s d start h = refl
trigger-moves s d resume h = refl
trigger-moves s d stop h = refl
trigger-moves s d suspend h = refl
trigger-moves s d pause_push h = absurd (false≢true h)
trigger-moves s d pause_release h = absurd (false≢true h)
trigger-moves s d other h = absurd (false≢true h)

triggered_silences :
    (s : Streams) (d : Direction) (cmd : Command)
    → IsRunnable s
    → moves cmd ≡ true
    → (triggered s d cmd).running ≡ 2
    → s.running ≢ 2
    → (triggered s d cmd).playback_buffer ≡ silence_playback s.period_size s.playback_buffer
unfolding IsRunnable triggered quiet
triggered_silences s d cmd h moving now before =
    let was : not (s.running == 2) ≡ true = ground (arith, before) in
    let is : (next_running (opened s.playback_open s.capture_open (other_of d)) s.linked d cmd
            s.running
          == 2)
        ≡ true =
      (==_iff _ _).1 (
        ap (λ (b : Bool). next_running b s.linked d cmd s.running)
          (sym (is_open-opened s (other_of d)))
        ∙ now) in
    let silent =
      implied _ _ (checked_at s d cmd h).1
        (&&-both _ _ (&&-both _ _ h moving) (&&-both _ _ is was)) in
    rw (is_open-opened s (other_of d), silent) refl

-- Whenever a start or stop leaves capture running alone, where it did not run alone before, and the
-- period is at most 16384 frames, the playback buffer, if there is one, is cleared in the first
-- period_size * 4 bytes of the 65536 bytes of each of the 64 channels, and is as before everywhere
-- else.
pub trigger_silences :
    (s : Streams) (d : Direction) (cmd : Command)
    → IsRunnable s
    → moves cmd ≡ true
    → s.period_size ≤ 16384
    → (trigger s d cmd).0.running ≡ 2
    → s.running ≢ 2
    → (trigger s d cmd).0.playback_buffer
      ≡ Option.map (silent 64 (s.period_size * 4)) s.playback_buffer
trigger_silences s d cmd h moving small now before =
    let e = trigger-moves s d cmd moving in
    ap (λ (r : Streams × ℤ). r.0.playback_buffer) e
    ∙ (triggered_silences s d cmd h moving (ap (λ (r : Streams × ℤ). r.0.running) (sym e) ∙ now)
          before
        ∙ silence_playback-silent s.period_size s.playback_buffer small)
