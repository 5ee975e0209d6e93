-- ===== src/Tco/Period/Elapsed.antt =====
-- `hdspe_tco_period_elapsed`: the flags that a period leaves.
use snd_hdspe.Common.{
  ◌∙◌, ap, ◌-◌, ℕ, ◌*◌, ◌/◌, ◌%◌, ◌^◌, ◌≤◌, ◌<◌, ◌≡◌, ◌⊎◌, arith, refl, bit_and, Bool, true, false,
  not, ◌==◌, ==_iff, if◌then◌else◌, u32, ◌∷◌, inl, inr, some,
}
use mathlib.Core.Bool.{false≢true}
use snd_hdspe.Common.Bits.{bit_and_hex, bit_and_hex_fifteen}
use snd_hdspe.Common.Finite.{all_below, all_below_sound}
use snd_hdspe.Device.{wr_tco}
use snd_hdspe.Tco.{Tco, write_tco, field_get, set_timecode, reset_timecode}
use snd_hdspe.Tco.Mtc.{LtcIn}
use snd_hdspe.Tco.Registers.{field_get-eq, bit_and_sync}
use snd_hdspe.Tco.Period.{
  Environment, start_timecode, read_ltc, pull_factor, with_pull_factor, changed_ltc_in,
  period_ltc_in, start_requested, reset_picked_up, period_ltc_out, with_out, period_elapsed,
}

-- What a period leaves of the outgoing time code: no request, and a set time code exactly where
-- there was a request.
start_timecode-flags :
    (t : Tco) (e : Environment)
    → ((start_timecode t e).ltc_out ≡ 0xffffffff) × ((start_timecode t e).ltc_set ≡ true)
unfolding start_timecode write_tco set_timecode
start_timecode-flags t e = (refl, refl)

start_requested-flags :
    (t : Tco) (e : Environment)
    → t.ltc_set ≡ false
    → ((start_requested t e).ltc_out ≡ 0xffffffff)
      × ((start_requested t e).ltc_set ≡ not (t.ltc_out == 0xffffffff))
unfolding start_requested
start_requested-flags t e clear = by_request (t.ltc_out == 0xffffffff) refl
  where
    by_request :
        (b : Bool)
        → (t.ltc_out == 0xffffffff) ≡ b
        → ((if not b then start_timecode t e else t).ltc_out ≡ 0xffffffff)
          × ((if not b then start_timecode t e else t).ltc_set ≡ not b)
    by_request true none_left = ((==_iff _ _).0 none_left, clear)
    by_request false some_left = start_timecode-flags t e

reset_picked_up-flags :
    (t : Tco) → ((reset_picked_up t).ltc_out ≡ t.ltc_out) × ((reset_picked_up t).ltc_set ≡ false)
unfolding reset_picked_up reset_timecode write_tco
reset_picked_up-flags t = by_set t.ltc_set refl
  where
    by_set :
        (b : Bool)
        → t.ltc_set ≡ b
        → ((if b then reset_timecode t else t).ltc_out ≡ t.ltc_out)
          × ((if b then reset_timecode t else t).ltc_set ≡ false)
    by_set true set = (refl, refl)
    by_set false clear = (refl, clear)

period_ltc_out-flags :
    (t : Tco) (e : Environment)
    → ((period_ltc_out t e).ltc_out ≡ 0xffffffff)
      × ((period_ltc_out t e).ltc_set ≡ not (t.ltc_out == 0xffffffff))
unfolding period_ltc_out
period_ltc_out-flags t e =
    let (out, clear) = reset_picked_up-flags t in
    let (done, set) = start_requested-flags (reset_picked_up t) e clear in
    (done, set ∙ ap (λ (x : ℕ). not (x == 0xffffffff)) out)

-- The sum of durations that the C code can divide by.
abbrev pub IsMeasured : ℕ → Type 0
IsMeasured sum = (sum ≡ 0) ⊎ ((60000 ≤ sum) × (sum < 60 * 2 ^ 32))

pull_factor-some : (sum fps : ℕ) → IsMeasured sum → (pull : ℕ) × (pull_factor sum fps ≡ some pull)
unfolding pull_factor
pull_factor-some sum fps (inl e) = rw e (_, refl)
pull_factor-some sum fps (inr (low, high)) =
    let nonzero : (sum == 0) ≡ false = ground arith in
    let divides : (u32 (sum / 60000) == 0) ≡ false = ground arith in rw (nonzero, divides) (_, refl)

-- A period of which the durations can be averaged passes. Then the outgoing time code has no
-- request left, and is set exactly where there was one; the change of the incoming time code is
-- taken, and the clock of the time code is the frame count.
pub period_elapsed_lem :
    (t : Tco) (c : LtcIn) (e : Environment)
    → IsMeasured c.ltc_duration_sum
    → (t' : Tco) × (c' : LtcIn) × (period_elapsed t c e ≡ some (t', c'))
      × (t'.ltc_out ≡ 0xffffffff)
      × (t'.ltc_set ≡ not (t.ltc_out == 0xffffffff))
      × (c'.ltc_changed ≡ false)
      × (c'.ltc_time ≡ e.frame_count)
unfolding period_elapsed with_out period_ltc_in changed_ltc_in with_pull_factor
period_elapsed_lem t c e h =
    let (out, set) = period_ltc_out-flags t e in
    let (pull, measured) = pull_factor-some c.ltc_duration_sum (read_ltc e).fps h in
    by_change pull measured out set c.ltc_changed refl
  where
    by_change :
        (pull : ℕ)
        → pull_factor c.ltc_duration_sum (read_ltc e).fps ≡ some pull
        → (period_ltc_out t e).ltc_out ≡ 0xffffffff
        → (period_ltc_out t e).ltc_set ≡ not (t.ltc_out == 0xffffffff)
        → (b : Bool) → c.ltc_changed ≡ b
        → (t' : Tco) × (c' : LtcIn) × (with_out t e
              (if b then changed_ltc_in c e else some (record c { ltc_time = e.frame_count }))
            ≡ some (t', c'))
          × (t'.ltc_out ≡ 0xffffffff)
          × (t'.ltc_set ≡ not (t.ltc_out == 0xffffffff))
          × (c'.ltc_changed ≡ false)
          × (c'.ltc_time ≡ e.frame_count)
    by_change pull measured out set true changed = rw measured (_, _, refl, out, set, refl, refl)
    by_change pull measured out set false same = (_, _, refl, out, set, same, refl)

even_table : all_below 16 (λ n. bit_and n 14 % 2 == 0) ≡ true
unfolding all_below
even_table = refl

reset_bit : (x : ℕ) → field_get 8 1 (bit_and (bit_and x (2 ^ 32 - 1 - 0x100)) 0x7f7f7f7f) ≡ 0
reset_bit x =
    let first = bit_and_hex_fifteen x 0xfffffef in
    let second = bit_and_hex_fifteen (x / 16) 0xfffffe in
    let third = bit_and_hex (x / 16 / 16) 0xfffff 14 (omega arith) in
    let even = (==_iff _ _).0 (all_below_sound 16 _ (x / 16 / 16 % 16) even_table (omega arith)) in
    field_get-eq 8 1 _
    ∙ omega (arith, bit_and_sync (bit_and x (2 ^ 32 - 1 - 0x100)), first, second, third, even)

reset_picked_up-writes :
    (t : Tco)
    → t.ltc_set ≡ true
    → (v : ℕ) × ((reset_picked_up t).writes ≡ wr_tco 1 v ∷ t.writes) × (field_get 8 1 v ≡ 0)
unfolding reset_picked_up reset_timecode write_tco
reset_picked_up-writes t set = by_set t.ltc_set set
  where
    by_set :
        (b : Bool)
        → b ≡ true
        → (v : ℕ) × ((if b then reset_timecode t else t).writes ≡ wr_tco 1 v ∷ t.writes)
          × (field_get 8 1 v ≡ 0)
    by_set true set = (_, refl, reset_bit (bit_and t.reg1 0xffff))
    by_set false set = absurd (false≢true set)

start_requested-idle :
    (t : Tco) (e : Environment) → t.ltc_out ≡ 0xffffffff → start_requested t e ≡ t
unfolding start_requested
start_requested-idle t e out =
    let none_left : (t.ltc_out == 0xffffffff) ≡ true = (==_iff _ _).1 out in
    ap (λ (b : Bool). if not b then start_timecode t e else t) none_left

reset_next :
    (t : Tco) (e : Environment)
    → t.ltc_out ≡ 0xffffffff
    → t.ltc_set ≡ true
    → (v : ℕ) × ((period_ltc_out t e).writes ≡ wr_tco 1 v ∷ t.writes)
      × (field_get 8 1 v ≡ 0)
      × ((period_ltc_out t e).ltc_set ≡ false)
unfolding period_ltc_out
reset_next t e out set =
    let (same, clear) = reset_picked_up-flags t in
    let (v, writes, bit) = reset_picked_up-writes t set in
    let idle = start_requested-idle (reset_picked_up t) e (same ∙ out) in
    (v, ap (λ (x : Tco). x.writes) idle ∙ writes, bit, ap (λ (x : Tco). x.ltc_set) idle ∙ clear)

-- A time code that a period sets is reset by the next one, unless there is a new request: register
-- 1 is written with the start bit at 0.
pub period_ltc_out_resets :
    (t : Tco) (e e' : Environment)
    → (t.ltc_out == 0xffffffff) ≡ false
    → (v : ℕ) × ((period_ltc_out (period_ltc_out t e) e').writes
        ≡ wr_tco 1 v ∷ (period_ltc_out t e).writes)
      × (field_get 8 1 v ≡ 0)
      × ((period_ltc_out (period_ltc_out t e) e').ltc_set ≡ false)
period_ltc_out_resets t e e' h =
    let (out, set) = period_ltc_out-flags t e in
    reset_next (period_ltc_out t e) e' out (set ∙ ap not h)
