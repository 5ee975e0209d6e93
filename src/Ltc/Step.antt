-- ===== src/Ltc/Step.antt =====
-- `hdspe_ltc32_decr`, `hdspe_ltc32_incr` and `hdspe_ltc32_running` of hdspe_ltc_math.c. The
-- nested blocks of the first two are functions, the innermost first; each returns `tco` as its
-- last `|=` leaves it. A digit that is counted down is a ℤ until its test for a borrow.
pub mod Decrement
pub mod DropRule
pub mod Increment
pub mod Running
use snd_hdspe.Common.{
  ℕ, ◌+◌, ◌-◌, ◌*◌, ◌/◌, bit_and, bit_or, Bool, false, not, ◌&&◌, ◌||◌, leb, ◌==◌, if◌then◌else◌,
  shr, shl, u32,
}
use snd_hdspe.Common.Int.{ℤ, pos, negsuc, pos_part, ◌-ℤ◌, ltb_ℤ, is_negative}
use snd_hdspe.Ltc.{time_mask, cmp}

-- The field of `bits` that starts at bit k, less one.
abbrev one_less : ℕ → ℕ → ℕ → ℤ
one_less tci k bits = pos (bit_and (shr tci k) bits) -ℤ pos 1

abbrev is_zero : ℤ → Bool
is_zero (pos n) = n == 0
is_zero (negsuc n) = false

-- Hours: `H` and `h`.
pub decr_hours : ℕ → ℕ
decr_hours tci =
    let h = one_less tci 24 0xf in
    let ht = one_less tci 28 0x3 in
    if is_negative h
    then (if is_negative ht
        then bit_or (shl 2 28) (shl 3 24)
        else bit_or (shl (pos_part ht) 28) (shl 9 24))
    else bit_or (bit_and tci 0x30000000) (shl (pos_part h) 24)

-- Tens of minutes: `M`.
pub decr_tens_of_minutes : ℕ → ℕ
decr_tens_of_minutes tci =
    let mt = one_less tci 20 0x7 in
    if is_negative mt
    then bit_or (decr_hours tci) (shl 5 20)
    else bit_or (bit_and tci 0x3f000000) (shl (pos_part mt) 20)

-- Minutes: `m`.
pub decr_minutes : ℕ → ℕ
decr_minutes tci =
    let m = one_less tci 16 0xf in
    if is_negative m
    then bit_or (decr_tens_of_minutes tci) (shl 9 16)
    else bit_or (bit_and tci 0x3f700000) (shl (pos_part m) 16)

-- Tens of seconds: `S`.
pub decr_tens_of_seconds : ℕ → ℕ
decr_tens_of_seconds tci =
    let st = one_less tci 12 0x7 in
    if is_negative st
    then bit_or (decr_minutes tci) (shl 5 12)
    else bit_or (bit_and tci 0x3f7f0000) (shl (pos_part st) 12)

-- Seconds: `s`.
pub decr_seconds : ℕ → ℕ
decr_seconds tci =
    let s = one_less tci 8 0xf in
    if is_negative s
    then bit_or (decr_tens_of_seconds tci) (shl 9 8)
    else bit_or (bit_and tci 0x3f7f7000) (shl (pos_part s) 8)

-- `f` after `f --` and the drop-frame rule.
pub decr_frame_digit : ℕ → Bool → ℤ
decr_frame_digit tci df =
    let f = pos (bit_and tci 0xf) -ℤ pos 1 in
    if df && ltb_ℤ f (pos 2) && (bit_and tci 0x7ff0 == 0) && not (bit_and tci 0xf0000 == 0)
    then f -ℤ pos 2
    else f

pub decr : ℕ → ℕ → Bool → ℕ
decr tci fps df =
    let f = decr_frame_digit tci df in
    let ft = one_less tci 4 0x3 in
    let last = (fps - 1) / 10 in
    if is_negative f
    then (if is_negative ft
        then bit_or (bit_or (decr_seconds tci) (shl last 4)) (fps - 1 - last * 10)
        else bit_or (bit_or (bit_and tci 0x3f7f7f00) (shl (pos_part ft) 4)) 9)
    else bit_or (bit_and tci 0x3f7f7f30) (pos_part f)

-- Hours: `H` and `h`, with the wrap at midnight.
pub incr_hours : ℕ → ℕ
incr_hours tci =
    let h0 = bit_and (shr tci 24) 0xf + 1 in
    let ht0 = bit_and (shr tci 28) 0x3 in
    let ht = if leb 10 h0 then ht0 + 1 else ht0 in
    let h = if leb 10 h0 then 0 else h0 in
    if leb 24 (10 * ht + h) then 0 else bit_or (shl ht 28) (shl h 24)

-- Tens of minutes: `M`.
pub incr_tens_of_minutes : ℕ → ℕ
incr_tens_of_minutes tci =
    let mt = bit_and (shr tci 20) 0x7 + 1 in
    if leb 6 mt
    then bit_or (incr_hours tci) (shl 0 20)
    else bit_or (bit_and tci 0x3f000000) (shl mt 20)

-- The test of `m >= 10`.
pub incr_minutes_carries : ℕ → Bool
incr_minutes_carries tci = leb 10 (bit_and (shr tci 16) 0xf + 1)

-- Minutes: `m`.
pub incr_minutes : ℕ → ℕ
incr_minutes tci =
    let m = bit_and (shr tci 16) 0xf + 1 in
    if incr_minutes_carries tci
    then bit_or (incr_tens_of_minutes tci) (shl 0 16)
    else bit_or (bit_and tci 0x3f700000) (shl m 16)

-- Tens of seconds: `S`.
pub incr_tens_of_seconds : ℕ → ℕ
incr_tens_of_seconds tci =
    let st = bit_and (shr tci 12) 0x7 + 1 in
    if leb 6 st
    then bit_or (incr_minutes tci) (shl 0 12)
    else bit_or (bit_and tci 0x3f7f0000) (shl st 12)

-- Seconds: `s`.
pub incr_seconds : ℕ → ℕ
incr_seconds tci =
    let s = bit_and (shr tci 8) 0xf + 1 in
    if leb 10 s
    then bit_or (incr_tens_of_seconds tci) (shl 0 8)
    else bit_or (bit_and tci 0x3f7f7000) (shl s 8)

-- `f` where the seconds are counted on: 0, and 2 in the block that skips the dropped frames.
pub incr_first_frame : ℕ → Bool → ℕ
incr_first_frame tci df =
    if leb 10 (bit_and (shr tci 8) 0xf + 1)
      && leb 6 (bit_and (shr tci 12) 0x7 + 1)
      && not (incr_minutes_carries tci)
      && df
    then 2
    else 0

pub incr : ℕ → ℕ → Bool → ℕ
incr tci fps df =
    let f0 = bit_and (shr tci 0) 0xf + 1 in
    let ft0 = bit_and (shr tci 4) 0x3 in
    let ft = if leb 10 f0 then ft0 + 1 else ft0 in
    let f = if leb 10 f0 then 0 else f0 in
    if leb fps (10 * ft + f)
    then bit_or (incr_seconds tci) (bit_or (shl 0 4) (shl (incr_first_frame tci df) 0))
    else bit_or (bit_and tci 0x3f7f7f00) (bit_or (shl ft 4) (shl f 0))

pub running : ℕ → ℕ → ℕ → Bool → ℤ
running ltc1 ltc2 fps df =
    if (bit_and (u32 (ltc1 + 1)) time_mask == bit_and ltc2 time_mask)
      || is_zero (cmp (incr ltc1 fps df) ltc2)
    then pos 1
    else if is_zero (cmp (incr ltc2 fps df) ltc1)
    then negsuc 0
    else pos 0
