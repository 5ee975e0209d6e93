-- ===== src/Tco/Mtc.antt =====
-- MIDI time code in hdspe_tco.c: `hdspe_tco_mtc`, and the fields of `struct hdspe_tco` about the
-- incoming time code. The kernel's clock is an argument; the locks are left out.
pub mod Duration
use snd_hdspe.Common.{
  ℕ, ◌+◌, ◌-◌, ◌*◌, ◌/◌, ◌%◌, ◌^◌, bit_and, Bool, true, false, ◌&&◌, ◌||◌, ltb, ◌==◌, if◌then◌else◌,
  shr, u32, List, [], ◌∷◌,
}

pub record LtcIn : Type 0 where
  pub ltc_changed : Bool
  pub ltc_in : ℕ
  pub ltc_time : ℕ
  pub ltc_in_frame_count : ℕ
  pub prev_ltc_time : ℕ
  pub ltc_duration_sum : ℕ
  pub ltc_duration : ℕ → ℕ
  pub ltc_count : ℕ
  pub ltc_in_pullfac : ℕ
  pub last_ltc_in_pullfac : ℕ

abbrev pub u64 : ℕ → ℕ
u64 n = n % 2 ^ 64

-- a - b of u64, where b is below 2 ^ 64.
abbrev pub sub_u64 : ℕ → ℕ → ℕ
sub_u64 a b = u64 (a + (2 ^ 64 - b))

abbrev pub ltc_cache_size : ℕ
ltc_cache_size = 60

-- A full time code message of 10 bytes, or a quarter frame message of 2 bytes with piece 0 or 4.
unfoldable pub is_new_tc : List ℕ → Bool
is_new_tc (b0 ∷ b1 ∷ []) =
    (b0 == 0xf1) && ((bit_and (shr b1 4) 0xf == 0) || (bit_and (shr b1 4) 0xf == 4))
is_new_tc (b0 ∷ b1 ∷ b2 ∷ b3 ∷ b4 ∷ b5 ∷ b6 ∷ b7 ∷ b8 ∷ b9 ∷ []) =
    (b0 == 0xf0)
    && ((b1 == 0x7f) && ((b2 == 0x7f) && ((b3 == 0x01) && ((b4 == 0x01) && (b9 == 0xf7)))))
is_new_tc _ = false

pub set_at : (ℕ → ℕ) → ℕ → ℕ → ℕ → ℕ
set_at f n v i = if i == n then v else f i

-- One observed duration; an entry of the cache is a u32.
pub observe : LtcIn → ℕ → LtcIn
observe c now =
    let n = c.ltc_count % ltc_cache_size in
    let duration = u32 (sub_u64 now c.prev_ltc_time) in
    let sum = sub_u64 c.ltc_duration_sum (c.ltc_duration n) in
    record c {
      ltc_duration = set_at c.ltc_duration n duration;
      ltc_duration_sum = u64 (sum + duration);
    }

pub new_tc : LtcIn → ℕ → LtcIn
new_tc c now =
    let observed = if ltb 0 c.prev_ltc_time then observe c now else c in
    record observed { prev_ltc_time = now; ltc_count = u32 (c.ltc_count + 1); ltc_changed = true }

pub mtc : LtcIn → ℕ → List ℕ → LtcIn
mtc c now buf = if is_new_tc buf then new_tc c now else c

-- kzalloc leaves all fields 0.
pub init_ltc_in : LtcIn
init_ltc_in = record {
  ltc_changed = false;
  ltc_in = 0;
  ltc_time = 0;
  ltc_in_frame_count = 0;
  prev_ltc_time = 0;
  ltc_duration_sum = 0;
  ltc_duration = λ i. 0;
  ltc_count = 0;
  ltc_in_pullfac = 0;
  last_ltc_in_pullfac = 0;
}
