-- ===== src/Tco/Controls/FrameRate.antt =====
-- What a control of hdspe_tco.c leaves: the value, the range of the settings, and the writes.
use snd_hdspe.Common.{
  ℕ, ◌+◌, ◌*◌, ◌%◌, ◌<◌, ◌≤◌, ◌≡◌, arith, refl, Bool, true, false, not, ◌&&◌, ltb, ◌==◌, ==_iff,
  if◌then◌else◌, lt→ltb, le→ltb_false, ltb→lt, sym,
}
use mathlib.Core.Path.{subst}
use snd_hdspe.Common.Int.{ℤ, pos, negsuc}
use snd_hdspe.Common.Finite.{all_below, all_below_sound, &&-split}
use snd_hdspe.Tco.{Settings, Tco, flag, write_tco, write_settings}
use snd_hdspe.Tco.Fields.{IsSettings}
use snd_hdspe.Tco.Controls.{
  Setting, input, sample_rate, pull, wck_conversion, term, wck_out_speed, set_setting, max_range,
  put_setting, frame_rate_of, fps_of, df_of, get_frame_rate, put_frame_rate, written_if,
  put_control,
}

write_settings-settings : (t : Tco) (sys : Bool) → (write_settings t sys).settings ≡ t.settings
unfolding write_settings write_tco
write_settings-settings t sys = refl

written_if-settings :
    (b : Bool) (t : Tco) (sys : Bool) → (written_if b t sys).0.settings ≡ t.settings
unfolding written_if
written_if-settings true t sys = write_settings-settings t sys
written_if-settings false t sys = refl

-- A value in range becomes the putter's setting.
put_control-settings :
    (putter : Settings → ℕ → Settings × Bool) (range : ℕ) (t : Tco) (sys : Bool) (val : ℕ)
    → val < range
    → (put_control putter range t sys (pos val)).0.settings ≡ (putter t.settings val).0
unfolding put_control
put_control-settings putter range t sys val h =
    rw (lt→ltb val range h) (written_if-settings _ _ sys)

-- A value out of range is refused, and nothing changes.
put_control-refused :
    (putter : Settings → ℕ → Settings × Bool) (range : ℕ) (t : Tco) (sys : Bool) (val : ℕ)
    → range ≤ val
    → put_control putter range t sys (pos val) ≡ (t, negsuc 21)
unfolding put_control
put_control-refused putter range t sys val h = rw (le→ltb_false val range h) refl

shown : ℕ → Bool
shown val = frame_rate_of (df_of val * 4 + fps_of val % 4) == val

in_range : ℕ → Bool
in_range val = ltb (fps_of val) 4 && ltb (df_of val) 2

frame_rates : (all_below 6 shown ≡ true) × (all_below 6 in_range ≡ true)
unfolding all_below shown in_range frame_rate_of fps_of df_of
frame_rates = (refl, refl)

flag-df_of : (val : ℕ) → flag (not (df_of val == 0)) ≡ df_of val
unfolding df_of
flag-df_of val = ground arith

-- A frame rate that is put is read back.
pub get_frame_rate-put_control :
    (t : Tco) (sys_48khz : Bool) (val : ℕ)
    → val < 6
    → get_frame_rate (put_control put_frame_rate 6 t sys_48khz (pos val)).0.settings ≡ val
unfolding get_frame_rate put_frame_rate shown
get_frame_rate-put_control t sys_48khz val h =
    let put = put_control-settings put_frame_rate 6 t sys_48khz val h in
    let same = (==_iff _ _).0 (all_below_sound 6 shown val frame_rates.0 h) in
    rw (put, flag-df_of val) same

-- A putter that keeps the settings in range, where its value is.
KeepsRange : (Settings → ℕ → Settings × Bool) → ℕ → Type 0
KeepsRange putter range =
    (c : Settings) (val : ℕ) → IsSettings c → val < range → IsSettings (putter c val).0

in_range_of :
    (c : Settings)
    → c.input < 3
    → c.ltc_fps < 4
    → c.ltc_drop < 2
    → c.sample_rate < 3
    → c.pull < 5
    → c.wck_conversion < 3
    → c.term < 2
    → c.wck_out_speed < 3
    → c.ltc_flywheel < 2
    → IsSettings c
in_range_of c h0 h1 h2 h3 h4 h5 h6 h7 h8 = record {
  input = h0;
  ltc_fps = h1;
  ltc_drop = h2;
  sample_rate = h3;
  pull = h4;
  wck_conversion = h5;
  term = h6;
  wck_out_speed = h7;
  ltc_flywheel = h8;
}

put_frame_rate-KeepsRange : KeepsRange put_frame_rate 6
unfolding KeepsRange put_frame_rate in_range
put_frame_rate-KeepsRange c val h l =
    let (fps, df) = &&-split _ _ (all_below_sound 6 in_range val frame_rates.1 l) in
    in_range_of _ h.input (ltb→lt _ _ fps) (ltb→lt _ _ df) h.sample_rate h.pull h.wck_conversion
      h.term h.wck_out_speed h.ltc_flywheel

put_setting-KeepsRange : (s : Setting) → KeepsRange (put_setting s) (max_range s)
unfolding KeepsRange put_setting set_setting max_range
put_setting-KeepsRange input c val h l =
    in_range_of _ l h.ltc_fps h.ltc_drop h.sample_rate h.pull h.wck_conversion h.term
      h.wck_out_speed h.ltc_flywheel
put_setting-KeepsRange sample_rate c val h l =
    in_range_of _ h.input h.ltc_fps h.ltc_drop l h.pull h.wck_conversion h.term h.wck_out_speed
      h.ltc_flywheel
put_setting-KeepsRange pull c val h l =
    in_range_of _ h.input h.ltc_fps h.ltc_drop h.sample_rate l h.wck_conversion h.term
      h.wck_out_speed h.ltc_flywheel
put_setting-KeepsRange wck_conversion c val h l =
    in_range_of _ h.input h.ltc_fps h.ltc_drop h.sample_rate h.pull l h.term h.wck_out_speed
      h.ltc_flywheel
put_setting-KeepsRange term c val h l =
    in_range_of _ h.input h.ltc_fps h.ltc_drop h.sample_rate h.pull h.wck_conversion l
      h.wck_out_speed h.ltc_flywheel
put_setting-KeepsRange wck_out_speed c val h l =
    in_range_of _ h.input h.ltc_fps h.ltc_drop h.sample_rate h.pull h.wck_conversion h.term l
      h.ltc_flywheel

put_control-IsSettings :
    (putter : Settings → ℕ → Settings × Bool) (range : ℕ)
    → KeepsRange putter range
    → (t : Tco) (sys : Bool) (val : ℤ) → IsSettings t.settings
    → IsSettings (put_control putter range t sys val).0.settings
unfolding put_control KeepsRange
put_control-IsSettings putter range keeps t sys (negsuc n) h = h
put_control-IsSettings putter range keeps t sys (pos val) h = by_test (ltb val range) refl
  where
    by_test :
        (b : Bool)
        → ltb val range ≡ b
        → IsSettings
            (if not b
              then (t, negsuc 21)
              else written_if
                  (putter t.settings val).1
                  (record t { settings = (putter t.settings val).0 })
                  sys).0.settings
    by_test false _ = h
    by_test true small =
        subst IsSettings (sym (written_if-settings _ _ sys))
          (keeps t.settings val h (ltb→lt _ _ small))

-- Each control, for every value, negative ones included, keeps the settings in the ranges of their
-- enumerations.
pub put_controls-IsSettings :
    (s : Setting) (t : Tco) (sys_48khz : Bool) (val : ℤ)
    → IsSettings t.settings
    → IsSettings (put_control (put_setting s) (max_range s) t sys_48khz val).0.settings
      × IsSettings (put_control put_frame_rate 6 t sys_48khz val).0.settings
put_controls-IsSettings s t sys_48khz val h = (
  put_control-IsSettings (put_setting s) (max_range s) (put_setting-KeepsRange s) t sys_48khz val h,
  put_control-IsSettings put_frame_rate 6 put_frame_rate-KeepsRange t sys_48khz val h,
)
