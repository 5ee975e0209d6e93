-- ===== src/Cards/Status/Read.antt =====
-- The status that the three card drivers read: `hdspe_madi_read_status`, `hdspe_aes_read_status` and
-- `hdspe_raio_read_status`. What the status held before is an argument.
pub mod Loops
pub mod Available
mod Tests
use snd_hdspe.Common.{
  ℕ, zero, suc, ◌+◌, ◌*◌, bit_and, bit_or, Bool, true, false, not, ◌==◌, ltb, shl, shr,
  if◌then◌else◌, Option, none, some,
}
use snd_hdspe.Device.{IoType, madi, madiface, aes, raydat, aio, aio_pro}
use snd_hdspe.Clock.{speed_adapt}
use snd_hdspe.Cards.References.{
  word_source, tco_source, sync_in_source, madi_autosync_ref, without_tco,
}
use snd_hdspe.Cards.Status.{
  fbits_freq, Levels, no_levels, aio_levels, aio_pro_levels, madi_special, aes_special,
  raio_special, Sources, Status, Running, read_sample_rate_status, set_sync_source,
}
use snd_hdspe.Cards.Status.Registers.{
  control_madi, status0_madi, status2_madi, control_aes, Status0Aes, status0_aes, Status2Aes,
  status2_aes, settings_raio, SettingsRaio, status1_raio, Status1Raio, status2_raio, Status2Raio,
}

-- The loop that clears the first sources.
pub clear_sources : ℕ → Sources → Sources
clear_sources zero s = s
clear_sources (suc n) s = set_sync_source n 0 false false false (clear_sources n s)

-- A bit of the inputs' locks or syncs.
pub bit_is_set : ℕ → ℕ → Bool
bit_is_set word mask = not (bit_and word mask == 0)

pub four_bits : (b3 b2 b1 b0 : ℕ) → ℕ
four_bits b3 b2 b1 b0 = bit_or (bit_or (bit_or (shl b3 3) (shl b2 2)) (shl b1 1)) (shl b0 0)

pub madi_sources : (control status0 status2 : ℕ) → Sources → Sources
madi_sources control status0 status2 before =
    let s0 = status0_madi status0 in
    let s2 = status2_madi status2 in
    set_sync_source sync_in_source 0 s0.sync_in_lock s0.sync_in_sync true (
      set_sync_source tco_source 0 s0.tco_lock s0.tco_sync s0.tco_detect (
        set_sync_source 1 s0.madi_freq s0.madi_lock s0.madi_sync true
          (set_sync_source word_source 0 s2.wc_lock s2.wc_sync true (clear_sources 16 before))))

unfoldable pub madi_read_status :
    Running → (pll_freq control status0 status2 : ℕ) → Sources → Status
madi_read_status r pll_freq control status0 status2 before =
    let shared = read_sample_rate_status r pll_freq in
    let c = control_madi control in
    let s0 = status0_madi status0 in
    let s2 = status2_madi status2 in
    record {
      shared = shared;
      clock_mode = c.master;
      preferred_ref = madi_autosync_ref c.sync_ref;
      autosync_ref = madi_autosync_ref s2.sync_ref;
      sources = madi_sources control status0 status2 before;
      external_freq =
          speed_adapt (four_bits s2.inp_freq3 s2.inp_freq2 s2.inp_freq1 s2.inp_freq0)
            shared.speed_mode;
      wck48 = c.wck48;
      clr_tms = c.clr_tms;
      special = madi_special c.inp_0 c.auto_inp c.tx_64ch c.smux s0.ab_int s0.rx_64ch;
    }

-- The loop over the first n AES inputs.
pub aes_inputs : ℕ → (fbits status2 : ℕ) → Sources → Sources
aes_inputs zero fbits status2 s = s
aes_inputs (suc n) fbits status2 s =
    let s2 = status2_aes status2 in
    set_sync_source (1 + n) (fbits_freq fbits n) (bit_is_set s2.input_lock (shr 0x80 n))
      (bit_is_set s2.input_sync (shr 0x80 n)) true (aes_inputs n fbits status2 s)

-- The loop that clears the n sources after the sync input.
pub clear_after : ℕ → Sources → Sources
clear_after zero s = s
clear_after (suc n) s =
    set_sync_source (sync_in_source + 1 + n) 0 false false false (clear_after n s)

pub aes_sources : (status0 status2 fbits : ℕ) → Sources → Sources
aes_sources status0 status2 fbits before =
    let s0 = status0_aes status0 in
    let s2 = status2_aes status2 in
    clear_after 5 (
      set_sync_source sync_in_source s2.sync_in_freq s2.sync_in_lock s2.sync_in_sync true (
        set_sync_source tco_source s0.tco_freq s0.tco_lock s0.tco_sync s0.tco_detect (
          aes_inputs 8 fbits status2
            (set_sync_source word_source s0.wc_freq s0.wc_lock s0.wc_sync true before))))

unfoldable pub aes_read_status :
    Running → (pll_freq control status0 status2 fbits : ℕ) → Sources → Status
aes_read_status r pll_freq control status0 status2 fbits before =
    let shared = read_sample_rate_status r pll_freq in
    let c = control_aes control in
    let s0 = status0_aes status0 in
    let s2 = status2_aes status2 in
    let sources = aes_sources status0 status2 fbits before in
    record {
      shared = shared;
      clock_mode = c.master;
      preferred_ref = four_bits c.sync_ref3 c.sync_ref2 c.sync_ref1 c.sync_ref0;
      autosync_ref = s0.sync_ref;
      sources = sources;
      external_freq = speed_adapt (sources.freq_of s0.sync_ref) shared.speed_mode;
      wck48 = c.wck48;
      clr_tms = c.clr_tms;
      special = aes_special c.pro c.emp c.dolby c.line_out c.ds_mode c.qs_mode s2.aes_mode;
    }

-- The loop over the first n inputs.
pub raio_inputs : ℕ → (fbits status1 : ℕ) → Sources → Sources
raio_inputs zero fbits status1 s = s
raio_inputs (suc n) fbits status1 s =
    let s1 = status1_raio status1 in
    set_sync_source (1 + n) (fbits_freq fbits n) (bit_is_set s1.input_lock (shl 1 n))
      (bit_is_set s1.input_sync (shl 1 n)) true (raio_inputs n fbits status1 s)

pub nr_inputs : IoType → ℕ
nr_inputs raydat = 6
nr_inputs _ = 3

pub raio_sources : IoType → (status1 status2 fbits : ℕ) → Sources → Sources
raio_sources io status1 status2 fbits before =
    let s1 = status1_raio status1 in
    let s2 = status2_raio status2 in
    set_sync_source sync_in_source s2.sync_in_freq s2.sync_in_lock s2.sync_in_sync true (
      set_sync_source tco_source (if s2.tco_detect then s1.tco_freq else 0) s1.tco_lock s1.tco_sync
        s2.tco_detect
        (raio_inputs (nr_inputs io) fbits status1 (
          set_sync_source word_source (if s2.tco_detect then 0 else s1.tco_freq) s1.tco_lock
            s1.tco_sync (not s2.tco_detect) (clear_sources 16 before))))

unfoldable pub levels : IoType → SettingsRaio → Levels
levels aio c = aio_levels c.ad_gain c.da_gain c.ph_gain c.sym6db
levels aio_pro c = aio_pro_levels c.ad_gain (c.da_gain + (if c.sym6db then 4 else 0)) c.ph_gain
levels _ c = no_levels

pub has_tco : {A : Type 0} → Option A → Bool
has_tco none = false
has_tco (some a) = true

unfoldable pub raio_read_status :
    Running → (pll_freq settings status1 status2 fbits : ℕ) → Sources → Status
raio_read_status r pll_freq settings status1 status2 fbits before =
    let shared = read_sample_rate_status r pll_freq in
    let c = settings_raio settings in
    let s1 = status1_raio status1 in
    let s2 = status2_raio status2 in
    let io = r.device.io_type in
    let tco = has_tco r.device.tco in
    let sources = raio_sources io status1 status2 fbits before in
    let autosync_ref = without_tco tco s1.sync_ref in
    record {
      shared = shared;
      clock_mode = c.master;
      preferred_ref = without_tco tco c.sync_ref;
      autosync_ref = autosync_ref;
      sources = sources;
      external_freq = speed_adapt (sources.freq_of autosync_ref) shared.speed_mode;
      wck48 = c.wck48;
      clr_tms = c.clr_tms;
      special =
          raio_special (not s2.aebo_d) (not s2.aebi_d) c.aeb1 c.aeb2 c.input c.spdif_opt c.pro
            (levels io c);
    }

-- The registers that the methods read; each card has some of them.
pub record Registers : Type 0 where
  pub pll_freq : ℕ
  pub control : ℕ
  pub settings : ℕ
  pub status0 : ℕ
  pub status1 : ℕ
  pub status2 : ℕ
  pub fbits : ℕ

-- The method `read_status` of a card model.
unfoldable pub read_method : IoType → Running → Registers → Sources → Status
read_method madi r g = madi_read_status r g.pll_freq g.control g.status0 g.status2
read_method madiface r g = madi_read_status r g.pll_freq g.control g.status0 g.status2
read_method aes r g = aes_read_status r g.pll_freq g.control g.status0 g.status2 g.fbits
read_method _ r g = raio_read_status r g.pll_freq g.settings g.status1 g.status2 g.fbits

unfoldable pub read_status : Running → Registers → Sources → Status
read_status r g before = read_method r.device.io_type r g before
