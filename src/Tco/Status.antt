-- ===== src/Tco/Status.antt =====
-- The status of the TCO in hdspe_tco.c: what is read for user space, the notifications of changes, and
-- whether there is a module. What the card's registers read is an argument, and so is the value that
-- an uninitialised field of a local variable has.
pub mod Notify
pub mod Tests
use snd_hdspe.Common.{
  ℕ, Bool, true, false, not, ◌&&◌, ◌||◌, ◌==◌, if◌then◌else◌, bit_and, shr, List, [], ◌∷◌, ◌++◌,
}
use snd_hdspe.Device.{IoType, madi, madiface, aio, aes, raydat, aio_pro}
use snd_hdspe.Tco.{
  Tco, Settings, Status1, read_status1, read_status2, flag, stop_timecode, reset_timecode,
}
use snd_hdspe.Cards.Status.Registers.{Status0Madi, status0_madi, Status2Raio, status2_raio}

-- `struct hdspe_tco_status` without the version of the interface.
pub record TcoStatus : Type 0 where
  pub ltc_in : ℕ
  pub status1 : Status1
  pub settings : Settings
  pub ltc_run : ℕ
  pub fw_version : ℕ
  pub fs_period_counter : ℕ
  pub video_in_fps : ℕ

-- The registers 0 to 3 of the module.
pub tco_read_status : ℕ → Tco → (ℕ → ℕ) → TcoStatus
tco_read_status fw_version t read_tco =
    let (counter, fps) = read_status2 (read_tco 2) in
    record {
      ltc_in = read_tco 0;
      status1 = read_status1 (read_tco 1);
      settings = t.settings;
      ltc_run = flag t.ltc_run;
      fw_version = fw_version;
      fs_period_counter = counter;
      video_in_fps = fps;
    }

-- The controls that a change is notified for.
pub data Property : Type 0 where
  ltc_valid ltc_in_fps ltc_in_drop video video_in_fps wck_valid wck_speed tco_lock : Property

-- The fields of the last status that the notifications compare.
pub record LastStatus : Type 0 where
  pub status1 : Status1
  pub video_in_fps : ℕ

-- CHECK_STATUS_CHANGE
pub check : ℕ → ℕ → Property → List Property
check n o prop = if not (n == o) then prop ∷ [] else []

pub is_quiet : List Property → Bool
is_quiet [] = true
is_quiet (x ∷ xs) = false

-- `hdspe_tco_notify_status_change` with the register 1, and with the value of the field video_in_fps of
-- the local status, which `hdspe_tco_read_status1` does not set: the last status, the controls that are
-- notified in their order, and the result.
pub notify_status_change : ℕ → ℕ → LastStatus → LastStatus × List Property × Bool
notify_status_change uninitialised tco1 last =
    let n = read_status1 tco1 in
    let o = last.status1 in
    let notified =
      check n.ltc_valid o.ltc_valid ltc_valid
      ++ (check n.ltc_in_fps o.ltc_in_fps ltc_in_fps
          ++ (check n.ltc_in_drop o.ltc_in_drop ltc_in_drop
              ++ (check n.video o.video video
                  ++ (check uninitialised last.video_in_fps video_in_fps
                      ++ (check n.wck_valid o.wck_valid wck_valid
                          ++ (check n.wck_speed o.wck_speed wck_speed
                              ++ check n.tco_lock o.tco_lock tco_lock)))))) in
    (record { status1 = n; video_in_fps = uninitialised }, notified, not (is_quiet notified))

-- The registers of the card that say whether there is a module.
pub tco_detect : IoType → ℕ → ℕ → Bool
tco_detect madi status0 status2 = (status0_madi status0).tco_detect
tco_detect aes status0 status2 = (status0_madi status0).tco_detect
tco_detect madiface status0 status2 = false
tco_detect _ status0 status2 = (status2_raio status2).tco_detect

-- The last writes to the module.
pub terminate_tco : Tco → Tco
terminate_tco t = reset_timecode (stop_timecode t)
