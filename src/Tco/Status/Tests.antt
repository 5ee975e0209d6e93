-- ===== src/Tco/Status/Tests.antt =====
-- Runs of the notifications of changes.
use snd_hdspe.Common.{◌≡◌, not, ◌==◌, refl, [], ◌∷◌}
use snd_hdspe.Tco.{read_status1, read_offset}
use snd_hdspe.Tco.Status.{
  LastStatus, ltc_valid, video_in_fps, tco_lock, check, is_quiet, notify_status_change,
}
use snd_hdspe.Tco.Status.Notify.{has, value_of, notify_status_change_lem}

abbrev last : LastStatus
last = record {
  status1 = record {
    tco_lock = 0;
    ltc_valid = 0;
    ltc_in_fps = 1;
    ltc_in_drop = 0;
    video = 0;
    wck_valid = 0;
    wck_speed = 0;
    ltc_in_offset = 0;
  };
  video_in_fps = 3;
}

-- The module locks, and the code becomes valid; the local variable holds 77.
changes : (notify_status_change 77 0x409 last).1 ≡ (ltc_valid ∷ (video_in_fps ∷ (tco_lock ∷ [])))
unfolding notify_status_change check read_status1 read_offset
changes = refl

notify_status_change_lem_example :
    let (new, notified, changed) = notify_status_change 77 0x409 last in
    (new.status1 ≡ read_status1 0x409)
    × (new.video_in_fps ≡ 77)
    × (has video_in_fps notified ≡ not (value_of video_in_fps new == value_of video_in_fps last))
    × (changed ≡ not (is_quiet notified))
notify_status_change_lem_example = notify_status_change_lem video_in_fps 77 0x409 last
