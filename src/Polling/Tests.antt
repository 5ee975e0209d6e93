-- ===== src/Polling/Tests.antt =====
-- Runs of the polling.
use snd_hdspe.Common.{◌≡◌, ◌≢◌, arith, refl, true, false, some}
use snd_hdspe.Common.Int.{negsuc}
use snd_hdspe.Device.{madi, single}
use snd_hdspe.Cards.Status.{SyncStatus, sync_no_lock, sync_sync, madi_special, Status}
use snd_hdspe.Polling.{
  Polling, changes, has_changed, since, stops, status_work, schedule, sync_differs, same_sync,
  freq_differs, rate_differs, when, check_status_change, madi_check_status_change, source_differs,
  rx_differs, same_bool, is_empty,
}
use snd_hdspe.Polling.Timeout.{first_work, interrupted, status_work-status_polling}

abbrev status : SyncStatus → Status
status at_word = record {
  shared = record {
    sample_rate_numerator = 110069313433624;
    sample_rate_denominator = 2293110696;
    internal_sample_rate_denominator = 2293110696;
    buffer_size = some 512;
    running = 0;
    capture_pid = negsuc 0;
    playback_pid = negsuc 0;
    internal_freq = 3;
    speed_mode = single;
  };
  clock_mode = false;
  preferred_ref = 0;
  autosync_ref = 0;
  sources = record { freq_of = λ _. 0; sync_of = λ _. at_word };
  external_freq = 3;
  wck48 = false;
  clr_tms = false;
  special = madi_special false false true false false true;
}

abbrev polling : Polling
polling = record {
  status_polling = 4;
  last_status_jiffies = 1000;
  last_status_change_jiffies = 0;
  last_status = status sync_no_lock;
}

same : (status_work 250 1000 madi true (status sync_no_lock) false polling).0.status_polling ≡ 4
unfolding status_work stops has_changed changes since sync_differs same_sync freq_differs
    rate_differs when check_status_change madi_check_status_change source_differs rx_differs
    same_bool is_empty
same = refl

-- The time without a change is that of an earlier polling which the user has ended: the first poll
-- after it turns polling off.
stale :
    (status_work 250 9000 madi true
      (status sync_no_lock)
      false
      (record polling { last_status_change_jiffies = 1000 })).0.status_polling
    ≡ 0
unfolding status_work stops has_changed changes since sync_differs same_sync freq_differs
    rate_differs when check_status_change madi_check_status_change source_differs rx_differs
    same_bool is_empty
stale = refl

other_sync : sync_sync ≢ sync_no_lock
other_sync = ground arith

status_work-status_polling_example :
    (status_work 250 1600 madi true
      (status sync_no_lock)
      false
      (schedule 250 1500
        (status_work 250 1000 madi true (status sync_no_lock) false polling).0).0).0.status_polling
    ≡ 0
status_work-status_polling_example =
    status_work-status_polling 250 1000 1600 madi true (status sync_no_lock) false
      (schedule 250 1500 (status_work 250 1000 madi true (status sync_no_lock) false polling).0).0
      (omega arith) (omega arith) (omega arith)
      (interrupted _ 1500 (first_work polling (status sync_no_lock) false refl))
